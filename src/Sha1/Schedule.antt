-- ===== src/Sha1/Schedule.antt =====
-- The sixteen words of `sha1_transform_chunk`, which it uses over and over, are the last sixteen of the eighty.
use boris.Prelude.{
  ℕ, zero, suc, ◌+◌, ◌%◌, ◌≤◌, ◌<◌, ◌≡◌, ◌≢◌, ◌∙◌, sym, refl, ap, Bool-cases, inl, inr, List, [],
  ◌∷◌, ◌++◌, ◌==◌, false, ltb, append_assoc, length, length-append, length-set, length-drop, get_or,
  get_or-set, set, drop, replicate, arith,
}
use boris.Sha1.{ctx, Vars, Ctx, round, load_word, rounds, add_vars, sha1_transform_chunk}
use boris.Sha1.Reference.{next_word, expand, all_rounds, compress}

module _ {ℓ} {A : Type ℓ} where
  pub set-append : (l m : List A) (x y : A) → set (l ++ (x ∷ m)) (length l) y ≡ l ++ (y ∷ m)
  set-append [] m x y = refl
  set-append (z ∷ l) m x y = ap (◌∷◌ z) (set-append l m x y)

  pub get_or-append : (l m : List A) (x d : A) → get_or (l ++ (x ∷ m)) (length l) d ≡ x
  get_or-append [] m x d = refl
  get_or-append (z ∷ l) m x d = get_or-append l m x d

  get_or-append_left :
      (l m : List A) (i : ℕ) (d : A) → i < length l → get_or (l ++ m) i d ≡ get_or l i d
  get_or-append_left [] m i d h = absurd (omega arith)
  get_or-append_left (z ∷ l) m zero d h = refl
  get_or-append_left (z ∷ l) m (suc i) d h = get_or-append_left l m i d (omega arith)

all_rounds-append :
    (i : ℕ) (xs ys : List ℕ) (v : Vars)
    → all_rounds i (xs ++ ys) v ≡ all_rounds (i + length xs) ys (all_rounds i xs v)
unfolding all_rounds
all_rounds-append i [] ys v = ap (λ n. all_rounds n ys v) (omega arith)
all_rounds-append i (x ∷ xs) ys v =
    all_rounds-append (i + 1) xs ys (round i x v)
    ∙ ap (λ n. all_rounds n ys (all_rounds (i + 1) xs (round i x v))) (omega arith)

-- a word is loaded, and read
module _ (chunk_end junk done : List ℕ) (x y : ℕ) (h : length done < 16) where
  load_word-first :
      load_word (done ++ (x ∷ chunk_end)) (length done) (done ++ (y ∷ junk)) ≡ done ++ (x ∷ junk)
  unfolding load_word
  load_word-first = ground (arith, set-append done junk y x, get_or-append done chunk_end x 0)

  get_or-first : get_or (done ++ (x ∷ junk)) (length done % 16) 0 ≡ x
  get_or-first =
      let e : length done % 16 ≡ length done = omega arith in rw e (get_or-append done junk x 0)

rounds-zero : (i : ℕ) (chunk w : List ℕ) (v : Vars) → rounds 0 i chunk w v ≡ v
unfolding rounds
rounds-zero i chunk w v = refl

rounds-suc :
    (left i : ℕ) (chunk w : List ℕ) (v : Vars)
    → rounds (suc left) i chunk w v ≡ (
        let w' = load_word chunk i w in
        rounds left (i + 1) chunk w' (round i (get_or w' (i % 16) 0) v))
unfolding rounds
rounds-suc left i chunk w v = refl

all_rounds-nil : (i : ℕ) (v : Vars) → all_rounds i [] v ≡ v
unfolding all_rounds
all_rounds-nil i v = refl

all_rounds-cons :
    (i x : ℕ) (xs : List ℕ) (v : Vars)
    → all_rounds i (x ∷ xs) v ≡ all_rounds (i + 1) xs (round i x v)
unfolding all_rounds
all_rounds-cons i x xs v = refl

-- the first sixteen rounds load the words
rounds_loading :
    (left : ℕ) (done rest junk : List ℕ) (v : Vars)
    → length junk ≡ length rest
    → length done + length rest ≡ 16
    → rounds (length rest + left) (length done) (done ++ rest) (done ++ junk) v
      ≡ rounds left 16 (done ++ rest) (done ++ rest) (all_rounds (length done) rest v)
rounds_loading left done [] [] v j h =
    let e : 0 + left ≡ left = omega arith in
    let f : length done ≡ 16 = omega (arith, h) in
    rw (e, f) (sym (ap (rounds left 16 (done ++ []) (done ++ [])) (all_rounds-nil 16 v)))
rounds_loading left done [] (y ∷ junk) v j h = absurd (omega arith)
rounds_loading left done (x ∷ rest) [] v j h = absurd (omega arith)
rounds_loading left done (x ∷ rest) (y ∷ junk) v j h =
    let e : suc (length rest) + left ≡ suc (length rest + left) = omega arith in
    let n : length (done ++ (x ∷ [])) ≡ length done + 1 =
      omega (arith, length-append done (x ∷ [])) in
    let ih =
      rounds_loading left (done ++ (x ∷ [])) rest junk (round (length done) x v) (omega arith)
        (omega (arith, n, h)) in
    let small : length done < 16 = omega (arith, h) in
    rw e (
      rounds-suc (length rest + left) (length done) (done ++ (x ∷ rest)) (done ++ (y ∷ junk)) v
      ∙ rw
          (
            load_word-first rest junk done x y small,
            get_or-first rest junk done x y small,
            all_rounds-cons,
          )
          (simp (n, append_assoc) at ih))

-- what the words of `w` are before round `i`
abbrev Last : ℕ → List ℕ → List ℕ → Type 0
Last i w win = (j : ℕ) → j < 16 → get_or w ((i + j) % 16) 0 ≡ get_or win j 0

get_or-set_self : (w : List ℕ) (i x d : ℕ) → i < length w → get_or (set w i x) i d ≡ x
get_or-set_self w i x d h = ground (arith, get_or-set w i i x d h)

load_word-next :
    (i : ℕ) (chunk w win : List ℕ)
    → 16 ≤ i
    → length w ≡ 16
    → Last i w win
    → load_word chunk i w ≡ set w (i % 16) (next_word win)
unfolding load_word
load_word-next i chunk w win h hw last =
    let e0 : (i + 0) % 16 ≡ i % 16 = omega arith in
    let e13 : (i + 13) % 16 ≡ (i % 16 + 13) % 16 = omega arith in
    let e8 : (i + 8) % 16 ≡ (i % 16 + 8) % 16 = omega arith in
    let e2 : (i + 2) % 16 ≡ (i % 16 + 2) % 16 = omega arith in
    let l0 = rw e0 at (last 0 (omega arith)) in
    let l13 = rw e13 at (last 13 (omega arith)) in
    let l8 = rw e8 at (last 8 (omega arith)) in
    let l2 = rw e2 at (last 2 (omega arith)) in
    let large : ltb i 16 ≡ false = ground arith in rw (large, l0, l13, l8, l2) refl

-- the oldest word gives way to the new one
get_or-drop_one :
    (win : List ℕ) (x j : ℕ)
    → length win ≡ 16
    → j < 15
    → get_or (drop 1 win ++ (x ∷ [])) j 0 ≡ get_or win (suc j) 0
get_or-drop_one [] x j h k = absurd (omega arith)
get_or-drop_one (y ∷ win) x j h k = get_or-append_left win (x ∷ []) j 0 (omega arith)

get_or-drop_last :
    (win : List ℕ) (x : ℕ) → length win ≡ 16 → get_or (drop 1 win ++ (x ∷ [])) 15 0 ≡ x
get_or-drop_last [] x h = absurd (omega arith)
get_or-drop_last (y ∷ win) x h =
    let e : length win ≡ 15 = omega (arith, h) in
    ap (λ n. get_or (win ++ (x ∷ [])) n 0) (sym e) ∙ get_or-append win [] x 0

Last-slide :
    (i x : ℕ) (w win : List ℕ)
    → length w ≡ 16
    → length win ≡ 16
    → Last i w win
    → Last (i + 1) (set w (i % 16) x) (drop 1 win ++ (x ∷ []))
Last-slide i x w win hw hwin last j h = elim (Bool-cases (j == 15)) [
  | inl newest ↦
      let e : j ≡ 15 = ground arith in
      let m : (i + 1 + 15) % 16 ≡ i % 16 = omega arith in
      rw (e, m)
        (get_or-set_self w (i % 16) x 0 (omega (arith, hw)) ∙ sym (get_or-drop_last win x hwin))
  | inr older ↦
      let ne : j ≢ 15 = ground arith in
      let m : (i + 1 + j) % 16 ≡ (i + suc j) % 16 = omega arith in
      let other : (i % 16 == (i + suc j) % 16) ≡ false = ground arith in
      rw (m, get_or-set w (i % 16) ((i + suc j) % 16) x 0 (omega (arith, hw)), other)
        (last (suc j) (omega arith) ∙ sym (get_or-drop_one win x j hwin (omega arith)))
]

Last-start : (block : List ℕ) → Last 16 block block
Last-start block j h = let m : (16 + j) % 16 ≡ j = omega arith in ap (λ k. get_or block k 0) m

rounds_expanding :
    (left i : ℕ) (chunk w win : List ℕ) (v : Vars)
    → 16 ≤ i
    → length w ≡ 16
    → length win ≡ 16
    → Last i w win
    → rounds left i chunk w v ≡ all_rounds i (expand left win) v
unfolding expand
rounds_expanding zero i chunk w win v h hw hwin last =
    rounds-zero i chunk w v ∙ sym (all_rounds-nil i v)
rounds_expanding (suc left) i chunk w win v h hw hwin last =
    let x = next_word win in
    let ih =
      rounds_expanding left (i + 1) chunk (set w (i % 16) x) (drop 1 win ++ (x ∷ [])) (round i x v)
        (omega arith) (length-set w (i % 16) x ∙ hw)
        (omega (arith, length-append (drop 1 win) (x ∷ []), length-drop 1 win, hwin))
        (Last-slide i x w win hw hwin last) in
    rounds-suc left i chunk w v
    ∙ rw
        (
          load_word-next i chunk w win h hw last,
          get_or-set_self w (i % 16) x 0 (omega (arith, hw)),
          all_rounds-cons,
        )
        ih

all_rounds-block :
    (block : List ℕ) (v : Vars)
    → length block ≡ 16
    → rounds 80 0 block (replicate 16 0) v ≡ all_rounds 0 (block ++ expand 64 block) v
all_rounds-block block v e =
    let n : length block + 64 ≡ 80 = omega (arith, e) in
    let loaded = all_rounds 0 block v in
    let start : 16 ≡ 0 + length block = omega (arith, e) in
    ap (λ k. rounds k 0 block (replicate 16 0) v) (sym n)
    ∙ rounds_loading 64 [] block (replicate 16 0) v (sym e) (omega (arith, e))
    ∙ rounds_expanding 64 16 block block block loaded (omega arith) e e
        (λ j h. Last-start block j h)
    ∙ ap (λ k. all_rounds k (expand 64 block) loaded) start
    ∙ sym (all_rounds-append 0 block (expand 64 block) v)

pub transform_chunk-compress :
    (s : Ctx) → length s.chunk ≡ 16 → sha1_transform_chunk s ≡ record s { h = compress s.h s.chunk }
unfolding sha1_transform_chunk compress
transform_chunk-compress s e =
    ap (λ (v : Vars). ctx (add_vars s.h v) s.chunk s.cnt s.data_len)
      (all_rounds-block s.chunk s.h e)
