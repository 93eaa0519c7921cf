-- ===== src/Shvar/Expand.antt =====
-- What shvar_eval makes of a text with variables.
use boris.Prelude.{
  ℕ, zero, suc, ◌+◌, ◌-◌, ◌≤◌, ◌<◌, ◌≡◌, ◌≢◌, refl, ap, ◌∙◌, true, false, Option, none, some, List,
  [], ◌∷◌, ◌++◌, ◌==◌, ltb, All, arith, length, length-append, Bytes,
}
use boris.Shvar.{
  Shvar, ShvarRound, more, stop, undefined, shvar_id_max, until, put_value, substitute, enclosed,
  behind_dollar, behind_text, shvar_loop, shvar_eval,
}

-- what a text is made of: bytes that stand for themselves, `$$`, `${name}` and `$(name)`
pub data Piece : Type 0 where
  plain : ℕ → Piece
  dollar : Piece
  braces : Bytes → Piece
  parens : Bytes → Piece

unfoldable pub IsPiece : Piece → Type 0
IsPiece (plain c) = c ≢ 36
IsPiece dollar = Unit
IsPiece (braces name) = All (λ c. c ≢ 125) name × (length name < 128)
IsPiece (parens name) = All (λ c. c ≢ 41) name × (length name < 128)

-- the piece in front of a text
unfoldable pub piece_text : Piece → Bytes → Bytes
piece_text (plain c) s = c ∷ s
piece_text dollar s = 36 ∷ 36 ∷ s
piece_text (braces name) s = 36 ∷ 123 ∷ (name ++ (125 ∷ s))
piece_text (parens name) s = 36 ∷ 40 ∷ (name ++ (41 ∷ s))

unfoldable pub piece_source : List Piece → Bytes
unfolding piece_text
piece_source [] = []
piece_source (p ∷ ps) = piece_text p (piece_source ps)

abbrev pub value : Option Bytes → Bytes
value none = []
value (some tmp) = tmp

unfoldable pub piece_value : (Bytes → Option Bytes) → Piece → Bytes
piece_value match (plain c) = c ∷ []
piece_value match dollar = 36 ∷ []
piece_value match (braces name) = value (match name)
piece_value match (parens name) = value (match name)

unfoldable pub expanded : (Bytes → Option Bytes) → List Piece → Bytes
unfolding piece_value
expanded match [] = []
expanded match (p ∷ ps) = piece_value match p ++ expanded match ps

until_end :
    (e : ℕ) (name s : Bytes) → All (λ c. c ≢ e) name → until e (name ++ (e ∷ s)) ≡ some (name, s)
unfolding until
until_end e [] s h = ground arith
until_end e (c ∷ name) s h =
    let other : (c == e) ≡ false = ground (arith, h.0) in rw (other, until_end e name s h.1) refl

put_value_fits :
    (v : Option Bytes) (len : ℕ) (rest : Bytes)
    → length (value v) ≤ len
    → put_value v len rest ≡ more (value v) (len - length (value v)) rest
put_value_fits none len rest le = ap (λ n. more [] n rest) (omega arith)
put_value_fits (some tmp) len rest le = ground arith

substitute_fits :
    (match : Bytes → Option Bytes) (len : ℕ) (key rest : Bytes)
    → length key < 128
    → length (value (match key)) ≤ len
    → substitute (some match) len key rest
      ≡ more (value (match key)) (len - length (value (match key))) rest
substitute_fits match len key rest short le =
    let fits : ltb (length key) shvar_id_max ≡ true = ground arith in
    rw fits (put_value_fits (match key) len rest le)

length-piece_text : (p : Piece) (s : Bytes) → length s < length (piece_text p s)
unfolding piece_text
length-piece_text (plain c) s = omega arith
length-piece_text dollar s = omega arith
length-piece_text (braces name) s = omega (arith, length-append name (125 ∷ s))
length-piece_text (parens name) s = omega (arith, length-append name (41 ∷ s))

module _ (match : Bytes → Option Bytes) where
  -- what comes behind a round
  abbrev after_round : ℕ → ShvarRound → Option Shvar
  after_round rounds round = elim round [
    | more out left rest ↦ behind_text out (shvar_loop rounds (some match) left rest)
    | stop r ↦ some r
    | undefined ↦ none
  ]

  enclosed_fits :
      (len : ℕ) (old name s : Bytes) (e : ℕ)
      → All (λ c. c ≢ e) name
      → length name < 128
      → length (value (match name)) ≤ len
      → enclosed (some match) len old (until e (name ++ (e ∷ s)))
        ≡ more (value (match name)) (len - length (value (match name))) s
  enclosed_fits len old name s e other short le =
      ap (enclosed (some match) len old) (until_end e name s other)
      ∙ substitute_fits match len name s short le

  -- a round of the loop takes a piece
  loop_round :
      (rounds len : ℕ) (p : Piece) (s : Bytes)
      → IsPiece p
      → length (piece_value match p) ≤ suc len
      → shvar_loop (suc rounds) (some match) (suc len) (piece_text p s)
        ≡ behind_text
            (piece_value match p)
            (shvar_loop rounds (some match) (suc len - length (piece_value match p)) s)
  unfolding shvar_loop behind_dollar piece_text piece_value IsPiece
  loop_round rounds len (plain c) s v le =
      let other : (c == 36) ≡ false = ground (arith, v) in
      rw (other, shvar_loop)
        (ap (λ n. behind_text (c ∷ []) (shvar_loop rounds (some match) n s)) (omega arith))
  loop_round rounds len dollar s v le = refl
  loop_round rounds len (braces name) s v le =
      ap (after_round rounds)
        (enclosed_fits (suc len) (36 ∷ 123 ∷ (name ++ (125 ∷ s))) name s 125 v.0 v.1 le)
  loop_round rounds len (parens name) s v le =
      ap (after_round rounds)
        (enclosed_fits (suc len) (36 ∷ 40 ∷ (name ++ (41 ∷ s))) name s 41 v.0 v.1 le)

  expand_loop :
      (ps : List Piece) (rounds len : ℕ)
      → All IsPiece ps
      → length (piece_source ps) ≤ rounds
      → length (expanded match ps) ≤ len
      → shvar_loop (suc rounds) (some match) (suc len) (piece_source ps)
        ≡ some (record { text = expanded match ps; ended = true; result = 1 })
  unfolding shvar_loop piece_source expanded
  expand_loop [] rounds len v fuel room = refl
  expand_loop (p ∷ ps) zero len v fuel room =
      absurd (omega (arith, length-piece_text p (piece_source ps)))
  expand_loop (p ∷ ps) (suc rounds) len v fuel room =
      let k : ℕ = length (piece_value match p) in
      let total : length (expanded match (p ∷ ps)) ≡ k + length (expanded match ps) =
        length-append (piece_value match p) (expanded match ps) in
      let left : suc len - k ≡ suc (len - k) = omega (arith, total, room) in
      loop_round (suc rounds) len p (piece_source ps) v.0 (omega (arith, total, room))
      ∙ ap
          (λ n.
            behind_text (piece_value match p)
              (shvar_loop (suc rounds) (some match) n (piece_source ps)))
          left
      ∙ ap (behind_text (piece_value match p)) (
          expand_loop ps rounds (len - k) v.1
            (omega (arith, length-piece_text p (piece_source ps), fuel))
            (omega (arith, total, room)))

  -- A text of bytes that are no dollar sign, of `$$`, and of names of at most 127 bytes in braces or
  -- parentheses, each without the closing one, comes out with a dollar sign for `$$` and its value, or nothing,
  -- for each name, with a NUL behind it and the result 1, where the buffer has room for that.
  pub shvar_eval-expanded :
      (ps : List Piece) (len : ℕ)
      → All IsPiece ps
      → length (expanded match ps) < len
      → shvar_eval len (piece_source ps) (some match)
        ≡ some (record { text = expanded match ps; ended = true; result = 1 })
  unfolding shvar_eval
  shvar_eval-expanded ps zero v room = absurd (omega (arith, room))
  shvar_eval-expanded ps (suc len) v room =
      ap (λ n. shvar_loop n (some match) (suc len) (piece_source ps)) (omega arith)
      ∙ expand_loop ps (length (piece_source ps)) len v (omega arith) (omega (arith, room))
