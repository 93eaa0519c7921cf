-- ===== src/Sha1/Stream.antt =====
-- `sha1_update` on whole blocks: every four bytes make a word, and every sixteen words are compressed.
use boris.Prelude.{
  ℕ, zero, suc, ◌+◌, ◌*◌, ◌/◌, ◌%◌, ◌^◌, ◌<◌, ◌≡◌, ◌∙◌, sym, refl, ap, Bool, true, false, List, [],
  ◌∷◌, ◌++◌, ltb, append_assoc, length, length-append, take, drop, length-take, length-drop,
  take-append-drop, drop-append_self, Bytes, arith,
}
use Prim.Native.Nat.{bit_or}
use boris.Sha1.{Vars, Ctx, ctx, cnt_mod, word_with, load_byte, end_chunk, sha1_update}
use boris.Sha1.Reference.{word, words, compress, compress_all}
use boris.Sha1.Schedule.{set-append, get_or-append, transform_chunk-compress}

pub sha1_update-append :
    (wide : Bool) (s : Ctx) (p q : Bytes)
    → sha1_update wide s (p ++ q) ≡ sha1_update wide (sha1_update wide s p) q
unfolding sha1_update
sha1_update-append wide s [] q = refl
sha1_update-append wide s (x ∷ p) q = sha1_update-append wide (end_chunk (load_byte wide s x)) p q

sha1_update_four :
    (wide : Bool) (s : Ctx) (a b c d : ℕ) (p : Bytes)
    → sha1_update wide s (a ∷ b ∷ c ∷ d ∷ p) ≡ (
        let byte = λ (u : Ctx) (x : ℕ). end_chunk (load_byte wide u x) in
        sha1_update wide (end_chunk (load_byte wide (byte (byte (byte s a) b) c) d)) p)
unfolding sha1_update
sha1_update_four wide s a b c d p = refl

pub cnt_mod_low : (wide : Bool) (n : ℕ) → n % cnt_mod wide % 512 ≡ n % 512
cnt_mod_low true n = omega arith
cnt_mod_low false n = omega arith

cnt_four :
    (wide : Bool) (n : ℕ)
    → ((((n + 8) % cnt_mod wide + 8) % cnt_mod wide + 8) % cnt_mod wide + 8) % cnt_mod wide
      ≡ (n + 32) % cnt_mod wide
cnt_four true n = omega arith
cnt_four false n = omega arith

end_chunk-short : (s : Ctx) → s.data_len < 64 → end_chunk s ≡ s
unfolding end_chunk
end_chunk-short s h = let e : ltb s.data_len 64 ≡ true = ground arith in rw e refl

end_chunk-full :
    (h : Vars) (chunk : List ℕ) (cnt : ℕ)
    → length chunk ≡ 16
    → end_chunk (ctx h chunk cnt 64) ≡ ctx (compress h chunk) chunk cnt 0
unfolding end_chunk
end_chunk-full h chunk cnt e =
    ap (λ (s : Ctx). ctx s.h s.chunk s.cnt 0) (transform_chunk-compress (ctx h chunk cnt 64) e)

-- a byte goes to its place in its word
module _ (wide : Bool) (h : Vars) (done rest : List ℕ) (room : length done < 16) where
  load_byte_lem :
      (old cnt n r x : ℕ)
      → r < 4
      → n ≡ 4 * length done + r
      → cnt % 512 ≡ 8 * n
      → load_byte wide (ctx h (done ++ (old ∷ rest)) cnt n) x
        ≡ ctx h (done ++ (word_with r old x ∷ rest)) ((cnt + 8) % cnt_mod wide) (n + 1)
  unfolding load_byte
  load_byte_lem old cnt n r x small e f =
      let place : n / 4 ≡ length done = omega (arith, e) in
      let shift : cnt / 8 % 4 ≡ r = omega (arith, e, f) in
      rw (place, shift, get_or-append done rest old 0, set-append done rest old (word_with r old x))
        refl

  load_short :
      (old cnt n r x : ℕ)
      → r < 3
      → n ≡ 4 * length done + r
      → cnt % 512 ≡ 8 * n
      → end_chunk (load_byte wide (ctx h (done ++ (old ∷ rest)) cnt n) x)
        ≡ ctx h (done ++ (word_with r old x ∷ rest)) ((cnt + 8) % cnt_mod wide) (n + 1)
  load_short old cnt n r x small e f =
      rw (load_byte_lem old cnt n r x (omega arith) e f)
        (end_chunk-short _ (omega (arith, e, room)))

  -- four bytes are a word
  load_word_bytes :
      (old cnt n a b c d : ℕ) (s : Bytes)
      → n ≡ 4 * length done
      → cnt % 512 ≡ 8 * n
      → sha1_update wide (ctx h (done ++ (old ∷ rest)) cnt n) (a ∷ b ∷ c ∷ d ∷ s)
        ≡ sha1_update wide
            (end_chunk (
              ctx h
                (done ++ (word a b c d ∷ rest))
                ((cnt + 32) % cnt_mod wide)
                (n + 1 + 1 + 1 + 1)))
            s
  load_word_bytes old cnt n a b c d s e f =
      let m1 = (cnt + 8) % cnt_mod wide in
      let m2 = (m1 + 8) % cnt_mod wide in
      let m3 = (m2 + 8) % cnt_mod wide in
      let w2 = bit_or (a * 2 ^ 24) (b * 2 ^ 16) in
      let w3 = bit_or w2 (c * 2 ^ 8) in
      let f1 : m1 % 512 ≡ 8 * (n + 1) = omega (arith, cnt_mod_low wide (cnt + 8), f) in
      let f2 : m2 % 512 ≡ 8 * (n + 1 + 1) = omega (arith, cnt_mod_low wide (m1 + 8), f1) in
      let f3 : m3 % 512 ≡ 8 * (n + 1 + 1 + 1) = omega (arith, cnt_mod_low wide (m2 + 8), f2) in
      sha1_update_four wide (ctx h (done ++ (old ∷ rest)) cnt n) a b c d s
      ∙ rw
          (
            load_short old cnt n 0 a (omega arith) (omega (arith, e)) f,
            load_short (a * 2 ^ 24) m1 (n + 1) 1 b (omega arith) (omega (arith, e)) f1,
            load_short w2 m2 (n + 1 + 1) 2 c (omega arith) (omega (arith, e)) f2,
            load_byte_lem w3 m3 (n + 1 + 1 + 1) 3 d (omega arith) (omega (arith, e)) f3,
            cnt_four wide cnt,
          )
          refl

pub cnt_add :
    (wide : Bool) (n k : ℕ) → (n % cnt_mod wide + k) % cnt_mod wide ≡ (n + k) % cnt_mod wide
cnt_add true n k = omega arith
cnt_add false n k = omega arith

-- the bytes that are missing to a block
load_words :
    (wide : Bool) (h : Vars) (s t : Bytes) (done junk : List ℕ) (cnt n : ℕ)
    → n ≡ 4 * length done
    → cnt % 512 ≡ 8 * n
    → 0 < length junk
    → length s ≡ 4 * length junk
    → length done + length junk ≡ 16
    → sha1_update wide (ctx h (done ++ junk) cnt n) (s ++ t)
      ≡ sha1_update wide
          (ctx
            (compress h (done ++ words s))
            (done ++ words s)
            ((cnt + 8 * length s) % cnt_mod wide)
            0)
          t
unfolding words
load_words wide h s t done [] cnt n e f pos l whole = absurd (omega arith)
load_words wide h [] t done (x ∷ junk) cnt n e f pos l whole = absurd (omega arith)
load_words wide h (a ∷ []) t done (x ∷ junk) cnt n e f pos l whole = absurd (omega arith)
load_words wide h (a ∷ b ∷ []) t done (x ∷ junk) cnt n e f pos l whole = absurd (omega arith)
load_words wide h (a ∷ b ∷ c ∷ []) t done (x ∷ junk) cnt n e f pos l whole = absurd (omega arith)
load_words wide h (a ∷ b ∷ c ∷ d ∷ y ∷ s) t done (x ∷ []) cnt n e f pos l whole =
    absurd (omega arith)
load_words wide h (a ∷ b ∷ c ∷ d ∷ []) t done (x ∷ []) cnt n e f pos l whole =
    let four : n + 1 + 1 + 1 + 1 ≡ 64 = omega (arith, e, whole) in
    load_word_bytes wide h done [] (omega (arith, whole)) x cnt n a b c d t e f
    ∙ rw four (
        ap (λ (u : Ctx). sha1_update wide u t)
          (end_chunk-full h (done ++ (word a b c d ∷ [])) ((cnt + 32) % cnt_mod wide)
            (length-append done (word a b c d ∷ []) ∙ omega (arith, whole))))
load_words wide h (a ∷ b ∷ c ∷ d ∷ s) t done (x ∷ y ∷ junk) cnt n e f pos l whole =
    let w = word a b c d in
    let m1 = (cnt + 32) % cnt_mod wide in
    let len : length (done ++ (w ∷ [])) ≡ length done + 1 =
      omega (arith, length-append done (w ∷ [])) in
    let n' = n + 1 + 1 + 1 + 1 in
    let ih =
      load_words wide h s t (done ++ (w ∷ [])) (y ∷ junk) m1 n' (omega (arith, e, len))
        (omega (arith, f, cnt_mod_low wide (cnt + 32), e, whole)) (omega arith) (omega (arith, l))
        (omega (arith, len, whole)) in
    let count : (m1 + 8 * length s) % cnt_mod wide
        ≡ (cnt + 8 * suc (suc (suc (suc (length s))))) % cnt_mod wide =
      cnt_add wide (cnt + 32) (8 * length s) ∙ ap (λ k. k % cnt_mod wide) (omega arith) in
    load_word_bytes wide h done (y ∷ junk) (omega (arith, whole)) x cnt n a b c d (s ++ t) e f
    ∙ ap (λ (u : Ctx). sha1_update wide u (s ++ t))
        (end_chunk-short (ctx h (done ++ (w ∷ y ∷ junk)) m1 n') (omega (arith, e, whole)))
    ∙ simp (append_assoc, count) at ih

none_left : (wide : Bool) (s : Ctx) → (sha1_update wide s []).h ≡ compress_all 0 (words []) s.h
unfolding sha1_update compress_all words
none_left wide s = refl

length-words : (k : ℕ) (p : Bytes) → length p ≡ 4 * k → length (words p) ≡ k
unfolding words
length-words zero [] h = refl
length-words zero (a ∷ p) h = absurd (omega arith)
length-words (suc k) [] h = absurd (omega arith)
length-words (suc k) (a ∷ []) h = absurd (omega arith)
length-words (suc k) (a ∷ b ∷ []) h = absurd (omega arith)
length-words (suc k) (a ∷ b ∷ c ∷ []) h = absurd (omega arith)
length-words (suc k) (a ∷ b ∷ c ∷ d ∷ p) h = ap suc (length-words k p (omega arith))

words-append : (k : ℕ) (p q : Bytes) → length p ≡ 4 * k → words (p ++ q) ≡ words p ++ words q
unfolding words
words-append zero [] q h = refl
words-append zero (a ∷ p) q h = absurd (omega arith)
words-append (suc k) [] q h = absurd (omega arith)
words-append (suc k) (a ∷ []) q h = absurd (omega arith)
words-append (suc k) (a ∷ b ∷ []) q h = absurd (omega arith)
words-append (suc k) (a ∷ b ∷ c ∷ []) q h = absurd (omega arith)
words-append (suc k) (a ∷ b ∷ c ∷ d ∷ p) q h =
    ap (◌∷◌ (word a b c d)) (words-append k p q (omega arith))

take-append_self : (l m : List ℕ) (n : ℕ) → length l ≡ n → take n (l ++ m) ≡ l
take-append_self [] m zero h = refl
take-append_self [] m (suc n) h = absurd (omega arith)
take-append_self (x ∷ l) m zero h = absurd (omega arith)
take-append_self (x ∷ l) m (suc n) h = ap (◌∷◌ x) (take-append_self l m n (omega arith))

compress_all-block :
    (n : ℕ) (h : Vars) (p q : Bytes)
    → length p ≡ 64
    → compress_all (suc n) (words (p ++ q)) h ≡ compress_all n (words q) (compress h (words p))
unfolding compress_all
compress_all-block n h p q e =
    let l = length-words 16 p (omega (arith, e)) in
    rw
      (
        words-append 16 p q (omega (arith, e)),
        take-append_self (words p) (words q) 16 l,
        drop-append_self (words p) (words q) 16 l,
      )
      refl

-- Whole blocks, read from the start of a block, are compressed one after the other.
pub sha1_update-compress_all :
    (wide : Bool) (n : ℕ) (h : Vars) (chunk : List ℕ) (cnt : ℕ) (s : Bytes)
    → length chunk ≡ 16
    → cnt % 512 ≡ 0
    → length s ≡ 64 * n
    → (sha1_update wide (ctx h chunk cnt 0) s).h ≡ compress_all n (words s) h
sha1_update-compress_all wide zero h chunk cnt [] e f l = none_left wide (ctx h chunk cnt 0)
sha1_update-compress_all wide zero h chunk cnt (x ∷ s) e f l = absurd (omega arith)
sha1_update-compress_all wide (suc n) h chunk cnt s e f l =
    let p = take 64 s in
    let q = drop 64 s in
    let lp : length p ≡ 64 = omega (arith, length-take 64 s, l) in
    let lq : length q ≡ 64 * n = omega (arith, length-drop 64 s, l) in
    let m = (cnt + 8 * length p) % cnt_mod wide in
    let fm : m % 512 ≡ 0 = omega (arith, cnt_mod_low wide (cnt + 8 * length p), f, lp) in
    let lw = length-words 16 p (omega (arith, lp)) in
    let split : p ++ q ≡ s = take-append-drop 64 s in
    rw (← split) (
      ap (λ (u : Ctx). u.h)
        (load_words wide h p q [] chunk cnt 0 refl f (omega (arith, e)) (omega (arith, lp, e))
          (omega (arith, e)))
      ∙ sha1_update-compress_all wide n (compress h (words p)) (words p) m q lw fm lq
      ∙ sym (compress_all-block n h p q lp))
