-- ===== src/Sha1/Correct.antt =====
-- The digest of sha1.c is that of the standard, however the message is handed over.
use boris.Prelude.{
  ℕ, zero, suc, ◌+◌, ◌*◌, ◌/◌, ◌%◌, ◌^◌, ◌<◌, ◌≡◌, ◌∙◌, sym, refl, ap, Bool, true, false, [], ◌∷◌,
  ◌++◌, ◌==◌, if◌then◌else◌, ltb, length, length-append, length-replicate, All, replicate, Bytes,
  arith,
}
use boris.Sha1.{
  Vars, Ctx, cnt_mod, h_init, load_byte, end_chunk, sha1_init, sha1_transform_chunk, sha1_update,
  pad_zeros, append_with, length_bytes, digest_of, sha1_final, sha1,
}
use boris.Sha1.Reference.{words, compress_all, zeros, sha1_digest}
use boris.Sha1.Stream.{sha1_update-append, cnt_mod_low, cnt_add, sha1_update-compress_all}

cnt-byte :
    (wide : Bool) (s : Ctx) (x : ℕ)
    → (end_chunk (load_byte wide s x)).cnt ≡ (s.cnt + 8) % cnt_mod wide
unfolding end_chunk load_byte sha1_transform_chunk
cnt-byte wide s x = cnt-end wide (load_byte wide s x)
  where
    cnt-end : (wide : Bool) (u : Ctx) → (end_chunk u).cnt ≡ u.cnt
    cnt-end wide u =
        elim (ltb u.data_len 64)
          as (λ b.
            (if b then u else record (sha1_transform_chunk u) { data_len = 0 }).cnt ≡ u.cnt) [
              | true ↦ refl
              | false ↦ refl
            ]

cnt_fits : (wide : Bool) (n : ℕ) → n < cnt_mod wide → n % cnt_mod wide ≡ n
cnt_fits true n h = omega arith
cnt_fits false n h = omega arith

cnt_pos : (wide : Bool) → 0 < cnt_mod wide
cnt_pos true = omega arith
cnt_pos false = omega arith

cnt_bound : (wide : Bool) (n : ℕ) → n % cnt_mod wide < cnt_mod wide
cnt_bound true n = omega arith
cnt_bound false n = omega arith

cnt_byte_fits :
    (wide : Bool) (s : Ctx) (x : ℕ) → (end_chunk (load_byte wide s x)).cnt < cnt_mod wide
cnt_byte_fits wide s x = rw (cnt-byte wide s x) (cnt_bound wide (s.cnt + 8))

pub cnt-sha1_update :
    (wide : Bool) (s : Ctx) (p : Bytes)
    → s.cnt < cnt_mod wide
    → (sha1_update wide s p).cnt ≡ (s.cnt + 8 * length p) % cnt_mod wide
unfolding sha1_update
cnt-sha1_update wide s [] h = sym (cnt_fits wide s.cnt h) ∙ ap (λ n. n % cnt_mod wide) (omega arith)
cnt-sha1_update wide s (x ∷ p) h =
    let ih = cnt-sha1_update wide (end_chunk (load_byte wide s x)) p (cnt_byte_fits wide s x) in
    ih
    ∙ ap (λ n. (n + 8 * length p) % cnt_mod wide) (cnt-byte wide s x)
    ∙ cnt_add wide (s.cnt + 8) (8 * length p)
    ∙ ap (λ n. n % cnt_mod wide) (omega arith)

-- The zeros that are still missing are put in.
pad_zeros_lem :
    (k fuel : ℕ) (wide : Bool) (s : Ctx)
    → k < fuel
    → fuel < 65
    → s.cnt < cnt_mod wide
    → (s.cnt + 8 * k) % 512 ≡ 448
    → pad_zeros fuel wide s ≡ sha1_update wide s (replicate k 0)
unfolding pad_zeros
pad_zeros_lem k zero wide s h small c e = absurd (omega arith)
pad_zeros_lem zero (suc fuel) wide s h small c e =
    let found : (s.cnt % 512 == 448) ≡ true = ground arith in rw found refl
pad_zeros_lem (suc k) (suc fuel) wide s h small c e =
    let more : (s.cnt % 512 == 448) ≡ false = ground arith in
    let s' = end_chunk (load_byte wide s 0) in
    let count : s'.cnt % 512 ≡ (s.cnt + 8) % 512 =
      ap (λ n. n % 512) (cnt-byte wide s 0) ∙ cnt_mod_low wide (s.cnt + 8) in
    rw more (
      pad_zeros_lem k fuel wide s' (omega arith) (omega arith) (cnt_byte_fits wide s 0)
        (omega (arith, count, e)))

append_with_lem :
    (wide : Bool) (s : Ctx) (k : ℕ) (lendata : Bytes)
    → k < 64
    → s.cnt < cnt_mod wide
    → (s.cnt + 8 + 8 * k) % 512 ≡ 448
    → append_with wide lendata s ≡ sha1_update wide s (0x80 ∷ (replicate k 0 ++ lendata))
unfolding append_with
append_with_lem wide s k lendata small c e =
    let s' = sha1_update wide s (0x80 ∷ []) in
    let count : s'.cnt ≡ (s.cnt + 8) % cnt_mod wide = cnt-sha1_update wide s (0x80 ∷ []) c in
    let low : s'.cnt % 512 ≡ (s.cnt + 8) % 512 =
      ap (λ n. n % 512) count ∙ cnt_mod_low wide (s.cnt + 8) in
    let fits : s'.cnt < cnt_mod wide = rw count (cnt_bound wide (s.cnt + 8)) in
    let padded = pad_zeros_lem k 64 wide s' small (omega arith) fits (omega (arith, low, e)) in
    ap (λ (u : Ctx). sha1_update wide u lendata) padded
    ∙ sym (sha1_update-append wide s' (replicate k 0) lendata)
    ∙ sym (sha1_update-append wide s (0x80 ∷ []) (replicate k 0 ++ lendata))

-- what both copies of the code compute, whatever they append
pub hash_of :
    (wide : Bool) (p lendata : Bytes)
    → length lendata ≡ 8
    → (append_with wide lendata (sha1_update wide sha1_init p)).h
      ≡ compress_all
          ((length p + zeros (length p) + 9) / 64)
          (words (p ++ (0x80 ∷ (replicate (zeros (length p)) 0 ++ lendata))))
          h_init
hash_of wide p lendata e =
    let n = length p in
    let k = zeros n in
    let tail = 0x80 ∷ (replicate k 0 ++ lendata) in
    let s = sha1_update wide sha1_init p in
    let start : 0 < cnt_mod wide = cnt_pos wide in
    let count : s.cnt ≡ (0 + 8 * n) % cnt_mod wide = cnt-sha1_update wide sha1_init p start in
    let low : s.cnt % 512 ≡ 8 * n % 512 =
      ap (λ n. n % 512) count ∙ cnt_mod_low wide (0 + 8 * n) ∙ omega arith in
    let fits : s.cnt < cnt_mod wide = rw count (cnt_bound wide (0 + 8 * n)) in
    let len : length (p ++ tail) ≡ 64 * ((n + k + 9) / 64) = omega (
      arith,
      length-append p tail,
      length-append (replicate k 0) lendata,
      length-replicate {A = ℕ} k 0,
      e,
    ) in
    ap (λ (u : Ctx). u.h)
      (append_with_lem wide s k lendata (omega arith) fits (omega (arith, low))
        ∙ sym (sha1_update-append wide sha1_init p tail))
    ∙ sha1_update-compress_all wide ((n + k + 9) / 64) h_init (replicate 16 0) 0 (p ++ tail) refl
        refl len

-- `sha1` gives the digest that the standard defines.
pub sha1-sha1_digest : (s : Bytes) → sha1 s ≡ sha1_digest s
unfolding sha1 sha1_digest
sha1-sha1_digest s =
    let count : (sha1_update true sha1_init s).cnt ≡ 8 * length s % 2 ^ 64 =
      cnt-sha1_update true sha1_init s (omega arith) ∙ omega arith in
    ap digest_of (
      ap (λ n. (append_with true (length_bytes n) (sha1_update true sha1_init s)).h) count
      ∙ hash_of true s (length_bytes (8 * length s % 2 ^ 64)) refl)

pub sha1_two :
    (p q : Bytes)
    → (sha1_final (sha1_update true (sha1_update true sha1_init p) q)).0 ≡ sha1_digest (p ++ q)
unfolding sha1
sha1_two p q =
    ap (λ (s : Ctx). (sha1_final s).0) (sym (sha1_update-append true sha1_init p q))
    ∙ sha1-sha1_digest (p ++ q)

digest_of_bytes : (v : Vars) → All (λ c. c < 256) (digest_of v)
digest_of_bytes v = omega arith

pub sha1_digest_bytes : (s : Bytes) → All (λ c. c < 256) (sha1_digest s)
unfolding sha1_digest
sha1_digest_bytes s = digest_of_bytes _

pub length-sha1_digest : (s : Bytes) → length (sha1_digest s) ≡ 20
unfolding sha1_digest
length-sha1_digest s = refl
