-- ===== src/Passwd/Digest.antt =====
-- The tool's own SHA-1 and that of sha1.c.
use boris.Prelude.{
  ℕ, ◌+◌, ◌*◌, ◌/◌, ◌%◌, ◌^◌, ◌<◌, ◌≡◌, ◌∙◌, sym, refl, ap, false, ◌++◌, length, length-append,
  Bytes, arith,
}
use boris.Sha1.{sha1_init, sha1_update, append_with, digest_of, length_bytes, sha1}
use boris.Sha1.Reference.{sha1_digest}
use boris.Sha1.Stream.{sha1_update-append}
use boris.Sha1.Correct.{hash_of, cnt-sha1_update, sha1-sha1_digest}
use boris.Passwd.{lendata, sha1_final, mkpass}

-- a count below 2 ^ 32 has the same eight bytes in both
lendata-length_bytes : (n : ℕ) → n < 2 ^ 29 → lendata (8 * n) ≡ length_bytes (8 * n % 2 ^ 64)
lendata-length_bytes n h =
    let e : 8 * n % 2 ^ 64 ≡ 8 * n = omega arith in
    let z56 : 8 * n / 2 ^ 56 % 256 ≡ 0 = omega arith in
    let z48 : 8 * n / 2 ^ 48 % 256 ≡ 0 = omega arith in
    let z40 : 8 * n / 2 ^ 40 % 256 ≡ 0 = omega arith in
    let z32 : 8 * n / 2 ^ 32 % 256 ≡ 0 = omega arith in ground (arith, e, z56, z48, z40, z32)

sha1_final_lem :
    (s : Bytes) → length s < 2 ^ 29 → sha1_final (sha1_update false sha1_init s) ≡ sha1_digest s
unfolding sha1_final sha1_digest
sha1_final_lem s h =
    let count : (sha1_update false sha1_init s).cnt ≡ 8 * length s =
      cnt-sha1_update false sha1_init s (omega arith) ∙ omega (arith, h) in
    ap digest_of (
      ap (λ n. (append_with false (lendata n) (sha1_update false sha1_init s)).h) count
      ∙ ap (λ l. (append_with false l (sha1_update false sha1_init s)).h)
          (lendata-length_bytes (length s) h)
      ∙ hash_of false s (length_bytes (8 * length s % 2 ^ 64)) refl)

-- The digest that `mkpass` makes with its own SHA-1, which counts bits in 32 bits, is what `sha1` of
-- sha1.c gives for the salt and the password, as long as both together are shorter than 2 ^ 29 bytes.
pub mkpass-sha1 :
    (salt plaintext : Bytes)
    → length salt + length plaintext < 2 ^ 29
    → (mkpass salt plaintext).digest ≡ sha1 (salt ++ plaintext)
unfolding mkpass
mkpass-sha1 salt plaintext h =
    ap sha1_final (sym (sha1_update-append false sha1_init salt plaintext))
    ∙ sha1_final_lem (salt ++ plaintext) (omega (arith, length-append salt plaintext, h))
    ∙ sym (sha1-sha1_digest (salt ++ plaintext))
