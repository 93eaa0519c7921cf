-- ===== src/Sha1Crypt/Check.antt =====
-- Which password texts `sha1crypt_checkpass` accepts.
use boris.Prelude.{
  ℕ, zero, suc, ◌+◌, ◌-◌, ◌*◌, ◌/◌, ◌≤◌, ◌<◌, ◌≡◌, ◌↔◌, ◌∙◌, sym, refl, ap, Bool-cases, inl, inr,
  true, false, not, ◌||◌, some, List, [], ◌∷◌, ◌++◌, ltb, leb, length, length-append, take,
  take_all, drop, drop-append_self, length-drop, All, All-append, Bytes, bytes_eq, bytes_eq_refl,
  bytes_eq_sound, arith,
}
use boris.Base64.{Decoded, failed, undefined, wrote, base64_encode, base64_decode}
use boris.Base64.Inverse.{base64_decode-base64_encode}
use boris.Base64.Range.{base64_decode-Fits}
use boris.Sha1.Reference.{sha1_digest}
use boris.Sha1.Correct.{sha1_two, sha1_digest_bytes, length-sha1_digest}
use boris.Sha1Crypt.{
  magic, sha1crypt_gensalt, sha1crypt_create_password, sha1crypt_makepass, check_decoded,
  sha1crypt_checkpass,
}

-- The text of a password with this salt: behind the magic, the digest of the salt and the password and
-- then the salt, in base64.
pub record IsHash (salt plaintext crypttext : Bytes) : Type 0 where
  pub bytes : All (λ c. c < 256) salt
  pub short : length salt ≤ 16
  pub text : Bytes
  pub encoded : base64_encode (sha1_digest (salt ++ plaintext) ++ salt) 49 ≡ some text
  pub whole : crypttext ≡ magic ++ text

All-drop : (P : ℕ → Type 0) (n : ℕ) (l : Bytes) → All P l → All P (drop n l)
All-drop P zero l h = h
All-drop P (suc n) [] h = h
All-drop P (suc n) (x ∷ l) h = All-drop P n l h.1

-- what the digest and the salt are encoded to
module _ (salt plaintext : Bytes) (bytes : All (λ c. c < 256) salt) (short : length salt ≤ 16) where
  encoded_text :
      (t : Bytes) × (base64_encode (sha1_digest (salt ++ plaintext) ++ salt) 49 ≡ some t)
      × (length t ≡ 4 * ((length (sha1_digest (salt ++ plaintext) ++ salt) + 2) / 3))
      × (base64_decode t 36 ≡ wrote (sha1_digest (salt ++ plaintext) ++ salt))
  encoded_text =
      let md = sha1_digest (salt ++ plaintext) in
      let n : length (md ++ salt) ≡ 20 + length salt =
        length-append md salt ∙ omega (arith, length-sha1_digest (salt ++ plaintext)) in
      base64_decode-base64_encode (md ++ salt) 49 36
        (All-append (λ c. c < 256) md salt (sha1_digest_bytes (salt ++ plaintext)) bytes)
        (omega (arith, n, short)) (omega (arith, n, short)) (omega (arith, n, short))

  create_password_lem :
      (max : ℕ) (t : Bytes)
      → base64_encode (sha1_digest (salt ++ plaintext) ++ salt) 49 ≡ some t
      → 6 + length t < max
      → sha1crypt_create_password max plaintext salt ≡ some (magic ++ t)
  unfolding sha1crypt_create_password
  create_password_lem max t e room =
      let fits : ltb 16 (length salt) ≡ false = ground (arith, short) in
      rw (fits, sha1_two salt plaintext, e)
        (ap (λ (u : Bytes). some u) (take_all (max - 1) (magic ++ t) (omega (arith, room))))

length-encoded :
    (salt plaintext : Bytes) (n : ℕ)
    → n ≡ 4 * ((length (sha1_digest (salt ++ plaintext) ++ salt) + 2) / 3)
    → n ≡ 4 * ((22 + length salt) / 3)
length-encoded salt plaintext n e =
    let md = sha1_digest (salt ++ plaintext) in
    omega (arith, e, length-append md salt, length-sha1_digest (salt ++ plaintext))

-- what was decoded gives the salt
decoded_sound :
    (crypttext plaintext : Bytes) (decoded : Decoded)
    → base64_decode (drop 6 crypttext) 36 ≡ decoded
    → check_decoded crypttext plaintext decoded ≡ some true
    → (salt : Bytes) × IsHash salt plaintext crypttext
unfolding check_decoded
decoded_sound crypttext plaintext failed e h = absurd (cc)
decoded_sound crypttext plaintext undefined e h = absurd (cc)
decoded_sound crypttext plaintext (wrote md) e h = elim (Bool-cases (ltb (length md) 20)) [
  | inl few ↦ let bad : some false ≡ some true = rw few at h in absurd (cc)
  | inr enough ↦
      let fits = base64_decode-Fits (drop 6 crypttext) 36 md (omega arith) e in
      let salt = drop 20 md in
      let bytes = All-drop (λ c. c < 256) 20 md fits.0 in
      let short : length salt ≤ 16 = omega (arith, length-drop 20 md, fits.1) in
      let (t, enc, len, dec) = encoded_text salt plaintext bytes short in
      let made =
        create_password_lem salt plaintext bytes short 55 t enc
          (omega (arith, length-encoded salt plaintext (length t) len, short)) in
      let checked : some (bytes_eq (magic ++ t) crypttext) ≡ some true = rw (enough, made) at h in
      let same : bytes_eq (magic ++ t) crypttext ≡ true = cc in
      (
        salt,
        record {
          bytes = bytes;
          short = short;
          text = t;
          encoded = enc;
          whole = sym (bytes_eq_sound (magic ++ t) crypttext same);
        },
      )
]

checked_sound :
    (crypttext plaintext : Bytes)
    → sha1crypt_checkpass crypttext plaintext ≡ some true
    → (salt : Bytes) × IsHash salt plaintext crypttext
unfolding sha1crypt_checkpass
checked_sound crypttext plaintext h =
    elim (Bool-cases (leb (length crypttext) 6 || not (bytes_eq (take 6 crypttext) magic))) [
      | inl other ↦ let bad : some false ≡ some true = rw other at h in absurd (cc)
      | inr ssha ↦
          decoded_sound crypttext plaintext (base64_decode (drop 6 crypttext) 36) refl
            (rw ssha at h)
    ]

accepted :
    (salt plaintext t : Bytes)
    → All (λ c. c < 256) salt
    → length salt ≤ 16
    → base64_encode (sha1_digest (salt ++ plaintext) ++ salt) 49 ≡ some t
    → sha1crypt_checkpass (magic ++ t) plaintext ≡ some true
unfolding sha1crypt_checkpass check_decoded bytes_eq
accepted salt plaintext t bytes short e =
    let md = sha1_digest (salt ++ plaintext) in
    let (t', enc, len, dec) = encoded_text salt plaintext bytes short in
    let same : t' ≡ t = cc in
    let long = length-encoded salt plaintext (length t') len in
    let read : base64_decode t 36 ≡ wrote (md ++ salt) = rw same at dec in
    let some_text : leb (length (magic ++ t)) 6 ≡ false = ground (arith, ap length same, long) in
    let enough : ltb (length (md ++ salt)) 20 ≡ false =
      ground (arith, length-append md salt, length-sha1_digest (salt ++ plaintext)) in
    let made =
      create_password_lem salt plaintext bytes short 55 t e
        (omega (arith, ap length same, long, short)) in
    let left = drop-append_self md salt 20 (length-sha1_digest (salt ++ plaintext)) in
    rw (some_text, read, enough, left, made) (ap (λ b. some b) (bytes_eq_refl (magic ++ t)))

hash_accepted :
    (salt plaintext crypttext : Bytes)
    → IsHash salt plaintext crypttext
    → sha1crypt_checkpass crypttext plaintext ≡ some true
hash_accepted salt plaintext crypttext r =
    rw r.whole (accepted salt plaintext r.text r.bytes r.short r.encoded)

-- A text is accepted, without anything that C leaves undefined on the way, exactly when it is the text of
-- that password with some salt.
pub sha1crypt_checkpass-IsHash :
    (crypttext plaintext : Bytes)
    → sha1crypt_checkpass crypttext plaintext ≡ some true
      ↔ (salt : Bytes) × IsHash salt plaintext crypttext
unfolding sha1crypt_checkpass
sha1crypt_checkpass-IsHash crypttext plaintext =
    (checked_sound crypttext plaintext, λ found. hash_accepted found.0 plaintext crypttext found.1)

gensalt_bytes : (rands : List ℕ) → All (λ c. c < 256) (sha1crypt_gensalt rands)
unfolding sha1crypt_gensalt
gensalt_bytes [] = tt
gensalt_bytes (r ∷ rands) = (omega arith, gensalt_bytes rands)

length-gensalt : (rands : List ℕ) → length (sha1crypt_gensalt rands) ≡ length rands
unfolding sha1crypt_gensalt
length-gensalt [] = refl
length-gensalt (r ∷ rands) = ap suc (length-gensalt rands)

-- What `sha1crypt_makepass` writes into a buffer of more than 42 bytes, `sha1crypt_checkpass` accepts
-- with the same password.
pub checkpass-makepass :
    (max : ℕ) (rands : List ℕ) (plaintext : Bytes)
    → length rands ≡ 6
    → 42 < max
    → (crypttext : Bytes) × (sha1crypt_makepass max rands plaintext ≡ some crypttext)
      × (length crypttext ≡ 42)
      × (sha1crypt_checkpass crypttext plaintext ≡ some true)
unfolding sha1crypt_makepass
checkpass-makepass max rands plaintext six room =
    let salt = sha1crypt_gensalt rands in
    let bytes = gensalt_bytes rands in
    let n : length salt ≡ 6 = length-gensalt rands ∙ six in
    let short : length salt ≤ 16 = omega (arith, n) in
    let (t, enc, len, dec) = encoded_text salt plaintext bytes short in
    let long : length t ≡ 36 = omega (arith, length-encoded salt plaintext (length t) len, n) in
    (
      magic ++ t,
      create_password_lem salt plaintext bytes short max t enc (omega (arith, long, room)),
      omega (arith, long),
      accepted salt plaintext t bytes short enc,
    )
