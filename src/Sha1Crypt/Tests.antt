-- ===== src/Sha1Crypt/Tests.antt =====
-- Password texts: the examples of sha1crypt_test.
use boris.Prelude.{
  ℕ, ◌≡◌, ◌↔◌, refl, true, false, some, List, [], ◌∷◌, length, Bytes, codes, bytes_eq, arith,
}
use boris.Base64.{base64_encode, base64_decode}
use boris.Sha1.{sha1_final, sha1_update, rounds}
use boris.Sha1Crypt.{sha1crypt_makepass, sha1crypt_checkpass, sha1crypt_create_password}
use boris.Sha1Crypt.Check.{IsHash, sha1crypt_checkpass-IsHash, checkpass-makepass}

abbrev secret_hash : Bytes
secret_hash = codes "{SSHA}2gDsLm/57U00KyShbiYsgvPIsQtzYWx0"

secret_accepted : sha1crypt_checkpass secret_hash (codes "secret") ≡ some true
unfolding sha1crypt_checkpass sha1crypt_create_password base64_encode base64_decode sha1_final
    sha1_update rounds bytes_eq
secret_accepted = refl

other_refused : sha1crypt_checkpass secret_hash (codes "secreT") ≡ some false
unfolding sha1crypt_checkpass sha1crypt_create_password base64_encode base64_decode sha1_final
    sha1_update rounds bytes_eq
other_refused = refl

sha1crypt_checkpass-IsHash_example :
    sha1crypt_checkpass secret_hash (codes "secret") ≡ some true
    ↔ (salt : Bytes) × IsHash salt (codes "secret") secret_hash
sha1crypt_checkpass-IsHash_example = sha1crypt_checkpass-IsHash secret_hash (codes "secret")

abbrev rands : List ℕ
rands = 1804289383 ∷ 846930886 ∷ 1681692777 ∷ 1714636915 ∷ 1957747793 ∷ 424238335 ∷ []

checkpass-makepass_example :
    (crypttext : Bytes) × (sha1crypt_makepass 55 rands (codes "abcdef") ≡ some crypttext)
    × (length crypttext ≡ 42)
    × (sha1crypt_checkpass crypttext (codes "abcdef") ≡ some true)
checkpass-makepass_example = checkpass-makepass 55 rands (codes "abcdef") refl (omega arith)
