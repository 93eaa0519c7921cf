-- ===== src/Sha1Crypt.antt =====
-- Salted passwords, src/crypt/sha1crypt.c, on top of Sha1 and Base64. A string is its bytes in front of the
-- NUL. What `rand` returns is an argument, a number for each byte of the salt. The result 0 of
-- `sha1crypt_create_password` is `none`; else the result is what it leaves in `buf`.
pub mod Check
mod Tests
use boris.Prelude.{
  ℕ, ◌+◌, ◌-◌, ◌%◌, Bool, true, false, not, ◌||◌, Option, none, some, List, ◌++◌, map,
  if◌then◌else◌, ltb, leb, length, take, drop, Bytes, codes, bytes_eq,
}
use boris.Base64.{Decoded, failed, undefined, wrote, base64_encode, base64_decode}
use boris.Sha1.{sha1_init, sha1_update, sha1_final}

-- `SHA1PASSWD_MAGIC`
abbrev pub magic : Bytes
magic = codes "{SSHA}"

-- `sha1crypt_gensalt`
unfoldable pub sha1crypt_gensalt : List ℕ → Bytes
sha1crypt_gensalt rands = map (λ r. r % 96 + 32) rands

-- `snprintf(buf, max, "%s%s", SHA1PASSWD_MAGIC, tmp)`
abbrev pub print_hash : ℕ → Option Bytes → Option Bytes
print_hash max none = none
print_hash max (some tmp) = some (take (max - 1) (magic ++ tmp))

-- `sha1crypt_create_password`
pub sha1crypt_create_password : ℕ → Bytes → Bytes → Option Bytes
sha1crypt_create_password max plaintext salt =
    if ltb 16 (length salt)
    then none
    else let md = (sha1_final (sha1_update true (sha1_update true sha1_init salt) plaintext)).0 in
      print_hash max (base64_encode (md ++ salt) 49)

-- `sha1crypt_makepass`
unfoldable pub sha1crypt_makepass : ℕ → List ℕ → Bytes → Option Bytes
sha1crypt_makepass max rands plaintext =
    sha1crypt_create_password max plaintext (sha1crypt_gensalt rands)

-- the comparison at the end of `sha1crypt_checkpass`
abbrev pub same_hash : Bytes → Option Bytes → Bool
same_hash crypttext none = false
same_hash crypttext (some tmp) = bytes_eq tmp crypttext

-- what is decoded: the digest, and the salt behind it
pub check_decoded : Bytes → Bytes → Decoded → Option Bool
check_decoded crypttext plaintext failed = some false
check_decoded crypttext plaintext undefined = none
check_decoded crypttext plaintext (wrote md) =
    if ltb (length md) 20
    then some false
    else some (same_hash crypttext (sha1crypt_create_password 55 plaintext (drop 20 md)))

-- `sha1crypt_checkpass`; `none` for what C leaves undefined
pub sha1crypt_checkpass : Bytes → Bytes → Option Bool
unfolding check_decoded
sha1crypt_checkpass crypttext plaintext =
    if leb (length crypttext) 6 || not (bytes_eq (take 6 crypttext) magic)
    then some false
    else check_decoded crypttext plaintext (base64_decode (drop 6 crypttext) 36)
