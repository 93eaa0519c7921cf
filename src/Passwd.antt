-- ===== src/Passwd.antt =====
-- The password tool's library, src/passwd/passwd.c. Its SHA-1 is the code of Sha1 with a count of 32 bits. What
-- `rand` returns is an argument, a number for each byte of the salt.
pub mod Digest
mod Tests
use boris.Prelude.{ℕ, ◌+◌, ◌/◌, ◌%◌, ◌^◌, Bool, false, List, ◌∷◌, [], map, Bytes, bytes_eq}
use boris.Sha1.{Ctx, sha1_init, sha1_update, append_with, digest_of}

-- `struct password`
pub record Password : Type 0 where
  pub salt : Bytes
  pub digest : Bytes

-- `lendata`
abbrev pub lendata : ℕ → Bytes
lendata cnt =
    0
    ∷ 0
    ∷ 0
    ∷ 0
    ∷ (cnt / 2 ^ 24 % 256)
    ∷ (cnt / 2 ^ 16 % 256)
    ∷ (cnt / 2 ^ 8 % 256)
    ∷ (cnt % 256)
    ∷ []

-- `sha1_final`, of which only the digest is used
pub sha1_final : Ctx → Bytes
sha1_final s = digest_of (append_with false (lendata s.cnt) s).h

-- `gensalt`
unfoldable pub gensalt : List ℕ → Bytes
gensalt rands = map (λ r. r % 96 + 32) rands

-- `mkpass`
pub mkpass : Bytes → Bytes → Password
mkpass salt plaintext = record {
  salt = salt;
  digest = sha1_final (sha1_update false (sha1_update false sha1_init salt) plaintext);
}

-- `ckpass`
pub ckpass : Password → Password → Bool
ckpass p q = bytes_eq p.digest q.digest
