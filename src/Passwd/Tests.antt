-- ===== src/Passwd/Tests.antt =====
-- The password tool at work.
use boris.Prelude.{◌≡◌, refl, [], ◌∷◌, ◌++◌, Bytes, codes, arith}
use boris.Sha1.{sha1}
use boris.Passwd.{gensalt, mkpass}
use boris.Passwd.Digest.{mkpass-sha1}

abbrev salt : Bytes
salt = codes "salt1234"

salt_made : gensalt (19 ∷ 96 ∷ 191 ∷ []) ≡ codes "3 \u{7f}"
unfolding gensalt
salt_made = refl

mkpass-sha1_example : (mkpass salt (codes "sword")).digest ≡ sha1 (salt ++ codes "sword")
mkpass-sha1_example = mkpass-sha1 salt (codes "sword") (omega arith)
