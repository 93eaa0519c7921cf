-- ===== src/Base64/Tests.antt =====
-- Base64 at work.
use boris.Prelude.{◌+◌, ◌*◌, ◌/◌, ◌<◌, ◌≡◌, refl, some, none, length, codes, All, Bytes, arith}
use boris.Base64.{wrote, base64_encode, base64_decode}
use boris.Base64.Inverse.{base64_decode-base64_encode}

encoded : base64_encode (codes "light w") 100 ≡ some (codes "bGlnaHQgdw==")
unfolding base64_encode
encoded = refl

no_room : base64_encode (codes "abc") 4 ≡ none
unfolding base64_encode
no_room = refl

decoded : base64_decode (codes "bGln aHQgdw==") 100 ≡ wrote (codes "light w")
unfolding base64_decode
decoded = refl

wizard_bytes : All (λ c. c < 256) (codes "wizard")
wizard_bytes = omega arith

base64_decode-base64_encode_example :
    (t : Bytes) × (base64_encode (codes "wizard") 9 ≡ some t)
    × (length t ≡ 4 * ((length (codes "wizard") + 2) / 3))
    × (base64_decode t 100 ≡ wrote (codes "wizard"))
base64_decode-base64_encode_example =
    base64_decode-base64_encode (codes "wizard") 9 100 wizard_bytes (omega arith) (omega arith)
      (omega arith)

-- a prefix of the text is read as far as it goes, and a character of no six bits ends it
decoded_prefix : base64_decode (codes "bGln*AHQ") 100 ≡ wrote (codes "lig")
unfolding base64_decode
decoded_prefix = refl
