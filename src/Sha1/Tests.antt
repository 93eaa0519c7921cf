-- ===== src/Sha1/Tests.antt =====
-- SHA-1 at work: the test of sha1.c.
use boris.Prelude.{◌≡◌, refl, ◌∷◌, [], codes, Bytes}
use boris.Sha1.{sha1, rounds}
use boris.Sha1.Correct.{sha1-sha1_digest}
use boris.Sha1.Reference.{sha1_digest, expand, all_rounds}

abbrev fox : Bytes
fox = codes "The quick brown fox jumps over the lazy dog"

abbrev fox_digest : Bytes
fox_digest =
    0x2f ∷ 0xd4 ∷ 0xe1 ∷ 0xc6 ∷ 0x7a ∷ 0x2d ∷ 0x28 ∷ 0xfc ∷ 0xed ∷ 0x84 ∷ 0x9e ∷ 0xe1 ∷ 0xbb ∷ 0x76
    ∷ 0xe7 ∷ 0x39 ∷ 0x1b ∷ 0x93 ∷ 0xeb ∷ 0x12 ∷ []

fox_hashed : sha1 fox ≡ fox_digest
unfolding sha1 rounds
fox_hashed = refl

fox_by_reference : sha1_digest fox ≡ fox_digest
unfolding sha1_digest expand all_rounds
fox_by_reference = refl

sha1-sha1_digest_example : sha1 fox ≡ sha1_digest fox
sha1-sha1_digest_example = sha1-sha1_digest fox
