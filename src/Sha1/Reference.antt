-- ===== src/Sha1/Reference.antt =====
-- SHA-1 as the standard defines it: the message is padded, cut into blocks of sixteen words, and each block
-- gives eighty words for eighty rounds.
use boris.Prelude.{
  ℕ, zero, suc, ◌+◌, ◌-◌, ◌*◌, ◌/◌, ◌%◌, ◌^◌, List, [], ◌∷◌, ◌++◌, length, get_or, take, drop,
  replicate, Bytes,
}
use Prim.Native.Nat.{bit_or, bit_xor}
use boris.Sha1.{Vars, rol32, round, add_vars, h_init, digest_of, length_bytes}

-- the word behind the last sixteen
abbrev pub next_word : List ℕ → ℕ
next_word w =
    rol32 (bit_xor (get_or w 0 0) (bit_xor (bit_xor (get_or w 13 0) (get_or w 8 0)) (get_or w 2 0)))
      1

-- the words behind the last sixteen
unfoldable pub expand : ℕ → List ℕ → List ℕ
expand zero w = []
expand (suc n) w = next_word w ∷ expand n (drop 1 w ++ next_word w ∷ [])

-- the rounds from `i` on
unfoldable pub all_rounds : ℕ → List ℕ → Vars → Vars
unfolding round
all_rounds i [] v = v
all_rounds i (x ∷ words) v = all_rounds (i + 1) words (round i x v)

unfoldable pub compress : Vars → List ℕ → Vars
compress h block = add_vars h (all_rounds 0 (block ++ expand 64 block) h)

abbrev pub word : ℕ → ℕ → ℕ → ℕ → ℕ
word a b c d = bit_or (bit_or (bit_or (a * 2 ^ 24) (b * 2 ^ 16)) (c * 2 ^ 8)) d

-- bytes as words, the most significant byte first
unfoldable pub words : Bytes → List ℕ
words [] = []
words (a ∷ []) = []
words (a ∷ b ∷ []) = []
words (a ∷ b ∷ c ∷ []) = []
words (a ∷ b ∷ c ∷ d ∷ s) = word a b c d ∷ words s

unfoldable pub compress_all : ℕ → List ℕ → Vars → Vars
unfolding compress
compress_all zero ws h = h
compress_all (suc blocks) ws h = compress_all blocks (drop 16 ws) (compress h (take 16 ws))

-- how many zeros make the message, the 1 bit and the length a multiple of 64 bytes
abbrev pub zeros : ℕ → ℕ
zeros n = (119 - n % 64) % 64

abbrev pub padding : ℕ → Bytes
padding n = 0x80 ∷ (replicate (zeros n) 0 ++ length_bytes (8 * n % 2 ^ 64))

-- the digest of a message
unfoldable pub sha1_digest : Bytes → Bytes
unfolding words compress_all
sha1_digest s =
    digest_of (
      compress_all ((length s + zeros (length s) + 9) / 64) (words (s ++ padding (length s)))
        h_init)
