-- ===== src/Sha1.antt =====
-- SHA-1, src/crypt/sha1.c, whose code src/passwd/passwd.c repeats with a narrower count of bits: `wide` says
-- which of the two it is. The arrays h[5] and v[5] are a record, data[16] and w[16] lists. A
-- `uint_least32_t` is taken to have 32 bits. No pointer is NULL.
pub mod Reference
pub mod Schedule
pub mod Stream
pub mod Correct
mod Tests
use boris.Prelude.{
  ℕ, zero, suc, ◌+◌, ◌-◌, ◌*◌, ◌/◌, ◌%◌, ◌^◌, Bool, true, false, List, [], ◌∷◌, ◌++◌, ◌==◌,
  if◌then◌else◌, ltb, get_or, set, replicate, Bytes, codes,
}
use Prim.Native.Nat.{bit_and, bit_or, bit_xor}

-- five words
pub record Vars : Type 0 where
  pub a : ℕ
  pub b : ℕ
  pub c : ℕ
  pub d : ℕ
  pub e : ℕ

abbrev pub vars : ℕ → ℕ → ℕ → ℕ → ℕ → Vars
vars a b c d e = record { a = a; b = b; c = c; d = d; e = e }

-- `struct sha1_ctx`; `chunk` is `data`
pub record Ctx : Type 0 where
  pub h : Vars
  pub chunk : List ℕ
  pub cnt : ℕ
  pub data_len : ℕ

abbrev pub ctx : Vars → List ℕ → ℕ → ℕ → Ctx
ctx h chunk cnt data_len = record { h = h; chunk = chunk; cnt = cnt; data_len = data_len }

-- the count has 64 bits in sha1.c and 32 in passwd.c
abbrev pub cnt_mod : Bool → ℕ
cnt_mod true = 2 ^ 64
cnt_mod false = 2 ^ 32

abbrev pub h_init : Vars
h_init = vars 0x67452301 0xefcdab89 0x98badcfe 0x10325476 0xc3d2e1f0

-- `sha1_init`
abbrev pub sha1_init : Ctx
sha1_init = ctx h_init (replicate 16 0) 0 0

-- `ROL32`
pub rol32 : ℕ → ℕ → ℕ
rol32 v b = bit_or (v * 2 ^ b % 2 ^ 32) (v / 2 ^ (32 - b))

-- `~v`
abbrev not32 : ℕ → ℕ
not32 v = 2 ^ 32 - 1 - v

round_f : ℕ → Vars → ℕ
round_f i v =
    if ltb i 20
    then bit_or (bit_and v.b v.c) (bit_and (not32 v.b) v.d)
    else if ltb i 40
    then bit_xor (bit_xor v.b v.c) v.d
    else if ltb i 60
    then bit_or (bit_or (bit_and v.b v.c) (bit_and v.b v.d)) (bit_and v.c v.d)
    else bit_xor (bit_xor v.b v.c) v.d

round_k : ℕ → ℕ
round_k i =
    if ltb i 20
    then 0x5a827999
    else if ltb i 40
    then 0x6ed9eba1
    else if ltb i 60
    then 0x8f1bbcdc
    else 0xca62c1d6

-- a round of `sha1_transform_chunk` with its word
pub round : ℕ → ℕ → Vars → Vars
unfolding rol32 round_f round_k
round i x v =
    vars ((rol32 v.a 5 + (round_f i v + v.e + round_k i + x)) % 2 ^ 32) v.a (rol32 v.b 30) v.c v.d

-- the word of a round, put into `w`
pub load_word : List ℕ → ℕ → List ℕ → List ℕ
unfolding rol32
load_word chunk i w =
    if ltb i 16
    then set w i (get_or chunk i 0)
    else set w (i % 16) (
        rol32
          (bit_xor (get_or w (i % 16) 0) (
            bit_xor (bit_xor (get_or w ((i % 16 + 13) % 16) 0) (get_or w ((i % 16 + 8) % 16) 0))
              (get_or w ((i % 16 + 2) % 16) 0)))
          1)

-- the last `left` rounds
unfoldable pub rounds : ℕ → ℕ → List ℕ → List ℕ → Vars → Vars
unfolding round load_word
rounds zero i chunk w v = v
rounds (suc left) i chunk w v =
    let w' = load_word chunk i w in rounds left (i + 1) chunk w' (round i (get_or w' (i % 16) 0) v)

abbrev pub add_vars : Vars → Vars → Vars
add_vars h v =
    vars ((h.a + v.a) % 2 ^ 32) ((h.b + v.b) % 2 ^ 32) ((h.c + v.c) % 2 ^ 32) ((h.d + v.d) % 2 ^ 32)
      ((h.e + v.e) % 2 ^ 32)

-- `sha1_transform_chunk`; all of `w` is written before it is read
pub sha1_transform_chunk : Ctx → Ctx
sha1_transform_chunk s = record s { h = add_vars s.h (rounds 80 0 s.chunk (replicate 16 0) s.h) }

-- the cases of the switch in `sha1_update`
abbrev pub word_with : ℕ → ℕ → ℕ → ℕ
word_with r old byte =
    if r == 0
    then byte * 2 ^ 24
    else if r == 1
    then bit_or old (byte * 2 ^ 16)
    else if r == 2
    then bit_or old (byte * 2 ^ 8)
    else bit_or old byte

pub load_byte : Bool → Ctx → ℕ → Ctx
load_byte wide s byte =
    ctx s.h
      (set s.chunk (s.data_len / 4)
        (word_with (s.cnt / 8 % 4) (get_or s.chunk (s.data_len / 4) 0) byte))
      ((s.cnt + 8) % cnt_mod wide) (s.data_len + 1)

pub end_chunk : Ctx → Ctx
unfolding sha1_transform_chunk
end_chunk s = if ltb s.data_len 64 then s else record (sha1_transform_chunk s) { data_len = 0 }

-- `sha1_update`
unfoldable pub sha1_update : Bool → Ctx → Bytes → Ctx
unfolding load_byte end_chunk
sha1_update wide s [] = s
sha1_update wide s (byte ∷ bytes) = sha1_update wide (end_chunk (load_byte wide s byte)) bytes

-- `while (ctx->cnt % 512 != 448)`, of 64 rounds at most
pub pad_zeros : ℕ → Bool → Ctx → Ctx
unfolding sha1_update
pad_zeros zero wide s = s
pad_zeros (suc fuel) wide s =
    let rest = pad_zeros fuel wide (sha1_update wide s (0 ∷ [])) in
    if s.cnt % 512 == 448 then s else rest

-- `lendata`
abbrev pub length_bytes : ℕ → Bytes
length_bytes cnt =
    (cnt / 2 ^ 56 % 256)
    ∷ (cnt / 2 ^ 48 % 256)
    ∷ (cnt / 2 ^ 40 % 256)
    ∷ (cnt / 2 ^ 32 % 256)
    ∷ (cnt / 2 ^ 24 % 256)
    ∷ (cnt / 2 ^ 16 % 256)
    ∷ (cnt / 2 ^ 8 % 256)
    ∷ (cnt % 256)
    ∷ []

-- `sha1_append_length`, given what `lendata` holds
pub append_with : Bool → Bytes → Ctx → Ctx
unfolding pad_zeros
append_with wide lendata s =
    sha1_update wide (pad_zeros 64 wide (sha1_update wide s (0x80 ∷ []))) lendata

pub sha1_append_length : Ctx → Ctx
unfolding append_with
sha1_append_length s = append_with true (length_bytes s.cnt) s

-- the four bytes of a word, big-endian, and the digest
abbrev word_bytes : ℕ → Bytes
word_bytes w = (w / 2 ^ 24 % 256) ∷ (w / 2 ^ 16 % 256) ∷ (w / 2 ^ 8 % 256) ∷ (w % 256) ∷ []

abbrev pub digest_of : Vars → Bytes
digest_of v =
    word_bytes v.a ++ (word_bytes v.b ++ (word_bytes v.c ++ (word_bytes v.d ++ word_bytes v.e)))

-- `sha1_final`: the digest, and the context that is left
unfoldable pub sha1_final : Ctx → Bytes × Ctx
unfolding sha1_append_length
sha1_final s = (digest_of (sha1_append_length s).h, sha1_init)

-- `sha1`
pub sha1 : Bytes → Bytes
unfolding sha1_final
sha1 s = (sha1_final (sha1_update true sha1_init s)).0
