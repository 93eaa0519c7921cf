-- ===== src/Base64.antt =====
-- src/crypt/base64.c. `v` is the 32-bit word and `rem` how many of its low bits are still to be written, `io`
-- how much has been written and `out_len` the room. A failure for want of room, -1, of the encoder is `none`;
-- else the result is what is written in order, less the NUL, which is the text in the buffer and its length
-- the result as long as `io` does not wrap. The input is shorter than 2 ^ 32 bytes, so that `ii` does
-- not wrap, and the table of the decoder gets its memory.
pub mod Bits
pub mod RoundTrip
pub mod Inverse
pub mod Range
mod Tests
use boris.Prelude.{
  ℕ, zero, suc, ◌+◌, ◌-◌, ◌*◌, ◌/◌, ◌%◌, ◌^◌, Bool, true, false, Option, none, some, List, [], ◌∷◌,
  ◌==◌, if◌then◌else◌, ltb, leb, get_or, Bytes, codes, isspace,
}

-- `base64enc_tab`
abbrev pub base64enc_tab : Bytes
base64enc_tab = codes "ABCDEFGHIJKLMNOPQRSTUVWXYZabcdefghijklmnopqrstuvwxyz0123456789+/"

-- `out[io++] = c`, with its test
abbrev pub put : ℕ → ℕ → ℕ → (ℕ → Option Bytes) → Option Bytes
put out_len c io next =
    if ltb io out_len
    then elim (next ((io + 1) % 2 ^ 32)) [ none ↦ none | some out ↦ some (c ∷ out) ]
    else none

-- the padding, and the NUL; `left` is how much padding is missing
pad : ℕ → ℕ → ℕ → Option Bytes
pad zero out_len io = if ltb io out_len then some [] else none
pad (suc left) out_len io = put out_len b'=' io (pad left out_len)

finish : ℕ → ℕ → ℕ → ℕ → Option Bytes
finish out_len v rem io =
    if rem == 0
    then pad ((4 - io % 4) % 4) out_len io
    else put out_len (get_or base64enc_tab (v * 2 ^ (6 - rem) % 2 ^ 32 % 64) 0) io
        (λ io'. pad ((4 - io' % 4) % 4) out_len io')

-- `while (rem >= 6)`, of two rounds at most, since `rem` is below 14
drain : ℕ → ℕ → (ℕ → ℕ → ℕ → Option Bytes) → ℕ → ℕ → ℕ → Option Bytes
drain zero out_len next v rem io = next v rem io
drain (suc rounds) out_len next v rem io =
    let rest =
      put out_len (get_or base64enc_tab (v / 2 ^ (rem - 6) % 64) 0) io
        (drain rounds out_len next v (rem - 6)) in
    if leb 6 rem then rest else next v rem io

pub encode_loop : ℕ → Bytes → ℕ → ℕ → ℕ → Option Bytes
unfolding drain finish pad
encode_loop out_len [] v rem io = finish out_len v rem io
encode_loop out_len (ch ∷ s) v rem io =
    drain 2 out_len (encode_loop out_len s) ((v * 256 + ch) % 2 ^ 32) (rem + 8) io

-- `base64_encode`
unfoldable pub base64_encode : Bytes → ℕ → Option Bytes
unfolding encode_loop
base64_encode s out_len = encode_loop out_len s 0 0 0

-- `base64dec_tab`: the place of a byte in the other table; 255 is `none`
pub index_of : ℕ → Bytes → Option ℕ
index_of c [] = none
index_of c (d ∷ tab) =
    if c == d then some 0 else elim (index_of c tab) [ none ↦ none | some i ↦ some (suc i) ]

-- what the decoder comes to: -1, something that C leaves undefined, or the bytes that are written
pub data Decoded : Type 0 where
  failed : Decoded
  undefined : Decoded
  wrote : Bytes → Decoded

-- `out[io++] = c` of the decoder, with its test
abbrev pub emit_byte : ℕ → ℕ → ℕ → (ℕ → Decoded) → Decoded
emit_byte out_len c io next =
    if ltb io out_len
    then elim (next ((io + 1) % 2 ^ 32)) [
      | failed ↦ failed
      | undefined ↦ undefined
      | wrote out ↦ wrote (c ∷ out)
    ]
    else failed

-- the bits left behind the loop
decode_end : ℕ → ℕ → ℕ → ℕ → Decoded
decode_end out_len v rem io =
    if leb 8 rem then emit_byte out_len (v / 2 ^ (rem - 8) % 256) io (λ io'. wrote []) else wrote []

-- a byte that stands for six bits
decode_six : ℕ → (ℕ → ℕ → ℕ → Decoded) → ℕ → ℕ → ℕ → ℕ → Decoded
decode_six out_len next six v rem io =
    let v' = (v * 64 + six) % 2 ^ 32 in
    if leb 8 (rem + 6)
    then emit_byte out_len (v' / 2 ^ (rem + 6 - 8) % 256) io (next v' (rem + 6 - 8))
    else next v' (rem + 6) io

-- a `char` above 127 is negative, and the index that it is cast to is far outside the table
decode_byte : ℕ → (ℕ → ℕ → ℕ → Decoded) → ℕ → ℕ → ℕ → ℕ → Decoded
unfolding decode_six decode_end index_of
decode_byte out_len next c v rem io =
    if leb 128 c
    then undefined
    else if isspace c
    then next v rem io
    else if c == b'='
    then decode_end out_len v rem io
    else elim (index_of c base64enc_tab) [
      | none ↦ decode_end out_len v rem io
      | some six ↦ decode_six out_len next six v rem io
    ]

pub decode_loop : ℕ → Bytes → ℕ → ℕ → ℕ → Decoded
unfolding decode_byte
decode_loop out_len [] v rem io = decode_end out_len v rem io
decode_loop out_len (c ∷ s) v rem io = decode_byte out_len (decode_loop out_len s) c v rem io

-- `base64_decode`
unfoldable pub base64_decode : Bytes → ℕ → Decoded
unfolding decode_loop
base64_decode s out_len = decode_loop out_len s 0 0 0
