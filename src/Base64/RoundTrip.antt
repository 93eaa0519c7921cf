-- ===== src/Base64/RoundTrip.antt =====
-- What `base64_encode` writes, `base64_decode` reads.
use boris.Prelude.{
  ℕ, zero, suc, ◌+◌, ◌-◌, ◌*◌, ◌/◌, ◌%◌, ◌^◌, ◌≤◌, ◌<◌, ◌≡◌, ◌∙◌, refl, ap, Bool-cases, inl, inr,
  Bool, true, false, not, ◌&&◌, if◌then◌else◌, Option, none, some, [], ◌∷◌, ◌==◌, get_or, replicate,
  Bytes, isspace, ltb, leb, arith,
}
use boris.Base64.{
  Decoded, wrote, emit_byte, base64enc_tab, put, pad, finish, drain, encode_loop, index_of,
  decode_end, decode_six, decode_byte, decode_loop,
}
use boris.Base64.Bits.{with_byte}

-- the digit for six bits
abbrev pub digit : ℕ → ℕ
digit n = get_or base64enc_tab n 0

-- whether a test holds for every number up to the last
passes : (ℕ → Bool) → ℕ → Bool
passes test zero = test zero
passes test (suc last) = if test (suc last) then passes test last else false

passes-each : (test : ℕ → Bool) (last n : ℕ) → n ≤ last → passes test last ≡ true → test n ≡ true
unfolding passes
passes-each test zero n bound all = let e : n ≡ 0 = omega arith in rw e all
passes-each test (suc last) n bound all = elim (Bool-cases (n == suc last)) [
  | inl equal ↦ let e : n ≡ suc last = ground arith in rw e (ground arith)
  | inr other ↦ passes-each test last n (ground arith) (ground arith)
]

is_six : Option ℕ → ℕ → Bool
is_six none n = false
is_six (some m) n = m == n

is_six_sound : (o : Option ℕ) (n : ℕ) → is_six o n ≡ true → o ≡ some n
unfolding is_six
is_six_sound none n h = cc
is_six_sound (some m) n h = ground arith

-- a digit is no white space and no `=`, and the decoder finds its six bits
is_digit : ℕ → Bool
is_digit n =
    not (leb 128 (digit n))
    && (not (isspace (digit n))
        && (not (digit n == b'=') && is_six (index_of (digit n) base64enc_tab) n))

digits_table : passes is_digit 63 ≡ true
unfolding passes is_digit is_six index_of
digits_table = refl

decode_byte-digit :
    (out_len : ℕ) (next : ℕ → ℕ → ℕ → Decoded) (n v rem io : ℕ)
    → n < 64
    → decode_byte out_len next (digit n) v rem io ≡ decode_six out_len next n v rem io
unfolding decode_byte is_digit
decode_byte-digit out_len next n v rem io h =
    let d = passes-each is_digit 63 n (omega (arith, h)) digits_table in
    ground (arith, d, is_six_sound (index_of (digit n) base64enc_tab) n)

put_in :
    (out_len c io : ℕ) (next : ℕ → Option Bytes) (out : Bytes)
    → io < out_len
    → io + 1 < 2 ^ 32
    → next (io + 1) ≡ some out
    → put out_len c io next ≡ some (c ∷ out)
put_in out_len c io next out h k e =
    let same : (io + 1) % 2 ^ 32 ≡ io + 1 = omega (arith, k) in
    let read : next ((io + 1) % 2 ^ 32) ≡ some out = ap next same ∙ e in
    let room : ltb io out_len ≡ true = ground (arith, h) in rw (room, read) refl

emit_byte_in :
    (out_len c io : ℕ) (next : ℕ → Decoded) (out : Bytes)
    → io < out_len
    → io + 1 < 2 ^ 32
    → next (io + 1) ≡ wrote out
    → emit_byte out_len c io next ≡ wrote (c ∷ out)
emit_byte_in out_len c io next out h k e =
    let same : (io + 1) % 2 ^ 32 ≡ io + 1 = omega (arith, k) in
    let read : next ((io + 1) % 2 ^ 32) ≡ wrote out = ap next same ∙ e in
    let room : ltb io out_len ≡ true = ground (arith, h) in rw (room, read) refl

-- six bits that do not fill a byte, and six bits that do
pub six_short :
    (out_len n v rem io : ℕ) (s : Bytes)
    → n < 64
    → rem < 2
    → decode_loop out_len (digit n ∷ s) v rem io
      ≡ decode_loop out_len s ((v * 64 + n) % 2 ^ 32) (rem + 6) io
unfolding decode_loop decode_six
six_short out_len n v rem io s h k =
    decode_byte-digit out_len (decode_loop out_len s) n v rem io h ∙ ground arith

pub six_full :
    (out_len n v rem io byte : ℕ) (s out : Bytes)
    → n < 64
    → 2 ≤ rem
    → io < out_len
    → io + 1 < 2 ^ 32
    → (v * 64 + n) % 2 ^ 32 / 2 ^ (rem + 6 - 8) % 256 ≡ byte
    → decode_loop out_len s ((v * 64 + n) % 2 ^ 32) (rem + 6 - 8) (io + 1) ≡ wrote out
    → decode_loop out_len (digit n ∷ s) v rem io ≡ wrote (byte ∷ out)
unfolding decode_loop decode_six
six_full out_len n v rem io byte s out h k room small e d =
    let full : leb 8 (rem + 6) ≡ true = ground (arith, k) in
    decode_byte-digit out_len (decode_loop out_len s) n v rem io h
    ∙ rw full (
        ap
          (λ c.
            emit_byte out_len c io (decode_loop out_len s ((v * 64 + n) % 2 ^ 32) (rem + 6 - 8)))
          e
        ∙ (emit_byte_in out_len byte io
            (decode_loop out_len s ((v * 64 + n) % 2 ^ 32) (rem + 6 - 8)) out room small d))

pub padding_read :
    (out_len v rem io : ℕ) (s : Bytes)
    → rem < 8
    → decode_loop out_len (b'=' ∷ s) v rem io ≡ wrote []
unfolding decode_loop decode_byte decode_end
padding_read out_len v rem io s h = ground arith

pub empty_read : (out_len v io : ℕ) → decode_loop out_len [] v 0 io ≡ wrote []
unfolding decode_loop decode_end
empty_read out_len v io = refl

pad_in :
    (left out_len io : ℕ)
    → io + left < out_len
    → io + left < 2 ^ 32
    → pad left out_len io ≡ some (replicate left b'=')
unfolding pad
pad_in zero out_len io h k = ground arith
pad_in (suc left) out_len io h k =
    put_in out_len b'=' io (pad left out_len) (replicate left b'=') (omega arith) (omega arith)
      (pad_in left out_len (io + 1) (omega arith) (omega arith))

pub encode_three :
    (out_len v io a b c : ℕ) (s t : Bytes)
    → io + 4 < out_len
    → io + 4 < 2 ^ 32
    → encode_loop out_len s (with_byte (with_byte (with_byte v a) b) c) 0 (io + 1 + 1 + 1 + 1)
      ≡ some t
    → encode_loop out_len (a ∷ b ∷ c ∷ s) v 0 io
      ≡ some (
          digit (with_byte v a / 2 ^ 2 % 64)
          ∷ digit (with_byte (with_byte v a) b / 2 ^ 4 % 64)
          ∷ digit (with_byte (with_byte (with_byte v a) b) c / 2 ^ 6 % 64)
          ∷ digit (with_byte (with_byte (with_byte v a) b) c / 2 ^ 0 % 64)
          ∷ t)
unfolding encode_loop drain
encode_three out_len v io a b c s t h k e =
    let v1 = with_byte v a in
    let v2 = with_byte v1 b in
    let v3 = with_byte v2 c in
    let d4 = λ (i : ℕ). put out_len (digit (v3 / 2 ^ 0 % 64)) i (encode_loop out_len s v3 0) in
    let d3 = λ (i : ℕ). put out_len (digit (v3 / 2 ^ 6 % 64)) i d4 in
    let d2 = λ (i : ℕ). put out_len (digit (v2 / 2 ^ 4 % 64)) i d3 in
    put_in out_len _ io d2 _ (omega arith) (omega arith) (
      put_in out_len _ (io + 1) d3 _ (omega arith) (omega arith) (
        put_in out_len _ (io + 1 + 1) d4 _ (omega arith) (omega arith) (
          put_in out_len _ (io + 1 + 1 + 1) (encode_loop out_len s v3 0) t (omega arith)
            (omega arith) e)))

pub encode_two :
    (out_len v io a b : ℕ)
    → io % 4 ≡ 0
    → io + 4 < out_len
    → io + 4 < 2 ^ 32
    → encode_loop out_len (a ∷ b ∷ []) v 0 io
      ≡ some (
          digit (with_byte v a / 2 ^ 2 % 64)
          ∷ digit (with_byte (with_byte v a) b / 2 ^ 4 % 64)
          ∷ digit (with_byte (with_byte v a) b * 2 ^ 2 % 2 ^ 32 % 64)
          ∷ b'='
          ∷ [])
unfolding encode_loop drain finish
encode_two out_len v io a b m h k =
    let v1 = with_byte v a in
    let v2 = with_byte v1 b in
    let left : (4 - (io + 1 + 1 + 1) % 4) % 4 ≡ 1 = omega (arith, m) in
    let end = λ (i : ℕ). pad ((4 - i % 4) % 4) out_len i in
    let d3 = λ (i : ℕ). put out_len (digit (v2 * 2 ^ 2 % 2 ^ 32 % 64)) i end in
    let d2 = λ (i : ℕ). put out_len (digit (v2 / 2 ^ 4 % 64)) i d3 in
    put_in out_len _ io d2 _ (omega arith) (omega arith) (
      put_in out_len _ (io + 1) d3 _ (omega arith) (omega arith) (
        put_in out_len _ (io + 1 + 1) end _ (omega arith) (omega arith) (
          ap (λ n. pad n out_len (io + 1 + 1 + 1)) left
          ∙ pad_in 1 out_len (io + 1 + 1 + 1) (omega arith) (omega arith))))

pub encode_one :
    (out_len v io a : ℕ)
    → io % 4 ≡ 0
    → io + 4 < out_len
    → io + 4 < 2 ^ 32
    → encode_loop out_len (a ∷ []) v 0 io
      ≡ some (
          digit (with_byte v a / 2 ^ 2 % 64)
          ∷ digit (with_byte v a * 2 ^ 4 % 2 ^ 32 % 64)
          ∷ b'='
          ∷ b'='
          ∷ [])
unfolding encode_loop drain finish
encode_one out_len v io a m h k =
    let v1 = with_byte v a in
    let left : (4 - (io + 1 + 1) % 4) % 4 ≡ 2 = omega (arith, m) in
    let end = λ (i : ℕ). pad ((4 - i % 4) % 4) out_len i in
    let d2 = λ (i : ℕ). put out_len (digit (v1 * 2 ^ 4 % 2 ^ 32 % 64)) i end in
    put_in out_len _ io d2 _ (omega arith) (omega arith) (
      put_in out_len _ (io + 1) end _ (omega arith) (omega arith) (
        ap (λ n. pad n out_len (io + 1 + 1)) left
        ∙ pad_in 2 out_len (io + 1 + 1) (omega arith) (omega arith)))

pub encode_none :
    (out_len v io : ℕ)
    → io % 4 ≡ 0
    → io < out_len
    → io < 2 ^ 32
    → encode_loop out_len [] v 0 io ≡ some []
unfolding encode_loop finish
encode_none out_len v io m h k =
    let left : (4 - io % 4) % 4 ≡ 0 = omega (arith, m) in
    ap (λ n. pad n out_len io) left ∙ pad_in 0 out_len io (omega arith) (omega arith)
