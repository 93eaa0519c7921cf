-- ===== src/Base64/Inverse.antt =====
-- `base64_decode` behind `base64_encode`, three bytes at a time.
use boris.Prelude.{
  ℕ, ◌+◌, ◌*◌, ◌/◌, ◌%◌, ◌≤◌, ◌<◌, ◌^◌, ◌≡◌, ◌∙◌, refl, some, [], ◌∷◌, length, All, Bytes, arith,
}
use boris.Base64.{wrote, encode_loop, base64_encode, decode_loop, base64_decode}
use boris.Base64.Bits.{
  with_byte, with_six, six1, six2, six3, six4, last1, last2, byte1, byte2, byte3,
}
use boris.Base64.RoundTrip.{
  digit, six_short, six_full, padding_read, empty_read, encode_three, encode_two, encode_one,
  encode_none,
}

-- the three bytes of four digits
module _ (out_len w jo a b c : ℕ) (ha : a < 256) (hb : b < 256) (hc : c < 256) where
  decode_three :
      (s out : Bytes)
      → jo + 3 ≤ out_len
      → jo + 3 < 2 ^ 32
      → decode_loop out_len s
          (with_six
            (with_six (with_six (with_six w (a / 4)) (a % 4 * 16 + b / 16)) (b % 16 * 4 + c / 64))
            (c % 64))
          0
          (jo + 1 + 1 + 1)
        ≡ wrote out
      → decode_loop out_len
          (digit (a / 4)
            ∷ digit (a % 4 * 16 + b / 16)
            ∷ digit (b % 16 * 4 + c / 64)
            ∷ digit (c % 64)
            ∷ s)
          w
          0
          jo
        ≡ wrote (a ∷ b ∷ c ∷ out)
  decode_three s out room small e =
      let n1 = a / 4 in
      let n2 = a % 4 * 16 + b / 16 in
      let n3 = b % 16 * 4 + c / 64 in
      let n4 = c % 64 in
      let h1 : n1 < 64 = omega (arith, ha) in
      let h2 : n2 < 64 = omega (arith, hb) in
      let h3 : n3 < 64 = omega (arith, hc) in
      let h4 : n4 < 64 = omega arith in
      six_short out_len n1 w 0 jo (digit n2 ∷ digit n3 ∷ digit n4 ∷ s) h1 (omega arith)
      ∙ six_full out_len n2 (with_six w n1) 6 jo a (digit n3 ∷ digit n4 ∷ s) (b ∷ c ∷ out) h2
          (omega arith) (omega arith) (omega arith)
          (byte1 w n1 n2 n3 n4 h1 h2 h3 h4 ∙ omega (arith, ha, hb))
          (six_full out_len n3 (with_six (with_six w n1) n2) 4 (jo + 1) b (digit n4 ∷ s) (c ∷ out)
            h3 (omega arith) (omega arith) (omega arith)
            (byte2 w n1 n2 n3 n4 h1 h2 h3 h4 ∙ omega (arith, hb, hc))
            (six_full out_len n4 (with_six (with_six (with_six w n1) n2) n3) 2 (jo + 1 + 1) c s out
              h4 (omega arith) (omega arith) (omega arith)
              (byte3 w n1 n2 n3 n4 h1 h2 h3 h4 ∙ omega (arith, hc)) e))

-- the two bytes of three digits
decode_two :
    (out_len w jo a b : ℕ)
    → a < 256
    → b < 256
    → jo + 2 ≤ out_len
    → jo + 2 < 2 ^ 32
    → decode_loop out_len
        (digit (a / 4) ∷ digit (a % 4 * 16 + b / 16) ∷ digit (b % 16 * 4) ∷ b'=' ∷ [])
        w
        0
        jo
      ≡ wrote (a ∷ b ∷ [])
decode_two out_len w jo a b ha hb room small =
    let n1 = a / 4 in
    let n2 = a % 4 * 16 + b / 16 in
    let n3 = b % 16 * 4 in
    let h1 : n1 < 64 = omega (arith, ha) in
    let h2 : n2 < 64 = omega (arith, hb) in
    let h3 : n3 < 64 = omega arith in
    let h4 : 0 < 64 = omega arith in
    six_short out_len n1 w 0 jo (digit n2 ∷ digit n3 ∷ b'=' ∷ []) h1 (omega arith)
    ∙ six_full out_len n2 (with_six w n1) 6 jo a (digit n3 ∷ b'=' ∷ []) (b ∷ []) h2 (omega arith)
        (omega arith) (omega arith) (byte1 w n1 n2 n3 0 h1 h2 h3 h4 ∙ omega (arith, ha, hb))
        (six_full out_len n3 (with_six (with_six w n1) n2) 4 (jo + 1) b (b'=' ∷ []) [] h3
          (omega arith) (omega arith) (omega arith)
          (byte2 w n1 n2 n3 0 h1 h2 h3 h4 ∙ omega (arith, hb))
          (padding_read out_len (with_six (with_six (with_six w n1) n2) n3) 2 (jo + 1 + 1) []
            (omega arith)))

-- the byte of two digits
decode_one :
    (out_len w jo a : ℕ)
    → a < 256
    → jo + 1 ≤ out_len
    → jo + 1 < 2 ^ 32
    → decode_loop out_len (digit (a / 4) ∷ digit (a % 4 * 16) ∷ b'=' ∷ b'=' ∷ []) w 0 jo
      ≡ wrote (a ∷ [])
decode_one out_len w jo a ha room small =
    let n1 = a / 4 in
    let n2 = a % 4 * 16 in
    let h1 : n1 < 64 = omega (arith, ha) in
    let h2 : n2 < 64 = omega arith in
    let h : 0 < 64 = omega arith in
    six_short out_len n1 w 0 jo (digit n2 ∷ b'=' ∷ b'=' ∷ []) h1 (omega arith)
    ∙ six_full out_len n2 (with_six w n1) 6 jo a (b'=' ∷ b'=' ∷ []) [] h2 (omega arith)
        (omega arith) (omega arith) (byte1 w n1 n2 0 0 h1 h2 h h ∙ omega (arith, ha))
        (padding_read out_len (with_six (with_six w n1) n2) 4 (jo + 1) (b'=' ∷ []) (omega arith))

-- what both loops do with the bytes that are left, between two groups of three
abbrev Coded : ℕ → ℕ → Bytes → ℕ → ℕ → ℕ → ℕ → Type 0
Coded out1 out2 s v w io jo =
    (t : Bytes) × (encode_loop out1 s v 0 io ≡ some t)
    × (length t ≡ 4 * ((length s + 2) / 3))
    × (decode_loop out2 t w 0 jo ≡ wrote s)

Coded-three :
    (out1 out2 a b c : ℕ) (s : Bytes) (v w io jo : ℕ)
    → a < 256
    → b < 256
    → c < 256
    → io + 4 < out1
    → jo + 3 ≤ out2
    → io + 4 < 2 ^ 32
    → jo + 3 < 2 ^ 32
    → Coded out1 out2 s
        (with_byte (with_byte (with_byte v a) b) c)
        (with_six
          (with_six (with_six (with_six w (a / 4)) (a % 4 * 16 + b / 16)) (b % 16 * 4 + c / 64))
          (c % 64))
        (io + 1 + 1 + 1 + 1)
        (jo + 1 + 1 + 1)
    → Coded out1 out2 (a ∷ b ∷ c ∷ s) v w io jo
Coded-three out1 out2 a b c s v w io jo ha hb hc room1 room2 small1 small2 (t, enc, len, dec) =
    let written = encode_three out1 v io a b c s t room1 small1 enc in
    (
      digit (a / 4)
          ∷ digit (a % 4 * 16 + b / 16)
          ∷ digit (b % 16 * 4 + c / 64)
          ∷ digit (c % 64)
          ∷ t,
      written
          ∙ simp (
            six1 v a b c ha hb hc,
            six2 v a b c ha hb hc,
            six3 v a b c ha hb hc,
            six4 v a b c ha hb hc,
          ),
      omega (arith, len),
      decode_three out2 w jo a b c ha hb hc t s room2 small2 dec,
    )

Coded-two :
    (out1 out2 a b v w io jo : ℕ)
    → a < 256
    → b < 256
    → io % 4 ≡ 0
    → io + 4 < out1
    → jo + 2 ≤ out2
    → io + 4 < 2 ^ 32
    → jo + 2 < 2 ^ 32
    → Coded out1 out2 (a ∷ b ∷ []) v w io jo
Coded-two out1 out2 a b v w io jo ha hb m room1 room2 small1 small2 =
    let hc : 0 < 256 = omega arith in
    (
      digit (a / 4) ∷ digit (a % 4 * 16 + b / 16) ∷ digit (b % 16 * 4) ∷ b'=' ∷ [],
      encode_two out1 v io a b m room1 small1
          ∙ simp (six1 v a b 0 ha hb hc, six2 v a b 0 ha hb hc, last2 v a b 0 ha hb hc),
      refl,
      decode_two out2 w jo a b ha hb room2 small2,
    )

Coded-one :
    (out1 out2 a v w io jo : ℕ)
    → a < 256
    → io % 4 ≡ 0
    → io + 4 < out1
    → jo + 1 ≤ out2
    → io + 4 < 2 ^ 32
    → jo + 1 < 2 ^ 32
    → Coded out1 out2 (a ∷ []) v w io jo
Coded-one out1 out2 a v w io jo ha m room1 room2 small1 small2 =
    let h : 0 < 256 = omega arith in
    (
      digit (a / 4) ∷ digit (a % 4 * 16) ∷ b'=' ∷ b'=' ∷ [],
      encode_one out1 v io a m room1 small1 ∙ simp (six1 v a 0 0 ha h h, last1 v a 0 0 ha h h),
      refl,
      decode_one out2 w jo a ha room2 small2,
    )

coded :
    (out1 out2 : ℕ) (s : Bytes) (v w io jo : ℕ)
    → All (λ c. c < 256) s
    → io % 4 ≡ 0
    → io + 4 * ((length s + 2) / 3) < out1
    → jo + length s ≤ out2
    → io + 4 * ((length s + 2) / 3) < 2 ^ 32
    → jo + length s < 2 ^ 32
    → Coded out1 out2 s v w io jo
coded out1 out2 [] v w io jo bytes m room1 room2 small1 small2 =
    ([], encode_none out1 v io m (omega arith) (omega arith), refl, empty_read out2 w jo)
coded out1 out2 (a ∷ []) v w io jo bytes m room1 room2 small1 small2 =
    Coded-one out1 out2 a v w io jo bytes.0 m (omega arith) (omega arith) (omega arith)
      (omega arith)
coded out1 out2 (a ∷ b ∷ []) v w io jo bytes m room1 room2 small1 small2 =
    Coded-two out1 out2 a b v w io jo bytes.0 bytes.1.0 m (omega arith) (omega arith) (omega arith)
      (omega arith)
coded out1 out2 (a ∷ b ∷ c ∷ s) v w io jo bytes m room1 room2 small1 small2 =
    Coded-three out1 out2 a b c s v w io jo bytes.0 bytes.1.0 bytes.1.1.0 (omega arith)
      (omega arith) (omega arith) (omega arith)
      (coded out1 out2 s (with_byte (with_byte (with_byte v a) b) c)
        (with_six
          (with_six (with_six (with_six w (a / 4)) (a % 4 * 16 + b / 16)) (b % 16 * 4 + c / 64))
          (c % 64))
        (io + 1 + 1 + 1 + 1) (jo + 1 + 1 + 1) bytes.1.1.1 (omega (arith, m)) (omega arith)
        (omega arith) (omega arith) (omega arith))

-- Bytes whose text has fewer than 2 ^ 31 characters and fits with its NUL are encoded, four characters for every three bytes begun, and
-- decoding the text into any room that holds the bytes gives them back.
pub base64_decode-base64_encode :
    (s : Bytes) (out_len room : ℕ)
    → All (λ c. c < 256) s
    → 4 * ((length s + 2) / 3) < out_len
    → length s ≤ room
    → 4 * ((length s + 2) / 3) < 2 ^ 31
    → (t : Bytes) × (base64_encode s out_len ≡ some t)
      × (length t ≡ 4 * ((length s + 2) / 3))
      × (base64_decode t room ≡ wrote s)
unfolding base64_encode base64_decode
base64_decode-base64_encode s out_len room bytes fits large small =
    coded out_len room s 0 0 0 0 bytes refl (omega arith) (omega arith) (omega arith) (omega arith)
