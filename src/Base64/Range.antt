-- ===== src/Base64/Range.antt =====
-- What `base64_decode` writes: bytes, and no more than there is room for.
use boris.Prelude.{
  ℕ, ◌+◌, ◌-◌, ◌/◌, ◌%◌, ◌^◌, ◌≤◌, ◌<◌, ◌≡◌, ◌∙◌, sym, ap, ◌==◌, ◌*◌, isspace, Bool, true, false,
  Bool-cases, inl, inr, Option, none, some, [], ◌∷◌, if◌then◌else◌, ltb, leb, length, All, Bytes,
  arith,
}
use boris.Base64.{
  Decoded, failed, undefined, wrote, emit_byte, base64enc_tab, index_of, decode_end, decode_six,
  decode_byte, decode_loop, base64_decode,
}

-- a result is bytes that fit behind the first `io`
abbrev Fits : ℕ → ℕ → Decoded → Type 0
Fits room io result =
    (out : Bytes) → result ≡ wrote out → All (λ c. c < 256) out × (length out ≤ room - io)

pushed : ℕ → Decoded → Decoded
pushed c failed = failed
pushed c undefined = undefined
pushed c (wrote out) = wrote (c ∷ out)

pushed-Fits :
    (room c io : ℕ) (o : Decoded)
    → io < room
    → c < 256
    → Fits room (io + 1) o
    → Fits room io (pushed c o)
unfolding pushed
pushed-Fits room c io failed h k f out e = absurd (cc)
pushed-Fits room c io undefined h k f out e = absurd (cc)
pushed-Fits room c io (wrote rest) h k f [] e = absurd (cc)
pushed-Fits room c io (wrote rest) h k f (d ∷ out) e =
    let first : d ≡ c = cc in
    let g = f out (cc) in ((omega (arith, first), g.0), omega (arith, g.1))

emit_byte-Fits :
    (room c io : ℕ) (next : ℕ → Decoded)
    → room < 2 ^ 32
    → c < 256
    → Fits room (io + 1) (next (io + 1))
    → Fits room io (emit_byte room c io next)
unfolding pushed
emit_byte-Fits room c io next small h f out e = elim (Bool-cases (ltb io room)) [
  | inl some_room ↦
      let below : io < room = ground arith in
      let same : (io + 1) % 2 ^ 32 ≡ io + 1 = omega (arith, below, small) in
      pushed-Fits room c io (next (io + 1)) below h f out
        (ap (λ n. pushed c (next n)) (sym same) ∙ rw some_room at e)
  | inr no_room ↦ let bad : failed ≡ wrote out = rw no_room at e in absurd (cc)
]

if-Fits :
    (room io : ℕ) (test : Bool) (x y : Decoded)
    → Fits room io x
    → Fits room io y
    → Fits room io (if test then x else y)
if-Fits room io true x y f g = f
if-Fits room io false x y f g = g

module _ (room : ℕ) (small : room < 2 ^ 32) where
  nothing-Fits : (io : ℕ) → Fits room io (wrote [])
  nothing-Fits io [] e = (tt, omega arith)
  nothing-Fits io (c ∷ out) e = absurd (cc)

  undefined-Fits : (io : ℕ) → Fits room io undefined
  undefined-Fits io out e = absurd (cc)

  decode_end-Fits : (v rem io : ℕ) → Fits room io (decode_end room v rem io)
  unfolding decode_end
  decode_end-Fits v rem io =
      if-Fits room io (leb 8 rem) _ _
        (emit_byte-Fits room (v / 2 ^ (rem - 8) % 256) io (λ (i : ℕ). wrote []) small (omega arith)
          (nothing-Fits (io + 1)))
        (nothing-Fits io)

  -- a byte, whatever is behind it
  module _ (next : ℕ → ℕ → ℕ → Decoded) (ih : (v rem io : ℕ) → Fits room io (next v rem io)) where
    decode_six-Fits : (six v rem io : ℕ) → Fits room io (decode_six room next six v rem io)
    unfolding decode_six
    decode_six-Fits six v rem io =
        let v' = (v * 64 + six) % 2 ^ 32 in
        if-Fits room io (leb 8 (rem + 6)) _ _
          (emit_byte-Fits room (v' / 2 ^ (rem + 6 - 8) % 256) io (next v' (rem + 6 - 8)) small
            (omega arith) (ih v' (rem + 6 - 8) (io + 1)))
          (ih v' (rem + 6) io)

    found-Fits :
        (v rem io : ℕ) (o : Option ℕ)
        → Fits room io (elim o [
          | none ↦ decode_end room v rem io
          | some six ↦ decode_six room next six v rem io
        ])
    found-Fits v rem io none = decode_end-Fits v rem io
    found-Fits v rem io (some six) = decode_six-Fits six v rem io

    decode_byte-Fits : (c v rem io : ℕ) → Fits room io (decode_byte room next c v rem io)
    unfolding decode_byte
    decode_byte-Fits c v rem io = if-Fits room io (leb 128 c) _ _ (undefined-Fits io) (
        if-Fits room io (isspace c) _ _ (ih v rem io) (
          if-Fits room io (c == b'=') _ _ (decode_end-Fits v rem io)
            (found-Fits v rem io (index_of c base64enc_tab))))

  decode_loop-Fits : (s : Bytes) (v rem io : ℕ) → Fits room io (decode_loop room s v rem io)
  unfolding decode_loop
  decode_loop-Fits [] v rem io = decode_end-Fits v rem io
  decode_loop-Fits (c ∷ s) v rem io =
      decode_byte-Fits (decode_loop room s) (decode_loop-Fits s) c v rem io

pub base64_decode-Fits :
    (s : Bytes) (room : ℕ) (out : Bytes)
    → room < 2 ^ 32
    → base64_decode s room ≡ wrote out
    → All (λ c. c < 256) out × (length out ≤ room)
unfolding base64_decode
base64_decode-Fits s room out small e =
    let f = decode_loop-Fits room small s 0 0 0 out e in (f.0, omega (arith, f.1))
