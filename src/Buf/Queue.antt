-- ===== src/Buf/Queue.antt =====
-- A buffer is a queue of bytes: what is written at the end is read from the front.
use boris.Prelude.{
  ℕ, zero, suc, ◌+◌, ◌-◌, ◌^◌, ◌≤◌, ◌<◌, ◌≡◌, refl, sym, ap, ◌∙◌, Bool, true, false, Option, some,
  [], ◌∷◌, ◌++◌, ltb, ◌==◌, if◌then◌else◌, arith, length, length-append, length-take, length-drop,
  take, drop, sub32, smeared, le-smeared, smeared-lt, Bytes,
}
use boris.Buf.{
  Buf, copy_in, copy_out, round_up, move_front, consumed, with_result, read_out, buf_read,
  buf_consume,
}

-- a buffer whose block has the size that it says
pub record IsBuf (b : Buf) : Type 0 where
  pub block : length b.bytes ≡ b.capacity
  pub room : b.length ≤ b.capacity
  pub small : b.capacity ≤ 2 ^ 31

-- the abstract view: the bytes in the queue
abbrev pub content : Buf → Bytes
content b = take b.length b.bytes

-- what C says of `realloc`: a block of the new size, with the old bytes as far as they fit
pub record IsRealloc (realloc : Bytes → ℕ → Option Bytes) : Type 0 where
  pub size : (d : Bytes) (n : ℕ) (p : Bytes) → realloc d n ≡ some p → length p ≡ n
  pub kept :
      (d : Bytes) (n : ℕ) (p : Bytes) (k : ℕ)
      → realloc d n ≡ some p
      → k ≤ length d
      → k ≤ n
      → take k p ≡ take k d

suc-plus : (m n : ℕ) → suc m + n ≡ suc (m + n)
suc-plus m n = omega arith

zero-minus : (k : ℕ) → 0 ≡ 0 - suc k
zero-minus k = omega arith

suc-minus : (m n : ℕ) → m - n ≡ suc m - suc n
suc-minus m n = omega arith

take-nil : (n : ℕ) → take {A = ℕ} n [] ≡ []
take-nil zero = refl
take-nil (suc n) = refl

take-append : (xs ys : Bytes) → take (length xs) (xs ++ ys) ≡ xs
take-append [] ys = refl
take-append (x ∷ xs) ys = ap (◌∷◌ x) (take-append xs ys)

take-put :
    (n : ℕ) (d xs ys : Bytes)
    → n ≤ length d
    → take (n + length xs) (take n d ++ (xs ++ ys)) ≡ take n d ++ xs
take-put zero d xs ys h = ap (λ m. take m (xs ++ ys)) (omega arith) ∙ take-append xs ys
take-put (suc n) [] xs ys h = absurd (omega arith)
take-put (suc n) (x ∷ d) xs ys h =
    ap (λ m. take m (x ∷ (take n d ++ (xs ++ ys)))) (suc-plus n (length xs))
    ∙ ap (◌∷◌ x) (take-put n d xs ys (omega arith))

drop-take : (k n : ℕ) (d : Bytes) → drop k (take n d) ≡ take (n - k) (drop k d)
drop-take zero n d = ap (λ m. take m d) (omega arith)
drop-take (suc k) zero d = ap (λ m. take m (drop (suc k) d)) (zero-minus k)
drop-take (suc k) (suc n) [] = sym (take-nil (suc n - suc k))
drop-take (suc k) (suc n) (x ∷ d) = drop-take k n d ∙ ap (λ m. take m (drop k d)) (suc-minus n k)

pub round_up-le : (n : ℕ) → 0 < n → n ≤ 2 ^ 31 → (n ≤ round_up n) × (round_up n ≤ 2 ^ 31)
round_up-le n pos h =
    let m = sub32 n 1 in
    let e : sub32 n 1 ≡ n - 1 = omega (arith, pos, h) in
    let lt : smeared (sub32 n 1) < 2 ^ 31 = smeared-lt 31 (sub32 n 1) (omega (arith, e, h)) in
    let le : sub32 n 1 ≤ smeared (sub32 n 1) = le-smeared (sub32 n 1) in
    (omega (arith, e, lt, le, pos), omega (arith, lt))

-- copying inside the block
pub copy_in-ok :
    (block : Bytes) (ofs : ℕ) (xs : Bytes)
    → ofs + length xs ≤ length block
    → (d : Bytes) × (copy_in block ofs xs ≡ some d)
      × (length d ≡ length block)
      × (take (ofs + length xs) d ≡ take ofs block ++ xs)
copy_in-ok block ofs xs h = (
  take ofs block ++ (xs ++ drop (ofs + length xs) block),
  ground arith,
  omega (
    arith,
    h,
    length-append (take ofs block) (xs ++ drop (ofs + length xs) block),
    length-append xs (drop (ofs + length xs) block),
    length-take ofs block,
    length-drop (ofs + length xs) block,
  ),
  take-put ofs block xs (drop (ofs + length xs) block) (omega (arith, h)),
)

copy_out-ok :
    (block : Bytes) (ofs n : ℕ)
    → ofs + n ≤ length block
    → copy_out block ofs n ≡ some (take n (drop ofs block))
copy_out-ok block ofs n h = ground arith

moved_in :
    (b : Buf) (n : ℕ) (moved d : Bytes)
    → copy_in b.bytes 0 moved ≡ some d
    → move_front b n (some moved) ≡ some (record b { bytes = d; length = n })
moved_in b n moved d e = rw (e, move_front)

-- Taking `k` bytes off the front leaves the rest of the queue.
consumed-ok :
    (b : Buf) (k : ℕ)
    → IsBuf b
    → k ≤ b.length
    → (b' : Buf) × (consumed b k ≡ some b')
      × IsBuf b'
      × (content b' ≡ drop k (content b))
      × (b'.length ≡ b.length - k)
      × (b'.error_flag ≡ b.error_flag)
consumed-ok b k v h =
    let moved : Bytes = take (b.length - k) (drop k b.bytes) in
    let len : length moved ≡ b.length - k =
      length-take (b.length - k) (drop k b.bytes)
      ∙ omega (arith, length-drop k b.bytes, v.block, v.room, h) in
    let (d, copied, block, front) =
      copy_in-ok b.bytes 0 moved (omega (arith, len, v.block, v.room)) in
    (
      record b { bytes = d; length = b.length - k },
      ap (move_front b (b.length - k))
            (copy_out-ok b.bytes k (b.length - k) (omega (arith, v.block, v.room, h)))
          ∙ moved_in b (b.length - k) moved d copied,
      record { block = block ∙ v.block; room = omega (arith, v.room); small = v.small },
      ap (λ n. take n d) (omega (arith, len)) ∙ front ∙ sym (drop-take k b.length b.bytes),
      refl,
      refl,
    )

take_all : (n : ℕ) (c : Bytes) → length c ≤ n → (take n c ≡ c) × (drop n c ≡ [])
take_all zero [] h = (refl, refl)
take_all zero (x ∷ c) h = absurd (omega arith)
take_all (suc n) [] h = (refl, refl)
take_all (suc n) (x ∷ c) h = let (t, d) = take_all n c (omega arith) in (ap (◌∷◌ x) t, d)

take-take : (k n : ℕ) (d : Bytes) → k ≤ n → take k (take n d) ≡ take k d
take-take zero n d h = refl
take-take (suc k) zero d h = absurd (omega arith)
take-take (suc k) (suc n) [] h = refl
take-take (suc k) (suc n) (x ∷ d) h = ap (◌∷◌ x) (take-take k n d (omega arith))

-- `maxlen > b->length ? b->length : maxlen` bytes are as many as there are up to `maxlen`
clamped :
    (n m : ℕ) (c : Bytes) (larger : Bool)
    → ltb m n ≡ larger
    → length c ≡ m
    → let k = if larger then m else n in (k ≤ m) × (take k c ≡ take n c) × (drop k c ≡ drop n c)
clamped n m c true h e =
    let (t, d) = take_all m c (omega (arith, e)) in
    let (t', d') = take_all n c (ground (arith, e)) in (omega arith, t ∙ sym t', d ∙ sym d')
clamped n m c false h e = (ground arith, refl, refl)

length-content : (b : Buf) → IsBuf b → length (content b) ≡ b.length
length-content b v = length-take b.length b.bytes ∙ omega (arith, v.block, v.room)

-- Reading up to `n` bytes from a buffer without an error gives the first `n` bytes of the queue, or all
-- if they are fewer, and takes just these off: no access is outside the block.
buf_read_correct :
    (b : Buf) (n : ℕ)
    → IsBuf b
    → b.error_flag ≡ false
    → (b' : Buf) × (buf_read b n ≡ some (take n (content b), b'))
      × IsBuf b'
      × (content b' ≡ drop n (content b))
      × (b'.error_flag ≡ false)
unfolding buf_read
buf_read_correct b n v e =
    let k : ℕ = if ltb b.length n then b.length else n in
    let (le, t, d) = clamped n b.length (content b) (ltb b.length n) refl (length-content b v) in
    let (b', eq, v', c, l, f) = consumed-ok b k v le in
    (
      b',
      ap (λ w. if w then some ([], b) else read_out b k (copy_out b.bytes 0 k)) e
          ∙ ap (read_out b k) (copy_out-ok b.bytes 0 k (omega (arith, le, v.block, v.room)))
          ∙ ap (with_result (take k b.bytes)) eq
          ∙ ap (λ out. some (out, b')) (sym (take-take k b.length b.bytes le) ∙ t),
      v',
      c ∙ d,
      f ∙ e,
    )

-- Taking up to `n` bytes off a buffer without an error leaves the rest of the queue, and tells whether
-- it is empty: no access is outside the block.
buf_consume_correct :
    (b : Buf) (n : ℕ)
    → IsBuf b
    → b.error_flag ≡ false
    → (b' : Buf) × (buf_consume b n ≡ some (b'.length == 0, b'))
      × IsBuf b'
      × (content b' ≡ drop n (content b))
      × (b'.error_flag ≡ false)
unfolding buf_consume
buf_consume_correct b n v e =
    let k : ℕ = if ltb b.length n then b.length else n in
    let (le, t, d) = clamped n b.length (content b) (ltb b.length n) refl (length-content b v) in
    let (b', eq, v', c, l, f) = consumed-ok b k v le in
    (
      b',
      ap (λ w. if w then some (true, b) else with_result (b.length - k == 0) (consumed b k)) e
          ∙ ap (with_result (b.length - k == 0)) eq
          ∙ ap (λ m. some (m == 0, b')) (sym l),
      v',
      c ∙ d,
      f ∙ e,
    )
