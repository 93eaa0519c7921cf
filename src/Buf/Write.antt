-- ===== src/Buf/Write.antt =====
-- Growing the block, and writing at the end of the queue.
use boris.Prelude.{
  ℕ, ◌+◌, ◌*◌, ◌%◌, ◌^◌, ◌≤◌, ◌≡◌, refl, ap, ◌∙◌, ◌⊎◌, inl, inr, Bool, true, false, Option, none,
  some, [], ◌∷◌, ◌++◌, ltb, leb, ◌==◌, if◌then◌else◌, arith, length, take, add32, u32_mod, Bytes,
}
use boris.Buf.{
  Buf, round_up, is_limited, resized, with_error, add_length, buf_grow, buf_increment, put,
  buf_write, buf_append,
}
use boris.Buf.Queue.{IsBuf, content, IsRealloc, round_up-le, copy_in-ok}

-- what a growth leaves: the same queue, and where it went well, room for `n` bytes more
record Grown (b : Buf) (n : ℕ) (r : Buf × Bool) : Type 0 where
  valid : IsBuf r.0
  same_content : content r.0 ≡ content b
  same_length : r.0.length ≡ b.length
  same_error : r.0.error_flag ≡ b.error_flag
  room : r.1 ≡ true → b.length + n ≤ r.0.capacity

unchanged : (b : Buf) (n : ℕ) → IsBuf b → Grown b n (b, false)
unchanged b n v = record {
  valid = v;
  same_content = refl;
  same_length = refl;
  same_error = refl;
  room = λ e. ground arith;
}

Grown-if :
    (b : Buf) (n : ℕ) (c : Bool) (x y : Buf × Bool)
    → (c ≡ true → Grown b n x)
    → (c ≡ false → Grown b n y)
    → Grown b n (if c then x else y)
Grown-if b n true x y p q = p refl
Grown-if b n false x y p q = q refl

module _ (realloc : Bytes → ℕ → Option Bytes) (law : IsRealloc realloc) where
  resized-Grown :
      (b : Buf) (n size : ℕ) (o : Option Bytes)
      → realloc b.bytes size ≡ o
      → IsBuf b
      → b.length + n ≤ size
      → size ≤ 2 ^ 31
      → Grown b n (resized b size o)
  resized-Grown b n size none e v h l = unchanged b n v
  resized-Grown b n size (some p) e v h l = record {
    valid = record {
      block = law.size b.bytes size p e ∙ omega (arith, l);
      room = omega (arith, h, l);
      small = omega (arith, l);
    };
    same_content =
        law.kept b.bytes size p b.length e (omega (arith, v.block, v.room)) (omega (arith, h));
    same_length = refl;
    same_error = refl;
    room = λ t. omega (arith, h, l);
  }

  buf_grow-Grown :
      (b : Buf) (n : ℕ) → IsBuf b → b.length + n ≤ 2 ^ 31 → Grown b n (buf_grow realloc b n)
  unfolding buf_grow
  buf_grow-Grown b n v h =
      let e : add32 b.length n ≡ b.length + n = omega (arith, h) in
      Grown-if b n (ltb b.capacity (add32 b.length n)) _ _
        (λ t.
          let (low, high) =
            round_up-le (add32 b.length n) (ground (arith, t)) (omega (arith, e, h)) in
          Grown-if b n (is_limited b (round_up (add32 b.length n))) _ _ (λ _. unchanged b n v)
            (λ _.
              resized-Grown b n (round_up (add32 b.length n))
                (realloc b.bytes (round_up (add32 b.length n))) refl v (omega (arith, e, low))
                high))
        (λ t. record {
          valid = v;
          same_content = refl;
          same_length = refl;
          same_error = refl;
          room = λ _. ground (arith, e, t);
        })

  buf_increment-Grown :
      (b : Buf) → IsBuf b → b.capacity ≤ 2 ^ 30 → Grown b 1 (buf_increment realloc b)
  unfolding buf_increment
  buf_increment-Grown b v h =
      let newcap : ℕ = if b.capacity == 0 then 1 else b.capacity * 2 in
      Grown-if b 1 (leb b.capacity b.length) _ _
        (λ t.
          Grown-if b 1 (is_limited b newcap) _ _ (λ _. unchanged b 1 v)
            (λ _.
              resized-Grown b 1 newcap (realloc b.bytes newcap) refl v (ground (arith, v.room))
                (ground (arith, h))))
        (λ t. record {
          valid = v;
          same_content = refl;
          same_length = refl;
          same_error = refl;
          room = λ _. ground (arith, t);
        })

-- what a write leaves: the bytes at the end of the queue, or an error and the queue as it was
abbrev pub IsWritten : Buf → Bytes → Buf → Type 0
IsWritten b xs b' =
    (b'.error_flag ≡ false) × (content b' ≡ content b ++ xs)
    ⊎ (b'.error_flag ≡ true) × (content b' ≡ content b)

put-IsWritten :
    (b : Buf) (xs : Bytes) (r : Buf × Bool)
    → Grown b (length xs) r
    → b.error_flag ≡ false
    → (b' : Buf) × (put xs r ≡ some b') × IsBuf b' × IsWritten b xs b'
put-IsWritten b xs (b1, false) g e =
    let v = g.valid in
    (
      with_error b1,
      refl,
      record { block = v.block; room = v.room; small = v.small },
      inr (refl, g.same_content),
    )
put-IsWritten b xs (b1, true) g e =
    let v = g.valid in
    let fits : b1.length + length xs ≤ b1.capacity = omega (arith, g.room refl, g.same_length) in
    let (d, eq, block, front) = copy_in-ok b1.bytes b1.length xs (omega (arith, fits, v.block)) in
    let len : add32 b1.length (length xs) ≡ b1.length + length xs = omega (arith, fits, v.small) in
    (
      record b1 { bytes = d; length = add32 b1.length (length xs) },
      ap (add_length b1 (length xs)) eq,
      record { block = block ∙ v.block; room = omega (arith, len, fits); small = v.small },
      inl (g.same_error ∙ e, ap (λ n. take n d) len ∙ front ∙ ap (λ c. c ++ xs) g.same_content),
    )

-- Writing bytes to a buffer without an error, where the block need not grow beyond 2 ^ 31 bytes: no
-- access is outside the block, and either the bytes are behind those of the queue, or the error flag is
-- set and the queue is as it was. `realloc` is supposed to keep the bytes as C says.
pub buf_write_correct :
    (realloc : Bytes → ℕ → Option Bytes) (b : Buf) (xs : Bytes)
    → IsRealloc realloc
    → IsBuf b
    → b.error_flag ≡ false
    → b.length + length xs ≤ 2 ^ 31
    → (b' : Buf) × (buf_write realloc b xs ≡ some b') × IsBuf b' × IsWritten b xs b'
unfolding buf_write
buf_write_correct realloc b xs law v e h =
    let n : ℕ = length xs % u32_mod in
    let len : length xs % u32_mod ≡ length xs = omega (arith, h) in
    let g : Grown b (length xs) (buf_grow realloc b (length xs)) =
      buf_grow-Grown realloc law b (length xs) v h in
    let (b', eq, v', w) = put-IsWritten b xs (buf_grow realloc b (length xs)) g e in
    (
      b',
      ap (λ w. if w then some b else put xs (buf_grow realloc b (length xs % u32_mod))) e
          ∙ ap (λ n. put xs (buf_grow realloc b n)) len
          ∙ eq,
      v',
      w,
    )

-- The same for a single byte, where the block has 2 ^ 30 bytes at most.
buf_append_correct :
    (realloc : Bytes → ℕ → Option Bytes) (b : Buf) (c : ℕ)
    → IsRealloc realloc
    → IsBuf b
    → b.error_flag ≡ false
    → b.capacity ≤ 2 ^ 30
    → (b' : Buf) × (buf_append realloc b c ≡ some b') × IsBuf b' × IsWritten b (c ∷ []) b'
unfolding buf_append
buf_append_correct realloc b c law v e h =
    let (b', eq, v', w) =
      put-IsWritten b (c ∷ []) (buf_increment realloc b) (buf_increment-Grown realloc law b v h)
        e in
    (b', ap (λ w. if w then some b else put (c ∷ []) (buf_increment realloc b)) e ∙ eq, v', w)
