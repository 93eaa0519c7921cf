-- ===== src/Buf.antt =====
-- src/buf.c: a growing buffer of bytes, written at its end and read from its front. `bytes` is the whole
-- block, of `capacity` bytes, of which the first `length` are in use. `realloc` is a parameter; `none`
-- is NULL. An access outside the block is `none` too.
pub mod Queue
pub mod Write
mod Tests
use boris.Prelude.{
  ℕ, ◌+◌, ◌-◌, ◌*◌, ◌%◌, ◌≤◌, ◌≡◌, Bool, true, false, not, ◌&&◌, Option, none, some, List, [], ◌∷◌,
  ◌++◌, ltb, leb, ◌==◌, if◌then◌else◌, length, take, drop, add32, sub32, u32_mod, smeared, Bytes,
}

-- `struct buf`
pub record Buf : Type 0 where
  pub error_flag : Bool
  pub length : ℕ
  pub capacity : ℕ
  pub limit : ℕ
  pub bytes : Bytes

-- `buf_new`, with the block that `malloc` gives
pub buf_new : Option Bytes → Option Buf
buf_new none = none
buf_new (some block) =
    some (record { error_flag = false; length = 0; capacity = 8; limit = 0; bytes = block })

-- `buf_set_limit`
pub buf_set_limit : Buf → ℕ → Buf
buf_set_limit b limit = record b { limit = limit % u32_mod }

-- `buf_check`
pub buf_check : Buf → Bool
buf_check b = not b.error_flag && leb b.length b.capacity

-- `memcpy(data + ofs, bytes, ...)`
abbrev pub copy_in : Bytes → ℕ → Bytes → Option Bytes
copy_in block ofs bytes =
    if leb (ofs + length bytes) (length block)
    then some (take ofs block ++ (bytes ++ drop (ofs + length bytes) block))
    else none

-- `memcpy(out, data + ofs, n)`
abbrev pub copy_out : Bytes → ℕ → ℕ → Option Bytes
copy_out block ofs n = if leb (ofs + n) (length block) then some (take n (drop ofs block)) else none

-- `newsize` of `buf_grow`: the next power of two, of an `unsigned`
abbrev pub round_up : ℕ → ℕ
round_up n = add32 (smeared (sub32 n 1)) 1

-- a size that the limit forbids
abbrev pub is_limited : Buf → ℕ → Bool
is_limited b size = not (b.limit == 0) && leb b.limit size

abbrev pub resized : Buf → ℕ → Option Bytes → Buf × Bool
resized b size none = (b, false)
resized b size (some p) = (record b { capacity = size % u32_mod; bytes = p }, true)

-- what is left of `b` where the error flag is set
abbrev pub with_error : Buf → Buf
with_error b = record b { error_flag = true }

abbrev pub add_length : Buf → ℕ → Option Bytes → Option Buf
add_length b n none = none
add_length b n (some d) = some (record b { bytes = d; length = add32 b.length n })

-- `if (b->length) memmove(b->data, b->data + len, b->length)`, `left` bytes being left
abbrev pub move_front : Buf → ℕ → Option Bytes → Option Buf
move_front b left none = none
move_front b left (some moved) = elim (copy_in b.bytes 0 moved) [
  | none ↦ none
  | some d ↦ some (record b { bytes = d; length = left })
]

-- `buf_consume`: less the number taken, whether the buffer is empty
abbrev pub consumed : Buf → ℕ → Option Buf
consumed b len = move_front b (b.length - len) (copy_out b.bytes len (b.length - len))

abbrev pub with_result : {A : Type 0} → A → Option Buf → Option (A × Buf)
with_result a none = none
with_result a (some b) = some (a, b)

-- `maxlen > b->length ? b->length : maxlen`
abbrev pub clamp : Buf → ℕ → ℕ
clamp b maxlen = if ltb b.length maxlen then b.length else maxlen

-- `buf_read` behind its test, of `len` bytes
abbrev pub read_out : Buf → ℕ → Option Bytes → Option (Bytes × Buf)
read_out b len none = none
read_out b len (some out) = with_result out (consumed b len)

-- `buf_read`: the bytes read
pub buf_read : Buf → ℕ → Option (Bytes × Buf)
buf_read b maxlen =
    if b.error_flag
    then some ([], b)
    else read_out b (clamp b maxlen) (copy_out b.bytes 0 (clamp b maxlen))

-- `buf_consume`: true if the buffer is empty
pub buf_consume : Buf → ℕ → Option (Bool × Buf)
buf_consume b maxlen =
    if b.error_flag
    then some (true, b)
    else with_result (b.length - clamp b maxlen == 0) (consumed b (clamp b maxlen))

-- the bytes written behind those in use, where the buffer has room for them
abbrev pub put : Bytes → Buf × Bool → Option Buf
put bytes (b, true) = add_length b (length bytes) (copy_in b.bytes b.length bytes)
put bytes (b, false) = some (with_error b)

abbrev pub reserved : Buf × Bool → Option ℕ × Buf
reserved (b, true) = (some (sub32 b.capacity b.length), b)
reserved (b, false) = (none, with_error b)

abbrev pub committed : ℕ → Buf × Bool → Buf
committed n (b, true) = record b { length = add32 b.length n }
committed n (b, false) = with_error b

module _ (realloc : Bytes → ℕ → Option Bytes) where
  -- `buf_grow`: the buffer, and whether it is OK
  pub buf_grow : Buf → ℕ → Buf × Bool
  buf_grow b increase =
      let newsize = round_up (add32 b.length increase) in
      if ltb b.capacity (add32 b.length increase)
      then if is_limited b newsize then (b, false) else resized b newsize (realloc b.bytes newsize)
      else (b, true)

  -- `buf_increment`
  pub buf_increment : Buf → Buf × Bool
  buf_increment b =
      let newcap = if b.capacity == 0 then 1 else b.capacity * 2 in
      if leb b.capacity b.length
      then if is_limited b newcap then (b, false) else resized b newcap (realloc b.bytes newcap)
      else (b, true)

  -- `buf_write`
  pub buf_write : Buf → Bytes → Option Buf
  buf_write b bytes =
      if b.error_flag then some b else put bytes (buf_grow b (length bytes % u32_mod))

  -- `buf_append`
  pub buf_append : Buf → ℕ → Option Buf
  buf_append b v = if b.error_flag then some b else put (v ∷ []) (buf_increment b)

  -- `buf_reserve`: the room behind the bytes in use, `none` for NULL
  pub buf_reserve : Buf → ℕ → Option ℕ × Buf
  buf_reserve b minlen =
      if b.error_flag then (none, b) else reserved (buf_grow b (minlen % u32_mod))

  -- `buf_commit`
  pub buf_commit : Buf → ℕ → Buf
  buf_commit b addlen = if b.error_flag then b else committed addlen (buf_grow b (addlen % u32_mod))
