-- ===== src/StackVm/Code.antt =====
-- The code segment of a program file, expanded into instructions: `opcode_length`, `count_instructions`,
-- `make_mask`, `roundup_pow2` and the loop of `vm_load`.

pub mod Mask
pub mod Expanded
pub mod Documented
use boris.Prelude.{
  ℕ, zero, suc, ◌+◌, ◌-◌, ◌*◌, ◌/◌, ◌%◌, ◌^◌, Bool, ◌||◌, ◌&&◌, Option, none, some, List, [], ◌∷◌,
  ◌++◌, ltb, leb, ◌==◌, if◌then◌else◌, length, get_or, drop, replicate, add32, sub32, smeared,
  Bytes,
}
use boris.StackVm.Machine.{Op}

-- `opcode_length`: 0 for an opcode that does not exist
unfoldable pub opcode_length : ℕ → ℕ
opcode_length op =
    if (op == 0x03) || (op == 0x04) || (op == 0x08) || (op == 0x09) || (leb 0x0b op && leb op 0x1a)
    then 5
    else if op == 0x21
    then 2
    else if leb op 0x3b
    then 1
    else 0

-- The loop of `count_instructions`. It takes a byte at least each time, so the number of bytes is
-- enough fuel.
pub count_loop : ℕ → Bytes → ℕ → ℕ
count_loop fuel [] total = total
count_loop zero (op ∷ bytes) total = total
count_loop (suc fuel) (op ∷ bytes) total =
    let len = opcode_length op in
    let rest = count_loop fuel (drop len (op ∷ bytes)) (add32 total 1) in
    if ltb (length (op ∷ bytes)) len then 0 else if len == 0 then 0 else rest

-- `count_instructions`
pub count_instructions : Bytes → ℕ
count_instructions bytes = count_loop (length bytes) bytes 0

-- The loop of `make_mask` on a `size_t`; `none` where the rounds run out.
pub mask_loop : ℕ → ℕ → ℕ → Option ℕ
mask_loop zero ret len = none
mask_loop (suc rounds) ret len =
    let rest = mask_loop rounds ((ret * 2 + 1) % 2 ^ 64) len in
    if ltb ((ret + 1) % 2 ^ 64) len then rest else some ret

-- `make_mask`
pub make_mask : ℕ → ℕ → Option ℕ
make_mask rounds len = mask_loop rounds 0 len

-- `roundup_pow2`, on a 32-bit `unsigned`
pub roundup_pow2 : ℕ → ℕ
roundup_pow2 n = add32 (smeared (sub32 n 1)) 1

-- the parameter of an instruction of `len` bytes at `n`: none, a byte, or a word
pub op_param : Bytes → ℕ → ℕ → ℕ
op_param buf n len =
    if len == 1
    then 0
    else if len == 2
    then get_or buf (n + 1) 0
    else get_or buf (n + 1) 0
      + 256 * get_or buf (n + 2) 0
      + 65536 * get_or buf (n + 3) 0
      + 16777216 * get_or buf (n + 4) 0

infixl 5 ◌>>=◌
abbrev ◌>>=◌ : {A B : Type 0} → Option A → (A → Option B) → Option B
none >>= f = none
some a >>= f = f a

-- One round of the loop of `vm_load`, at byte `n`: the instruction's length, or a failure.
pub checked_length : Bytes → ℕ → Option ℕ
checked_length buf n =
    let len = opcode_length (get_or buf n 0) in
    if leb (length buf) n
    then none
    else if ltb (length buf - n) len
    then none
    else if len == 0
    then none
    else some len

-- the loop of `vm_load` over `count` instructions
pub expand : ℕ → ℕ → Bytes → Option (List Op)
expand zero n buf = some []
expand (suc count) n buf = do
  len ← checked_length buf n
  ops ← expand count (n + len) buf
  some (record { op = get_or buf n 0; param = op_param buf n len } ∷ ops)

-- BREAK, which fills the code up to its size
abbrev pub op_break : Op
op_break = record { op = 0x02; param = 0 }

-- the code of the machine after `vm_load`, which takes the count of 0 of a bad segment for a count
pub load_code : Bytes → Option (List Op)
load_code buf =
    let count = count_instructions buf in
    do ops ← expand count 0 buf; some (ops ++ replicate (roundup_pow2 count - count) op_break)
