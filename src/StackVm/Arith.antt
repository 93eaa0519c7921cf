-- ===== src/StackVm/Arith.antt =====
-- The integer instructions: what they compute from the two words popped, `a` from the top and `b`
-- below it. `int` is 32 bits wide, in two's complement.

pub mod Defined
use Prim.Native.Nat.{bit_and, bit_or, bit_xor}
use boris.Prelude.{
  ℕ, ◌+◌, ◌-◌, ◌*◌, ◌/◌, ◌%◌, ◌^◌, Bool, true, false, not, ◌&&◌, ltb, leb, ◌==◌, if◌then◌else◌,
  u32_mod, add32, sub32, mul32,
}

-- what an instruction comes to: a word to push, VM_ERROR_MATH_ERROR, or what C leaves undefined
pub data Computed : Type 0 where
  word : ℕ → Computed
  math : Computed
  undefined : Computed
  no_instruction : Computed

-- `(int32_t)w < 0`
abbrev pub is_negative : ℕ → Bool
is_negative w = leb (2 ^ 31) w

abbrev pub neg32 : ℕ → ℕ
neg32 w = sub32 0 w

-- the magnitude of `(int)w`
abbrev pub magnitude : ℕ → ℕ
magnitude w = if is_negative w then neg32 w else w

abbrev pub same_sign : ℕ → ℕ → Bool
same_sign a b = if is_negative a then is_negative b else not (is_negative b)

-- `(int)b < (int)a`
abbrev pub lt_signed : ℕ → ℕ → Bool
lt_signed b a =
    if is_negative b
    then if is_negative a then ltb b a else true
    else if is_negative a
    then false
    else ltb b a

-- INT_MIN / -1 overflows.
abbrev pub div_overflows : ℕ → ℕ → Bool
div_overflows b a = (b == 2 ^ 31) && (a == 2 ^ 32 - 1)

-- `(int)b / (int)a`, which rounds towards 0
abbrev pub div_signed : ℕ → ℕ → ℕ
div_signed b a =
    if same_sign a b then magnitude b / magnitude a else neg32 (magnitude b / magnitude a)

-- `(int)b % (int)a`, which has the sign of `b`
abbrev pub mod_signed : ℕ → ℕ → ℕ
mod_signed b a =
    if is_negative b then neg32 (magnitude b % magnitude a) else magnitude b % magnitude a

-- `(int)b >> a`, which copies the sign
abbrev pub shift_signed : ℕ → ℕ → ℕ
shift_signed b a = if is_negative b then u32_mod - 1 - (u32_mod - 1 - b) / 2 ^ a else b / 2 ^ a

-- a shift by the width or more is undefined
abbrev pub shift : ℕ → ℕ → Computed
shift a w = if ltb a 32 then word w else undefined

-- 0x26 to 0x2d: ADD SUB DIVI DIVU MODI MODU MULI MULU
unfoldable pub arithmetic : ℕ → ℕ → ℕ → Computed
arithmetic op a b =
    if op == 0x26
    then word (add32 b a)
    else if op == 0x27
    then word (sub32 b a)
    else if op == 0x28
    then if a == 0 then math else if div_overflows b a then undefined else word (div_signed b a)
    else if op == 0x29
    then if a == 0 then math else word (b / a)
    else if op == 0x2a
    then if a == 0 then math else if div_overflows b a then undefined else word (mod_signed b a)
    else if op == 0x2b
    then if a == 0 then math else word (b % a)
    else if op == 0x2c
    then word (mul32 b a)
    else if op == 0x2d
    then word (mul32 b a)
    else no_instruction

-- 0x2e to 0x30 and 0x32 to 0x34: BAND BOR BXOR LSH RSHI RSHU
pub bitwise : ℕ → ℕ → ℕ → Computed
bitwise op a b =
    if op == 0x2e
    then word (bit_and b a)
    else if op == 0x2f
    then word (bit_or b a)
    else if op == 0x30
    then word (bit_xor b a)
    else if op == 0x32
    then shift a (b * 2 ^ a % u32_mod)
    else if op == 0x33
    then shift a (shift_signed b a)
    else if op == 0x34
    then shift a (b / 2 ^ a)
    else no_instruction

-- 0x23 to 0x25 and 0x31: SEX8 SEX16 NEGI BCOM
pub unary : ℕ → ℕ → Computed
unary op a =
    if op == 0x23
    then word (if leb 128 (a % 256) then u32_mod - 256 + a % 256 else a % 256)
    else if op == 0x24
    then word (if leb 32768 (a % 65536) then u32_mod - 65536 + a % 65536 else a % 65536)
    else if op == 0x25
    then word (neg32 a)
    else if op == 0x31
    then word (u32_mod - 1 - a)
    else no_instruction

-- 0x0b to 0x14, whether the branch is taken: EQ NE LTI LEI GTI GEI LTU LEU GTU GEU
pub compares : ℕ → ℕ → ℕ → Bool
compares op a b =
    if op == 0x0b
    then b == a
    else if op == 0x0c
    then not (b == a)
    else if op == 0x0d
    then lt_signed b a
    else if op == 0x0e
    then not (lt_signed a b)
    else if op == 0x0f
    then lt_signed a b
    else if op == 0x10
    then not (lt_signed b a)
    else if op == 0x11
    then ltb b a
    else if op == 0x12
    then leb b a
    else if op == 0x13
    then ltb a b
    else leb a b
