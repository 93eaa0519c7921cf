-- ===== src/StackVm/Arith/Defined.antt =====
-- Which instructions on words C defines for all words.
use boris.Prelude.{ℕ, ◌≡◌, ◌≢◌, false, ◌==◌, arith}
use boris.StackVm.Arith.{Computed, arithmetic, bitwise, unary}
use boris.StackVm.Arith

-- a result that C defines
abbrev pub IsDefined : Computed → Type 0
IsDefined c = c ≢ Arith.undefined

pub unary-IsDefined : (op a : ℕ) → IsDefined (unary op a)
unfolding unary
unary-IsDefined op a e = ground arith

-- DIVI and MODI excepted
pub arithmetic-IsDefined :
    (op a b : ℕ) → op == 0x28 ≡ false → op == 0x2a ≡ false → IsDefined (arithmetic op a b)
unfolding arithmetic
arithmetic-IsDefined op a b h k e = ground arith

-- the shifts excepted
pub bitwise-IsDefined :
    (op a b : ℕ)
    → op == 0x32 ≡ false
    → op == 0x33 ≡ false
    → op == 0x34 ≡ false
    → IsDefined (bitwise op a b)
unfolding bitwise
bitwise-IsDefined op a b h k l e = ground arith
