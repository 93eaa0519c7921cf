-- ===== src/Prelude/Bits.antt =====
-- Facts on `bit_or` and on rounding up to a power of two with it.
use Prim.Native.Nat.{ℕ, zero, suc, ◌+◌, ◌/◌, ◌^◌, ◌≤◌, ◌<◌, max, digits, bit_or, bit_or-bitwise}
use native.Mathlib.Nat.{two-pow-succ, div-le_self}
use mathlib.Core.Path.{◌≡◌}
use native.Mathlib.Omega.{arith}

abbrev or_digits : ℕ → ℕ → ℕ → ℕ
or_digits n a b = digits (λ b. b) max n a b

le-or_digits : (n a b : ℕ) → a ≤ n → a ≤ or_digits n a b
le-or_digits n zero b h = omega arith
le-or_digits zero (suc a) b h = absurd (omega arith)
le-or_digits (suc n) (suc a) b h = omega (arith, le-or_digits n (suc a / 2) (b / 2) (omega arith))

-- `bit_or` sets no bit to 0
pub le-bit_or : (a b : ℕ) → a ≤ bit_or a b
le-bit_or a b = omega (arith, bit_or-bitwise a b, le-or_digits a a b (omega arith))

or_digits-lt : (n k a b : ℕ) → a < 2 ^ k → b < 2 ^ k → or_digits n a b < 2 ^ k
or_digits-lt zero k a b h l = l
or_digits-lt (suc n) k zero b h l = l
or_digits-lt (suc n) zero (suc a) b h l = absurd (omega arith)
or_digits-lt (suc n) (suc k) (suc a) b h l =
    let twice : 2 ^ suc k ≡ 2 ^ k + 2 ^ k = two-pow-succ k in
    omega (
      arith,
      twice,
      h,
      l,
      or_digits-lt n k (suc a / 2) (b / 2) (omega (arith, twice, h)) (omega (arith, twice, l)),
    )

-- and none above those of the two numbers to 1
pub bit_or-lt : (k a b : ℕ) → a < 2 ^ k → b < 2 ^ k → bit_or a b < 2 ^ k
bit_or-lt k a b h l = omega (arith, bit_or-bitwise a b, or_digits-lt a k a b h l)

-- `n |= n >> shift`
abbrev pub smear : ℕ → ℕ → ℕ
smear n shift = bit_or n (n / 2 ^ shift)

smear-lt : (k n shift : ℕ) → n < 2 ^ k → smear n shift < 2 ^ k
smear-lt k n shift h = bit_or-lt k n (n / 2 ^ shift) h (omega (arith, h, div-le_self n (2 ^ shift)))

-- the five steps that copy the highest bit to all bits below it
abbrev pub smeared : ℕ → ℕ
smeared n = smear (smear (smear (smear (smear n 1) 2) 4) 8) 16

pub le-smeared : (n : ℕ) → n ≤ smeared n
le-smeared n =
    let a = smear n 1 in
    let b = smear a 2 in
    let c = smear b 4 in
    let d = smear c 8 in
    omega (
      arith,
      le-bit_or n (n / 2 ^ 1),
      le-bit_or a (a / 2 ^ 2),
      le-bit_or b (b / 2 ^ 4),
      le-bit_or c (c / 2 ^ 8),
      le-bit_or d (d / 2 ^ 16),
    )

pub smeared-lt : (k n : ℕ) → n < 2 ^ k → smeared n < 2 ^ k
smeared-lt k n h =
    smear-lt k _ 16 (smear-lt k _ 8 (smear-lt k _ 4 (smear-lt k _ 2 (smear-lt k n 1 h))))
