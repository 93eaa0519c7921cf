-- ===== src/Base64/Bits.antt =====
-- The words of `base64_encode` and `base64_decode`: which of their bits are written.
use boris.Prelude.{ℕ, ◌+◌, ◌*◌, ◌/◌, ◌%◌, ◌^◌, ◌<◌, ◌≡◌, arith}

-- a word with a byte put behind it
abbrev pub with_byte : ℕ → ℕ → ℕ
with_byte v c = (v * 256 + c) % 2 ^ 32

-- a word with six bits put behind it
abbrev pub with_six : ℕ → ℕ → ℕ
with_six v n = (v * 64 + n) % 2 ^ 32

module _ (v a b c : ℕ) (ha : a < 256) (hb : b < 256) (hc : c < 256) where
  low1 : with_byte v a % 256 ≡ a
  low1 = omega arith

  low2 : with_byte (with_byte v a) b % 65536 ≡ a * 256 + b
  low2 = omega (arith, low1)

  low3 : with_byte (with_byte (with_byte v a) b) c % 16777216 ≡ a * 65536 + b * 256 + c
  low3 = omega (arith, low2)

  pub six1 : with_byte v a / 2 ^ 2 % 64 ≡ a / 4
  six1 = omega (arith, low1)

  pub six2 : with_byte (with_byte v a) b / 2 ^ 4 % 64 ≡ a % 4 * 16 + b / 16
  six2 = omega (arith, low2)

  pub six3 : with_byte (with_byte (with_byte v a) b) c / 2 ^ 6 % 64 ≡ b % 16 * 4 + c / 64
  six3 = omega (arith, low3)

  pub six4 : with_byte (with_byte (with_byte v a) b) c / 2 ^ 0 % 64 ≡ c % 64
  six4 = omega (arith, low3)

  pub last1 : with_byte v a * 2 ^ 4 % 2 ^ 32 % 64 ≡ a % 4 * 16
  last1 = omega (arith, low1)

  pub last2 : with_byte (with_byte v a) b * 2 ^ 2 % 2 ^ 32 % 64 ≡ b % 16 * 4
  last2 = omega (arith, low2)

module _ (w n1 n2 n3 n4 : ℕ) (h1 : n1 < 64) (h2 : n2 < 64) (h3 : n3 < 64) (h4 : n4 < 64) where
  low6 : with_six w n1 % 64 ≡ n1
  low6 = omega arith

  low12 : with_six (with_six w n1) n2 % 4096 ≡ n1 * 64 + n2
  low12 = omega (arith, low6)

  low18 : with_six (with_six (with_six w n1) n2) n3 % 262144 ≡ n1 * 4096 + n2 * 64 + n3
  low18 = omega (arith, low12)

  pub byte1 : with_six (with_six w n1) n2 / 2 ^ 4 % 256 ≡ n1 * 4 + n2 / 16
  byte1 = omega (arith, low12)

  pub byte2 : with_six (with_six (with_six w n1) n2) n3 / 2 ^ 2 % 256 ≡ n2 % 16 * 16 + n3 / 4
  byte2 = omega (arith, low18)

  pub byte3 :
      with_six (with_six (with_six (with_six w n1) n2) n3) n4 / 2 ^ 0 % 256 ≡ n3 % 4 * 64 + n4
  byte3 = omega (arith, low18)
