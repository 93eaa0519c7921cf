-- ===== src/Prelude/Decimal.antt =====
-- Decimal numbers of ten digits: a library with which the properties of records can be run.
use Prim.Native.Nat.{ℕ, ◌+◌, ◌-◌, ◌*◌, ◌/◌, ◌%◌, ◌^◌, ◌<◌}
use mathlib.Core.Path.{◌≡◌, ap, sym, ◌∙◌}
use mathlib.Core.Bool.{true}
use mathlib.Core.List.{[], ◌∷◌}
use native.Mathlib.Omega.{arith}
use boris.Prelude.Lists.{All}
use boris.Prelude.Ctype.{Bytes, isdigit}

-- a library that prints ten digits, and reads them
unfoldable pub ten_digits : ℕ → Bytes
ten_digits n =
    (n / 1000000000 % 10 + 48)
    ∷ (n / 100000000 % 10 + 48)
    ∷ (n / 10000000 % 10 + 48)
    ∷ (n / 1000000 % 10 + 48)
    ∷ (n / 100000 % 10 + 48)
    ∷ (n / 10000 % 10 + 48)
    ∷ (n / 1000 % 10 + 48)
    ∷ (n / 100 % 10 + 48)
    ∷ (n / 10 % 10 + 48)
    ∷ (n % 10 + 48)
    ∷ []

unfoldable pub number : Bytes → ℕ → ℕ
number [] n = n
number (c ∷ s) n = number s (10 * n + (c - 48))

unfoldable pub read_digits : Bytes → ℕ × Bytes
read_digits s = (number s 0, [])

add-sub_digit : (d : ℕ) → d + 48 - 48 ≡ d
add-sub_digit d = omega arith

pub digits_back : (n : ℕ) → n < 2 ^ 32 → number (ten_digits n) 0 ≡ n
unfolding ten_digits number
digits_back n h = simp add-sub_digit (omega (arith, h))

isdigit_digit : (n : ℕ) → isdigit (n % 10 + 48) ≡ true
isdigit_digit n = ground arith

pub ten_digits-isdigit : (n : ℕ) → All (λ c. isdigit c ≡ true) (ten_digits n)
unfolding ten_digits
ten_digits-isdigit n = (
  isdigit_digit (n / 1000000000),
  (
    isdigit_digit (n / 100000000),
    (
      isdigit_digit (n / 10000000),
      (
        isdigit_digit (n / 1000000),
        (
          isdigit_digit (n / 100000),
          (
            isdigit_digit (n / 10000),
            (
              isdigit_digit (n / 1000),
              (isdigit_digit (n / 100), (isdigit_digit (n / 10), (isdigit_digit n, tt))),
            ),
          ),
        ),
      ),
    ),
  ),
)

pub ten_digits_injective : (m n : ℕ) → m < 2 ^ 32 → n < 2 ^ 32 → ten_digits m ≡ ten_digits n → m ≡ n
ten_digits_injective m n h k e = sym (digits_back m h) ∙ ap (λ s. number s 0) e ∙ digits_back n k
