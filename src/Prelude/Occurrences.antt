-- ===== src/Prelude/Occurrences.antt =====
-- How often a number stands among the first entries of an array.
use Prim.Native.Nat.{ℕ, zero, suc, ◌+◌, ◌≤◌, ◌<◌}
use mathlib.Core.Path.{◌≡◌, refl, ap}
use mathlib.Core.Logic.{inl, inr}
use mathlib.Core.List.{List, [], ◌∷◌, ◌++◌}
use native.Mathlib.Omega.{arith}
use boris.Prelude.Tests.{ltb, ◌==◌, if◌then◌else◌, Bool-cases}
use boris.Prelude.Lists.{length, get_or, set, take, get_or-set}

abbrev pub once : ℕ → ℕ → ℕ
once k x = if k == x then 1 else 0

unfoldable pub occurrences : List ℕ → ℕ → ℕ → ℕ
occurrences xs zero x = 0
occurrences xs (suc n) x = occurrences xs n x + once (get_or xs n 0) x

pub occurrences-set_outside :
    (xs : List ℕ) (n i v x : ℕ)
    → i < length xs
    → n ≤ i
    → occurrences (set xs i v) n x ≡ occurrences xs n x
unfolding occurrences
occurrences-set_outside xs zero i v x h k = refl
occurrences-set_outside xs (suc n) i v x h k =
    ground (arith, get_or-set xs i n v 0, occurrences-set_outside xs n i v x)

-- what a write takes out and puts in
pub occurrences-set :
    (xs : List ℕ) (n i v x : ℕ)
    → i < length xs
    → i < n
    → occurrences (set xs i v) n x + once (get_or xs i 0) x ≡ occurrences xs n x + once v x
unfolding occurrences
occurrences-set xs zero i v x h k = absurd (omega arith)
occurrences-set xs (suc n) i v x h k =
    ground
      (arith, get_or-set xs i n v 0, occurrences-set xs n i v x, occurrences-set_outside xs n i v x)

pub occurrences_pos : (xs : List ℕ) (n i : ℕ) → i < n → 0 < occurrences xs n (get_or xs i 0)
unfolding occurrences
occurrences_pos xs zero i h = absurd (omega arith)
occurrences_pos xs (suc n) i h = ground (arith, occurrences_pos xs n i)

-- a bound on all entries is one on all keys held
pub occurrences_bound :
    (xs : List ℕ) (n k x : ℕ)
    → ((i : ℕ) → i < n → k ≤ get_or xs i 0)
    → 0 < occurrences xs n x
    → k ≤ x
unfolding occurrences
occurrences_bound xs zero k x f h = absurd (omega arith)
occurrences_bound xs (suc n) k x f h =
    ground (arith, f n, occurrences_bound xs n k x (λ i p. f i (omega arith)))

-- the entries left behind when the one at `i` is cut out and the last one takes its place
pub replaced :
    (xs : List ℕ) (len i x : ℕ)
    → i < suc len
    → suc len ≤ length xs
    → occurrences (set xs i (get_or xs len 0)) len x + once (get_or xs i 0) x
      ≡ occurrences xs (suc len) x
unfolding occurrences
replaced xs len i x h k = elim (Bool-cases (ltb i len)) [
  | inl lt ↦ ground (arith, occurrences-set xs len i (get_or xs len 0) x)
  | inr ge ↦
      let e : i ≡ len = ground arith in
      rw e (ground (arith, occurrences-set_outside xs len len (get_or xs len 0) x))
]

pub get_or-append_last :
    (xs : List ℕ) (n j v : ℕ)
    → n ≤ length xs
    → j ≤ n
    → get_or (take n xs ++ v ∷ []) j 0 ≡ (if j == n then v else get_or xs j 0)
get_or-append_last xs zero zero v h k = refl
get_or-append_last xs zero (suc j) v h k = absurd (omega arith)
get_or-append_last [] (suc n) j v h k = absurd (omega arith)
get_or-append_last (x ∷ xs) (suc n) zero v h k = ground arith
get_or-append_last (x ∷ xs) (suc n) (suc j) v h k =
    ground (arith, get_or-append_last xs n j v (omega arith))

occurrences-append_prefix :
    (xs : List ℕ) (n m v x : ℕ)
    → n ≤ length xs
    → m ≤ n
    → occurrences (take n xs ++ v ∷ []) m x ≡ occurrences xs m x
unfolding occurrences
occurrences-append_prefix xs n zero v x h k = refl
occurrences-append_prefix xs n (suc m) v x h k =
    ground (arith, get_or-append_last xs n m v, occurrences-append_prefix xs n m v x)

-- one more entry behind the first `n`
pub occurrences-append_last :
    (xs : List ℕ) (n v x : ℕ)
    → n ≤ length xs
    → occurrences (take n xs ++ v ∷ []) (suc n) x ≡ occurrences xs n x + once v x
unfolding occurrences
occurrences-append_last xs n v x h =
    ground (arith, get_or-append_last xs n n v, occurrences-append_prefix xs n n v x)

pub occurrences_next :
    (xs : List ℕ) (n x : ℕ) → occurrences xs (n + 1) x ≡ occurrences xs n x + once (get_or xs n 0) x
unfolding occurrences
occurrences_next xs n x =
    let e : n + 1 ≡ suc n = omega arith in ap (λ (m : ℕ). occurrences xs m x) e
