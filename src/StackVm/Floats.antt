-- ===== src/StackVm/Floats.antt =====
-- `vmsingle_t` is C's `float`, which is not modelled: a value is its bit pattern, and the operations
-- are those of the host. NAN is one pattern. `to_word` is `none` for a value that is out of the range of
-- `vmword_t`, whose conversion C leaves undefined.
use boris.Prelude.{ℕ, Bool, Option}

pub record Floats : Type 0 where
  pub nan : ℕ
  pub eq : ℕ → ℕ → Bool
  pub lt : ℕ → ℕ → Bool
  pub le : ℕ → ℕ → Bool
  pub neg : ℕ → ℕ
  pub add : ℕ → ℕ → ℕ
  pub sub : ℕ → ℕ → ℕ
  pub div : ℕ → ℕ → ℕ
  pub mul : ℕ → ℕ → ℕ
  pub of_word : ℕ → ℕ
  pub to_word : ℕ → Option ℕ
