-- ===== src/Prelude/Returning.antt =====
-- Calls that return a value or end the process by `abort()`.
use mathlib.Core.Path.{◌≡◌, refl, subst}

pub data Outcome {ℓ} (A : Type ℓ) : Type ℓ where
  ok : A → Outcome A
  died : Outcome A

abbrev pub map_ok {ℓ κ} : {A : Type ℓ} {B : Type κ} → (A → B) → Outcome A → Outcome B
map_ok f (ok a) = ok (f a)
map_ok f died = died

-- The call returns, with a result that has the property.
abbrev pub Returns {ℓ} : {A : Type ℓ} → (A → Type 0) → Outcome A → Type 0
Returns P (ok a) = P a
Returns P died = ⊥

module _ {ℓ} {A : Type ℓ} where
  pub Returns-ok : (P : A → Type 0) (r : Outcome A) → Returns P r → (a : A) × (r ≡ ok a) × P a
  Returns-ok P (ok a) h = (a, refl, h)
  Returns-ok P died h = absurd h

  pub Returns-at : (P : A → Type 0) {r : Outcome A} {a : A} → r ≡ ok a → Returns P r → P a
  Returns-at P e h = subst (Returns P) e h

  pub Returns-map_ok {κ} :
      {B : Type κ} (P : B → Type 0) (f : A → B) (r : Outcome A)
      → Returns (λ a. P (f a)) r
      → Returns P (map_ok f r)
  Returns-map_ok P f (ok a) h = h
  Returns-map_ok P f died h = h

  pub Returns-map :
      (P Q : A → Type 0) (r : Outcome A) → ((a : A) → P a → Q a) → Returns P r → Returns Q r
  Returns-map P Q (ok a) f h = f a h
  Returns-map P Q died f h = h
