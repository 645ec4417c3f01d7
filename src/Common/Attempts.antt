-- ===== src/Common/Attempts.antt =====
-- A call that returns a value, or that throws with the errors of a validation.
use Prim.Native.String.{String}
use mathlib.Core.Path.{◌≡◌, refl}
use mathlib.Core.Logic.{◌⊎◌, inl, inr}
use mathlib.Core.List.{List}
use native.Mathlib.Omega.{arith}

pub data Attempt {ℓ} (A : Type ℓ) : Type ℓ where
  made : A → Attempt A
  thrown : List String → Attempt A

module _ {ℓ} {A : Type ℓ} where
  -- To split on the outcome of a call and keep the equation.
  pub Attempt-cases :
      (r : Attempt A) → ((es : List String) × (r ≡ thrown es)) ⊎ ((a : A) × (r ≡ made a))
  Attempt-cases (made a) = inr (a, refl)
  Attempt-cases (thrown es) = inl (es, refl)

  pub made_value : {a b : A} → made a ≡ made b → a ≡ b
  made_value e = ground arith

  pub thrown-ne-made : (es : List String) (a : A) → thrown es ≡ made a → ⊥
  thrown-ne-made es a e = cc
