-- ===== src/Prelude/Outcome.antt =====
-- Results of code that raises, and chains of them.
use mathlib.Core.Path.{◌≡◌, refl}
use mathlib.Core.Logic.{◌⊎◌, inl, inr}
use mathlib.Core.Bool.{Bool, true, false}

-- A value, or the exception that is raised.
pub data Result {ℓ κ} (E : Type ℓ) (A : Type κ) : Type (ℓ ⊔ κ) where
  ok : A → Result E A
  err : E → Result E A

module _ {ℓ κ τ} {E : Type ℓ} {A : Type κ} {B : Type τ} where
  infixl 5 ◌>>=◌
  abbrev pub ◌>>=◌ : Result E A → (A → Result E B) → Result E B
  step >>= next = elim step [ err reason ↦ err reason | ok value ↦ next value ]

  -- A chain returns only through a value of its first step.
  pub >>=-eq-ok :
      {result : B} (step : Result E A) (next : A → Result E B)
      → (step >>= next) ≡ ok result
      → (value : A) × (step ≡ ok value) × (next value ≡ ok result)
  >>=-eq-ok (err reason) next e = absurd (cc)
  >>=-eq-ok (ok value) next e = (value, refl, e)

  -- A chain raises what its first step raises, or what follows a value of it.
  pub >>=-eq-err :
      {reason : E} (step : Result E A) (next : A → Result E B)
      → (step >>= next) ≡ err reason
      → (step ≡ err reason) ⊎ ((value : A) × (step ≡ ok value) × (next value ≡ err reason))
  >>=-eq-err (err other) next e = inl (cc)
  >>=-eq-err (ok value) next e = inr (value, refl, e)

infixl 5 ◌>>◌
abbrev pub ◌>>◌ {ℓ κ} : {E : Type ℓ} {B : Type κ} → Result E (Unit {0}) → Result E B → Result E B
check >> next = check >>= λ _. next

-- Raise `reason` unless the test holds.
abbrev pub require {ℓ} : {E : Type ℓ} → Bool → E → Result E (Unit {0})
require false reason = err reason
require true reason = ok tt

pub ok-injective {ℓ κ} :
    (E : Type ℓ) {A : Type κ} {a b : A} → ◌≡◌ {A = Result E A} (ok a) (ok b) → a ≡ b
ok-injective E e = cc
