-- ===== src/Prelude/Results.antt =====
-- The outcome of Python code that may raise: a value, or the exception.
use mathlib.Core.Option.{Option, none, some}
use mathlib.Core.Path.{◌≡◌, refl}
use mathlib.Core.Logic.{◌⊎◌, inl, inr}

pub data Result {ℓ} (E A : Type ℓ) : Type ℓ where
  ok : A → Result E A
  err : E → Result E A

module _ {ℓ} {E : Type ℓ} where
  infixl 5 ◌>>=◌
  abbrev pub ◌>>=◌ : {A B : Type ℓ} → Result E A → (A → Result E B) → Result E B
  ok a >>= f = f a
  err e >>= f = err e

-- The value of an `Option`, or the exception that its absence raises.
abbrev pub or_raise {ℓ} : {E A : Type ℓ} → E → Option A → Result E A
or_raise e none = err e
or_raise e (some a) = ok a

-- To split on a computed outcome and keep the equation.
pub Result-cases {ℓ} :
    {E A : Type ℓ} (r : Result E A) → ((a : A) × (r ≡ ok a)) ⊎ ((e : E) × (r ≡ err e))
Result-cases (ok a) = inl (a, refl)
Result-cases (err e) = inr (e, refl)
