-- ===== src/VectorCast/Attempts.antt =====
-- Code that changes a state and may raise, where the changes before the exception stay.
use automotive_testing_frame.VectorCast.{Element, Fault}
use automotive_testing_frame.Prelude.{
  Option, none, some, List, [], ◌∷◌, if◌then◌else◌, Result, ok, err,
}

-- The state after the code, and what it raised, if anything.
abbrev pub Attempt {ℓ} : Type ℓ → Type ℓ
Attempt S = S → S × Option Fault

infixr 6 ◌then◌
unfoldable pub ◌then◌ {ℓ} : {S : Type ℓ} → Attempt S → Attempt S → Attempt S
(a then b) s = elim (a s).1 [ none ↦ b (a s).0 | some f ↦ ((a s).0, some f) ]

abbrev pub skip {ℓ} : {S : Type ℓ} → Attempt S
skip s = (s, none)

unfoldable pub for_each {ℓ κ} : {A : Type κ} {S : Type ℓ} → (A → Attempt S) → List A → Attempt S
for_each body [] = skip
for_each body (x ∷ xs) = body x then for_each body xs

-- `s += value`, where computing the value may raise.
abbrev pub add_value {ℓ} : {V : Type 0} {S : Type ℓ} → Result Fault V → (V → S → S) → Attempt S
add_value (ok v) add s = (add v s, none)
add_value (err f) add s = (s, some f)

-- The body of `if e is not None`
abbrev pub if_found {ℓ} : {S : Type ℓ} → Option Element → (Element → Attempt S) → Attempt S
if_found none body = skip
if_found (some e) body = body e
