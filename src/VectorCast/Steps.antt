-- ===== src/VectorCast/Steps.antt =====
-- What an attempt adds and raises, where neither depends on the state before it.
use automotive_testing_frame.VectorCast.{Element, Fault}
use automotive_testing_frame.VectorCast.Attempts.{Attempt, ◌then◌, for_each, add_value, if_found}
use automotive_testing_frame.Prelude.{
  ◌≡◌, refl, sym, ap, ◌∙◌, inl, inr, Option, none, some, List, [], ◌∷◌, if◌then◌else◌, Result, ok,
  err, Option-cases,
}

-- An attempt only adds to the state: what it adds, and what it raises, do not depend on it.
abbrev pub Shifts {ℓ} : {S : Type ℓ} → (S → S → S) → Attempt S → Type ℓ
Shifts {S = S} plus a = (c d : S) → a (plus c d) ≡ (plus c (a d).0, (a d).1)

-- What an attempt raises does not depend on the state.
abbrev pub IsSteady {ℓ} : {S : Type ℓ} → Attempt S → Type ℓ
IsSteady {S = S} a = (c d : S) → (a c).1 ≡ (a d).1

pub then-none {ℓ} :
    {S : Type ℓ} (a b : Attempt S) (s : S) → (a s).1 ≡ none → (a then b) s ≡ b (a s).0
unfolding ◌then◌
then-none a b s e = rw (◌then◌, e) refl

pub then-some {ℓ} :
    {S : Type ℓ} (a b : Attempt S) (s : S) (f : Fault)
    → (a s).1 ≡ some f
    → (a then b) s ≡ ((a s).0, some f)
unfolding ◌then◌
then-some a b s f e = rw (◌then◌, e) refl

pub then-Shifts {ℓ} :
    {S : Type ℓ} (plus : S → S → S) (a b : Attempt S)
    → Shifts plus a
    → Shifts plus b
    → Shifts plus (a then b)
then-Shifts plus a b ha hb c d = elim (Option-cases (a d).1) [
  | inl e ↦
      then-none a b (plus c d) (ap (λ p. p.1) (ha c d) ∙ e)
      ∙ (ap (λ p. b p.0) (ha c d)
          ∙ (hb c (a d).0 ∙ sym (ap (λ p. (plus c p.0, p.1)) (then-none a b d e))))
  | inr (f, e) ↦
      then-some a b (plus c d) f (ap (λ p. p.1) (ha c d) ∙ e)
      ∙ (ap (λ p. (p.0, some f)) (ha c d) ∙ sym (ap (λ p. (plus c p.0, p.1)) (then-some a b d f e)))
]

pub for_each-Shifts {ℓ κ} :
    {A : Type κ} {S : Type ℓ} (plus : S → S → S) (body : A → Attempt S)
    → ((x : A) → Shifts plus (body x))
    → (xs : List A) → Shifts plus (for_each body xs)
unfolding for_each
for_each-Shifts plus body h [] c d = refl
for_each-Shifts plus body h (x ∷ xs) c d =
    then-Shifts plus (body x) (for_each body xs) (h x) (for_each-Shifts plus body h xs) c d

pub add_value-Shifts {ℓ} :
    {V : Type 0} {S : Type ℓ} (plus : S → S → S) (r : Result Fault V) (add : V → S → S)
    → ((v : V) (c d : S) → add v (plus c d) ≡ plus c (add v d))
    → Shifts plus (add_value r add)
add_value-Shifts plus (ok v) add h c d = ap (λ s. (s, none)) (h v c d)
add_value-Shifts plus (err f) add h c d = refl

pub if_found-Shifts {ℓ} :
    {S : Type ℓ} (plus : S → S → S) (o : Option Element) (body : Element → Attempt S)
    → ((e : Element) → Shifts plus (body e))
    → Shifts plus (if_found o body)
if_found-Shifts plus none body h c d = refl
if_found-Shifts plus (some e) body h c d = h e c d

pub then-IsSteady {ℓ} :
    {S : Type ℓ} (a b : Attempt S) → IsSteady a → IsSteady b → IsSteady (a then b)
then-IsSteady a b ha hb c d = elim (Option-cases (a d).1) [
  | inl e ↦
      ap (λ p. p.1) (then-none a b c (ha c d ∙ e))
      ∙ (hb (a c).0 (a d).0 ∙ sym (ap (λ p. p.1) (then-none a b d e)))
  | inr (f, e) ↦
      ap (λ p. p.1) (then-some a b c f (ha c d ∙ e)) ∙ sym (ap (λ p. p.1) (then-some a b d f e))
]

pub for_each-IsSteady {ℓ κ} :
    {A : Type κ} {S : Type ℓ} (body : A → Attempt S)
    → ((x : A) → IsSteady (body x))
    → (xs : List A) → IsSteady (for_each body xs)
unfolding for_each
for_each-IsSteady body h [] c d = refl
for_each-IsSteady body h (x ∷ xs) c d =
    then-IsSteady (body x) (for_each body xs) (h x) (for_each-IsSteady body h xs) c d

pub add_value-IsSteady {ℓ} :
    {V : Type 0} {S : Type ℓ} (r : Result Fault V) (add : V → S → S) → IsSteady (add_value r add)
add_value-IsSteady (ok v) add c d = refl
add_value-IsSteady (err f) add c d = refl

pub if_found-IsSteady {ℓ} :
    {S : Type ℓ} (o : Option Element) (body : Element → Attempt S)
    → ((e : Element) → IsSteady (body e))
    → IsSteady (if_found o body)
if_found-IsSteady none body h c d = refl
if_found-IsSteady (some e) body h c d = h e c d
