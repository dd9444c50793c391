-- ===== src/Regex/Scans.antt =====
-- `finditer` and `sub` without fuel, as relations, and that the fuel given is enough.
use automotive_testing_frame.Prelude.{
  ℕ, zero, suc, ◌≤◌, ◌≡◌, inl, inr, true, Option, none, some, List, [], ◌∷◌, ◌++◌, arith, length,
  Option-cases,
}
use automotive_testing_frame.Prelude.Texts.{Text}
use mathlib.Core.Option.{Option}
use automotive_testing_frame.Regex.{Regex, Place, match_at, find_from, find_iter, sub_from, sub}
use automotive_testing_frame.Regex.Progress.{consumes, match_at-shorter}

-- The groups of the matches in a text, up to its end.
pub data Finds (r : Regex) : Option ℕ → Text → List (List Text) → Type 0 where
  done : {before : Option ℕ} → Finds r before [] []
  hit :
      {before : Option ℕ} {c : ℕ} {s : Text} {p : Place} {found : List (List Text)}
      → match_at r before (c ∷ s) ≡ some p
      → Finds r p.before p.rest found
      → Finds r before (c ∷ s) (p.groups ∷ found)
  miss :
      {before : Option ℕ} {c : ℕ} {s : Text} {found : List (List Text)}
      → match_at r before (c ∷ s) ≡ none
      → Finds r (some c) s found
      → Finds r before (c ∷ s) found

-- The text with each match replaced, up to its end.
pub data Replaces (r : Regex) (f : List Text → Text) : Option ℕ → Text → Text → Type 0 where
  done : {before : Option ℕ} → Replaces r f before [] []
  hit :
      {before : Option ℕ} {c : ℕ} {s : Text} {p : Place} {t : Text}
      → match_at r before (c ∷ s) ≡ some p
      → Replaces r f p.before p.rest t
      → Replaces r f before (c ∷ s) (f p.groups ++ t)
  miss :
      {before : Option ℕ} {c : ℕ} {s t : Text}
      → match_at r before (c ∷ s) ≡ none
      → Replaces r f (some c) s t
      → Replaces r f before (c ∷ s) (c ∷ t)

find_from-Finds :
    (fuel : ℕ) (r : Regex) (before : Option ℕ) (s : Text)
    → consumes r ≡ true
    → length s ≤ fuel
    → Finds r before s (find_from fuel r before s)
unfolding find_from
find_from-Finds zero r before [] c enough = Finds.done
find_from-Finds zero r before (d ∷ s) c enough = absurd (omega arith)
find_from-Finds (suc fuel) r before [] c enough = Finds.done
find_from-Finds (suc fuel) r before (d ∷ s) c enough =
    elim (Option-cases (match_at r before (d ∷ s))) [
      | inl none_eq ↦
          rw (find_from, none_eq)
            (Finds.miss none_eq (find_from-Finds fuel r (some d) s c (omega arith)))
      | inr (p, match_eq) ↦
          rw (find_from, match_eq)
            (Finds.hit match_eq (
              find_from-Finds fuel r p.before p.rest c
                (omega (arith, match_at-shorter r before (d ∷ s) p c match_eq))))
    ]

sub_from-Replaces :
    (fuel : ℕ) (r : Regex) (f : List Text → Text) (before : Option ℕ) (s : Text)
    → consumes r ≡ true
    → length s ≤ fuel
    → Replaces r f before s (sub_from fuel r f before s)
unfolding sub_from
sub_from-Replaces zero r f before [] c enough = Replaces.done
sub_from-Replaces zero r f before (d ∷ s) c enough = absurd (omega arith)
sub_from-Replaces (suc fuel) r f before [] c enough = Replaces.done
sub_from-Replaces (suc fuel) r f before (d ∷ s) c enough =
    elim (Option-cases (match_at r before (d ∷ s))) [
      | inl none_eq ↦
          rw (sub_from, none_eq)
            (Replaces.miss none_eq (sub_from-Replaces fuel r f (some d) s c (omega arith)))
      | inr (p, match_eq) ↦
          rw (sub_from, match_eq)
            (Replaces.hit match_eq (
              sub_from-Replaces fuel r f p.before p.rest c
                (omega (arith, match_at-shorter r before (d ∷ s) p c match_eq))))
    ]

-- The loops of finditer and of sub end at the end of the text, whatever it is, for a pattern that
-- consumes something: their fuel is enough.
pub scans_end :
    (r : Regex) (f : List Text → Text) (s : Text)
    → consumes r ≡ true
    → Finds r none s (find_iter r s) × Replaces r f none s (sub r f s)
scans_end r f s c = (
  find_from-Finds (length s) r none s c (omega arith),
  sub_from-Replaces (length s) r f none s c (omega arith),
)
