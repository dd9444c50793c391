-- ===== src/Capl/Names/Steps.antt =====
-- The steps of `re.sub` of a whole word, and of the scanner.
use mathlib.Core.List.{append-nil}
use automotive_testing_frame.Prelude.{
  ℕ, zero, suc, ◌≡◌, refl, ap, sym, ◌∙◌, true, false, Option, none, some, [], ◌∷◌, ◌++◌, arith,
  Bool-cases, inl, inr,
}
use automotive_testing_frame.Prelude.Texts.{Text, codes}
use automotive_testing_frame.Prelude.Bytes.{bytes_eq, bytes_eq_sound}
use automotive_testing_frame.Regex.{is_word, word_after, sub_from, match_at, Place}
use automotive_testing_frame.Regex.Words.{all_in, place}
use automotive_testing_frame.Capl.Patterns.{whole_word}
use automotive_testing_frame.Capl.Names.{attribute, rename, run_of, rest_of}
use automotive_testing_frame.Capl.Names.Matching.{after_prefix, whole}
use automotive_testing_frame.Capl.Names.Words.{run-rest, rest-stops, after_prefix-append}

-- A name of one or more word characters.
module _ (n : ℕ) (w : Text) (word : all_in is_word (n ∷ w) ≡ true) where
  abbrev pub name : Text
  name = n ∷ w

  abbrev pub go : ℕ → Option ℕ → Text → Text
  go fuel before s = sub_from fuel (whole_word name) (λ groups. codes "self." ++ name) before s

  -- What is left of the scanner's result at the end of a word.
  abbrev pub tail : Text → Text
  tail [] = []
  tail (c ∷ s) = c ∷ rename name [] s

  pub rename-tail :
      (u s : Text) → word_after s ≡ false → rename name u s ≡ attribute name u ++ tail s
  unfolding rename
  rename-tail u [] h = sym (append-nil (attribute name u))
  rename-tail u (c ∷ s) h = rw (h) refl

  pub go-skips :
      (fuel : ℕ) (before : Option ℕ) (c : ℕ) (s : Text)
      → match_at (whole_word name) before (c ∷ s) ≡ none
      → go (suc fuel) before (c ∷ s) ≡ c ∷ go fuel (some c) s
  unfolding sub_from
  go-skips fuel before c s h = rw (sub_from, h) refl

  pub go-replaces :
      (fuel : ℕ) (before : Option ℕ) (c : ℕ) (s : Text) (p : Place)
      → match_at (whole_word name) before (c ∷ s) ≡ some p
      → go (suc fuel) before (c ∷ s) ≡ (codes "self." ++ name) ++ go fuel p.before p.rest
  unfolding sub_from
  go-replaces fuel before c s p h = rw (sub_from, h) refl

  pub go-end : (fuel : ℕ) (before : Option ℕ) → go fuel before [] ≡ []
  unfolding sub_from
  go-end zero before = refl
  go-end (suc fuel) before = refl

  pub attribute_empty : attribute name [] ≡ []
  unfolding bytes_eq
  attribute_empty = refl

  -- A word that is the name.
  pub name_first :
      (s : Text) → bytes_eq (run_of s) name ≡ true → after_prefix name s ≡ some (rest_of s)
  name_first s same =
      let begins = run-rest s ∙ ap (λ x. x ++ rest_of s) (bytes_eq_sound (run_of s) name same) in
      ap (after_prefix name) begins ∙ after_prefix-append name (rest_of s)

  pub whole-none :
      (before : Option ℕ) (s : Text)
      → whole before (after_prefix name s) ≡ none
      → bytes_eq (run_of s) name ≡ false
  whole-none before s h = elim (Bool-cases (bytes_eq (run_of s) name)) [
    | inr other ↦ other
    | inl same ↦
        let bad = sym (ap (whole before) (name_first s same)) ∙ h in
        ground (arith, bad, rest-stops s)
  ]

  pub whole-some :
      (before : Option ℕ) (o : Option Text) (p : Place)
      → whole before o ≡ some p
      → (t : Text) × (o ≡ some t) × (word_after t ≡ false) × (p ≡ place before t [])
  whole-some before none p h = cc
  whole-some before (some t) p h = (t, refl, ground (arith, h), ground (arith, h))
