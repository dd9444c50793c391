-- ===== src/Capl/Names/Renaming.antt =====
-- `re.sub` of a whole word against the scanner.
use automotive_testing_frame.Capl.Names.Steps.{
  go, tail, rename-tail, go-skips, go-replaces, go-end, attribute_empty, whole-none, whole-some,
}
use mathlib.Core.Path.{subst}
use mathlib.Core.List.{append-nil, append_assoc}
use automotive_testing_frame.Prelude.{
  ℕ, zero, suc, ◌≡◌, refl, ap, sym, ◌∙◌, true, false, Option, none, some, [], ◌∷◌, ◌++◌, arith, ◌≤◌,
  length, Bool-cases, inl, inr,
}
use automotive_testing_frame.Prelude.Texts.{Text, codes}
use automotive_testing_frame.Prelude.Bytes.{bytes_eq}
use automotive_testing_frame.Regex.{is_word, word_after, word_before, sub, Place}
use automotive_testing_frame.Regex.Words.{all_in, last_of}
use automotive_testing_frame.Capl.Patterns.{whole_word}
use automotive_testing_frame.Capl.Names.{rename, run_of}
use automotive_testing_frame.Capl.Names.Matching.{
  after_prefix, no_match-inside, no_match-outside, match-at_word, whole,
}
use automotive_testing_frame.Capl.Names.Words.{
  after_prefix_sound, length-after_prefix, rename-append, attribute_other, attribute_name,
}

-- A name of one or more word characters.
module _ (n : ℕ) (w : Text) (word : all_in is_word (n ∷ w) ≡ true) where
  -- Between two words, inside a word that is not the name, and at the end of a word.
  record IsRight (fuel : ℕ) : Type 0 where
    free :
        (before : Option ℕ) (s : Text)
        → word_before before ≡ false
        → length s ≤ fuel
        → go n w word fuel before s ≡ rename (n ∷ w) [] s
    inside :
        (before : Option ℕ) (u s : Text)
        → word_before before ≡ true
        → bytes_eq (u ++ run_of s) (n ∷ w) ≡ false
        → length s ≤ fuel
        → u ++ go n w word fuel before s ≡ rename (n ∷ w) u s
    ended :
        (before : Option ℕ) (s : Text)
        → word_after s ≡ false
        → length s ≤ fuel
        → go n w word fuel before s ≡ tail n w word s

  empty-inside :
      (fuel : ℕ) (before : Option ℕ) (u : Text)
      → bytes_eq (u ++ []) (n ∷ w) ≡ false
      → u ++ go n w word fuel before [] ≡ rename (n ∷ w) u []
  unfolding rename
  empty-inside fuel before u other =
      let whole_u : bytes_eq u (n ∷ w) ≡ false = rw (sym (append-nil u)) other in
      rw (go-end n w word fuel before) (append-nil u ∙ sym (attribute_other (n ∷ w) u whole_u))

  free-empty : (fuel : ℕ) (before : Option ℕ) → go n w word fuel before [] ≡ rename (n ∷ w) [] []
  unfolding rename
  free-empty fuel before = go-end n w word fuel before ∙ sym (attribute_empty n w word)

  ended-step :
      (fuel : ℕ) (before : Option ℕ) (c : ℕ) (s : Text)
      → IsRight fuel
      → is_word c ≡ false
      → length s ≤ fuel
      → go n w word (suc fuel) before (c ∷ s) ≡ c ∷ rename (n ∷ w) [] s
  ended-step fuel before c s right h le =
      let first : is_word n ≡ true = ground (arith, word) in
      go-skips n w word fuel before c s (no_match-outside n w before (c ∷ s) first h)
      ∙ ap (λ x. c ∷ x) (right.free (some c) s h le)

  inside-step :
      (fuel : ℕ) (before : Option ℕ) (u : Text) (c : ℕ) (s : Text)
      → IsRight fuel
      → word_before before ≡ true
      → bytes_eq (u ++ run_of (c ∷ s)) (n ∷ w) ≡ false
      → length s ≤ fuel
      → u ++ go n w word (suc fuel) before (c ∷ s) ≡ rename (n ∷ w) u (c ∷ s)
  unfolding rename
  inside-step fuel before u c s right b other le = elim (Bool-cases (is_word c)) [
    | inl h ↦
        let run : run_of (c ∷ s) ≡ c ∷ run_of s = rw (h) refl in
        let longer =
          ap (λ x. bytes_eq x (n ∷ w))
            (append_assoc u (c ∷ []) (run_of s) ∙ ap (λ x. u ++ x) (sym run))
          ∙ other in
        let skipped =
          go-skips n w word fuel before c s (no_match-inside (n ∷ w) before (c ∷ s) b h) in
        rw (h) (
          ap (λ x. u ++ x) skipped
          ∙ sym (append_assoc u (c ∷ []) (go n w word fuel (some c) s))
          ∙ right.inside (some c) (u ++ c ∷ []) s h longer le)
    | inr h ↦
        let run : run_of (c ∷ s) ≡ [] = rw (h) refl in
        let whole_u =
          ap (λ x. bytes_eq x (n ∷ w)) (sym (append-nil u) ∙ ap (λ x. u ++ x) (sym run)) ∙ other in
        ap (λ x. u ++ x) (ended-step fuel before c s right h le)
        ∙ ap (λ x. x ++ c ∷ rename (n ∷ w) [] s) (sym (attribute_other (n ∷ w) u whole_u))
        ∙ sym (rename-tail n w word u (c ∷ s) h)
  ]

  free-word :
      (fuel : ℕ) (before : Option ℕ) (c : ℕ) (s : Text)
      → IsRight fuel
      → word_before before ≡ false
      → is_word c ≡ true
      → length s ≤ fuel
      → (o : Option Place) → whole (last_of before (n ∷ w)) (after_prefix (n ∷ w) (c ∷ s)) ≡ o
      → go n w word (suc fuel) before (c ∷ s) ≡ rename (n ∷ w) [] (c ∷ s)
  unfolding rename
  free-word fuel before c s right b h le none e =
      let missed = match-at_word n w before (c ∷ s) word b h ∙ e in
      let run : run_of (c ∷ s) ≡ c ∷ run_of s = rw (h) refl in
      let other =
        ap (λ x. bytes_eq x (n ∷ w)) (sym run)
        ∙ whole-none n w word (last_of before (n ∷ w)) (c ∷ s) e in
      rw (h)
        (go-skips n w word fuel before c s missed ∙ right.inside (some c) (c ∷ []) s h other le)
  free-word fuel before c s right b h le (some p) e =
      let matched = match-at_word n w before (c ∷ s) word b h ∙ e in
      let (t, follows, stops, at) =
        whole-some n w word (last_of before (n ∷ w)) (after_prefix (n ∷ w) (c ∷ s)) p e in
      let shorter = length-after_prefix n w (c ∷ s) t follows in
      let rest = right.ended (last_of before (n ∷ w)) t stops (omega (arith, shorter, le)) in
      let scanned =
        ap (rename (n ∷ w) []) (after_prefix_sound (n ∷ w) (c ∷ s) t follows)
        ∙ rename-append (n ∷ w) [] (n ∷ w) t word
        ∙ rename-tail n w word (n ∷ w) t stops
        ∙ ap (λ x. x ++ tail n w word t) (attribute_name (n ∷ w)) in
      go-replaces n w word fuel before c s p matched
      ∙ ap (λ q. (codes "self." ++ (n ∷ w)) ++ go n w word fuel q.before q.rest) at
      ∙ ap (λ x. (codes "self." ++ (n ∷ w)) ++ x) rest
      ∙ sym scanned

  free-step :
      (fuel : ℕ) (before : Option ℕ) (c : ℕ) (s : Text)
      → IsRight fuel
      → word_before before ≡ false
      → length s ≤ fuel
      → go n w word (suc fuel) before (c ∷ s) ≡ rename (n ∷ w) [] (c ∷ s)
  free-step fuel before c s right b le = elim (Bool-cases (is_word c)) [
    | inl h ↦ free-word fuel before c s right b h le _ refl
    | inr h ↦
        ended-step fuel before c s right h le
        ∙ ap (λ x. x ++ c ∷ rename (n ∷ w) [] s) (sym (attribute_empty n w word))
        ∙ sym (rename-tail n w word [] (c ∷ s) h)
  ]

  -- The three cases, by the fuel.
  go-free :
      (fuel : ℕ) (before : Option ℕ) (s : Text)
      → ((k : ℕ) → fuel ≡ suc k → IsRight k)
      → word_before before ≡ false
      → length s ≤ fuel
      → go n w word fuel before s ≡ rename (n ∷ w) [] s
  go-free fuel before [] right b le = free-empty fuel before
  go-free zero before (c ∷ s) right b le = absurd (omega (arith, le))
  go-free (suc k) before (c ∷ s) right b le =
      free-step k before c s (right k refl) b (omega (arith, le))

  go-inside :
      (fuel : ℕ) (before : Option ℕ) (u s : Text)
      → ((k : ℕ) → fuel ≡ suc k → IsRight k)
      → word_before before ≡ true
      → bytes_eq (u ++ run_of s) (n ∷ w) ≡ false
      → length s ≤ fuel
      → u ++ go n w word fuel before s ≡ rename (n ∷ w) u s
  go-inside fuel before u [] right b other le = empty-inside fuel before u other
  go-inside zero before u (c ∷ s) right b other le = absurd (omega (arith, le))
  go-inside (suc k) before u (c ∷ s) right b other le =
      inside-step k before u c s (right k refl) b other (omega (arith, le))

  go-ended :
      (fuel : ℕ) (before : Option ℕ) (s : Text)
      → ((k : ℕ) → fuel ≡ suc k → IsRight k)
      → word_after s ≡ false
      → length s ≤ fuel
      → go n w word fuel before s ≡ tail n w word s
  go-ended fuel before [] right a le = go-end n w word fuel before
  go-ended zero before (c ∷ s) right a le = absurd (omega (arith, le))
  go-ended (suc k) before (c ∷ s) right a le =
      ended-step k before c s (right k refl) a (omega (arith, le))

  go-IsRight : (fuel : ℕ) → ((k : ℕ) → fuel ≡ suc k → IsRight k) → IsRight fuel
  go-IsRight fuel right = record {
    free = λ before s b le. go-free fuel before s right b le;
    inside = λ before u s b other le. go-inside fuel before u s right b other le;
    ended = λ before s a le. go-ended fuel before s right a le;
  }

  always-IsRight : (fuel : ℕ) → IsRight fuel
  always-IsRight zero = go-IsRight zero (λ k e. absurd (omega (arith, e)))
  always-IsRight (suc k) =
      go-IsRight (suc k) (λ j e. subst IsRight (omega (arith, e)) (always-IsRight k))

  pub sub-rename :
      (s : Text)
      → sub (whole_word (n ∷ w)) (λ groups. codes "self." ++ (n ∷ w)) s ≡ rename (n ∷ w) [] s
  sub-rename s = (always-IsRight (length s)).free none s refl (omega arith)
