-- ===== src/Capl/Names/Matching.antt =====
-- Where the pattern of a whole word matches.
use automotive_testing_frame.Prelude.{
  ℕ, ◌≡◌, refl, ap, ◌∙◌, true, false, Option, none, some, [], ◌∷◌, arith, ◌==◌, if◌then◌else◌, List,
}
use automotive_testing_frame.Prelude.Texts.{Text}
use automotive_testing_frame.Regex.{
  is_word, Place, Cont, run, step_char, match_at, word_before, word_after, at_boundary,
}
use automotive_testing_frame.Regex.Words.{all_in, last_of, place}
use automotive_testing_frame.Capl.Patterns.{literal, whole_word}

-- A text after a beginning of it.
abbrev pub after_prefix : Text → Text → Option Text
after_prefix [] s = some s
after_prefix (c ∷ w) [] = none
after_prefix (c ∷ w) (d ∷ s) = if d == c then after_prefix w s else none

abbrev go_on : Cont → Option ℕ → List Text → Option Text → Option Place
go_on k before groups none = none
go_on k before groups (some s) = k (place before s groups)

literal-run :
    (w : Text) (k : Cont) (before : Option ℕ) (s : Text) (groups : List Text)
    → run (literal w) k (place before s groups)
      ≡ go_on k (last_of before w) groups (after_prefix w s)
unfolding run step_char
literal-run [] k before s groups = refl
literal-run (c ∷ w) k before [] groups = refl
literal-run (c ∷ w) k before (d ∷ s) groups = ground (arith, literal-run w k (some d) s groups)

-- The end of a name is a word character.
last_of-word :
    (before : Option ℕ) (n : ℕ) (w : Text)
    → all_in is_word (n ∷ w) ≡ true
    → word_before (last_of before (n ∷ w)) ≡ true
last_of-word before n [] h = ground (arith, h)
last_of-word before n (c ∷ w) h = last_of-word (some n) c w (ground (arith, h))

-- Where the name does not stand the pattern does not match.
pub no_match-inside :
    (name : Text) (before : Option ℕ) (s : Text)
    → word_before before ≡ true
    → word_after s ≡ true
    → match_at (whole_word name) before s ≡ none
unfolding run
no_match-inside name before s b a = rw (b, a) refl

pub no_match-outside :
    (n : ℕ) (w : Text) (before : Option ℕ) (s : Text)
    → is_word n ≡ true
    → word_after s ≡ false
    → match_at (whole_word (n ∷ w)) before s ≡ none
unfolding run step_char
no_match-outside n w before [] h a = ground arith
no_match-outside n w before (c ∷ s) h a = ground (arith, h, a, λ (same : c ≡ n). ap is_word same)

-- What the pattern comes to at the beginning of a word.
abbrev pub whole : Option ℕ → Option Text → Option Place
whole before none = none
whole before (some t) = if word_after t then none else some (place before t [])

abbrev ends : Cont
ends p = if at_boundary p then some p else none

ends-whole :
    (before : Option ℕ) (o : Option Text)
    → word_before before ≡ true
    → go_on ends before [] o ≡ whole before o
ends-whole before none b = refl
ends-whole before (some t) b = rw (b) (ground arith)

pub match-at_word :
    (n : ℕ) (w : Text) (before : Option ℕ) (s : Text)
    → all_in is_word (n ∷ w) ≡ true
    → word_before before ≡ false
    → word_after s ≡ true
    → match_at (whole_word (n ∷ w)) before s
      ≡ whole (last_of before (n ∷ w)) (after_prefix (n ∷ w) s)
unfolding run
match-at_word n w before s h b a =
    rw (b, a)
      (literal-run (n ∷ w) ends before s []
        ∙ ends-whole (last_of before (n ∷ w)) (after_prefix (n ∷ w) s) (last_of-word before n w h))
