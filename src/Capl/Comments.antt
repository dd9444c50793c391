-- ===== src/Capl/Comments.antt =====
-- `re.sub(r'/\*.*?\*/', '', content)` as a scanner with four modes.
use automotive_testing_frame.Prelude.{
  ℕ, zero, suc, ◌≤◌, ◌≡◌, refl, inl, inr, Bool, true, false, ◌&&◌, ◌||◌, Option, none, some, [],
  ◌∷◌, arith, ◌==◌, if◌then◌else◌, length, drop, Option-cases,
}
use mathlib.Core.Option
use automotive_testing_frame.Prelude.Texts.{Text, codes}
use automotive_testing_frame.Regex.{Place, lazy, run, step_char, match_at, sub_from}
use automotive_testing_frame.Capl.Patterns.{comment, literal}
use automotive_testing_frame.Capl.Blocks.{strip_comments}

-- Outside of a comment; between the two characters that open one; within one; between the two that
-- close it.
pub data Mode : Type 0 where
  code opening within closing : Mode

abbrev next_is : ℕ → Text → Bool
next_is c [] = false
next_is c (d ∷ s) = d == c

-- There is a `*/` in the text.
abbrev closes : Text → Bool
closes [] = false
closes (c ∷ s) = (c == b'*' && next_is b'/' s) || closes s

-- `*` and, somewhere after it, a `*/`
abbrev opens : Text → Bool
opens [] = false
opens (c ∷ s) = c == b'*' && closes s

-- One pass over the characters. A comment that is never closed is no comment.
abbrev pub scan : Mode → Text → Text
scan _ [] = []
scan code (c ∷ s) = if c == b'/' && opens s then scan opening s else c ∷ scan code s
scan opening (c ∷ s) = scan within s
scan within (c ∷ s) = if c == b'*' && next_is b'/' s then scan closing s else scan within s
scan closing (c ∷ s) = scan code s

-- What follows the first `*/`.
abbrev after_close : Text → Option Text
after_close [] = none
after_close (c ∷ s) = if c == b'*' && next_is b'/' s then some (drop 1 s) else after_close s

abbrev close_of : Text → Option Place
close_of s = Option.map (λ t. record { before = some b'/'; rest = t; groups = [] }) (after_close s)

run-close :
    (before : Option ℕ) (c : ℕ) (s : Text)
    → run (literal (codes "*/")) some (record { before = before; rest = c ∷ s; groups = [] }) ≡ (
        if c == b'*' && next_is b'/' s
        then some (record { before = some b'/'; rest = drop 1 s; groups = [] })
        else none)
unfolding run step_char
run-close before c [] = ground arith
run-close before c (d ∷ s) = ground arith

lazy-close_end :
    (before : Option ℕ)
    → run (literal (codes "*/")) some (record { before = before; rest = []; groups = [] }) ≡ none
unfolding run step_char
lazy-close_end before = refl

lazy-close :
    (before : Option ℕ) (s : Text)
    → lazy (λ c. true) (run (literal (codes "*/")) some) before s [] ≡ close_of s
unfolding lazy
lazy-close before [] = lazy-close_end before
lazy-close before (c ∷ s) = rw (run-close before c s, lazy-close (some c) s) (ground arith)

match_at-comment :
    (before : Option ℕ) (c : ℕ) (s : Text)
    → match_at comment before (c ∷ s)
      ≡ (if c == b'/' && next_is b'*' s then close_of (drop 1 s) else none)
unfolding run step_char
match_at-comment before c [] = ground arith
match_at-comment before c (d ∷ s) = rw (lazy-close (some d) s) (ground arith)

next_is-cons : (c : ℕ) (s : Text) → next_is c s ≡ true → (t : Text) × (s ≡ c ∷ t)
next_is-cons c [] h = absurd (ground arith)
next_is-cons c (d ∷ s) h = (s, ground arith)

closes-after_close : (s : Text) → closes s ≡ elim (after_close s) [ none ↦ false | some t ↦ true ]
closes-after_close [] = refl
closes-after_close (c ∷ s) = ground (arith, closes-after_close s)

scan-within : (s t : Text) → after_close s ≡ some t → scan within s ≡ scan code t
scan-within [] t h = absurd (ground arith)
scan-within (c ∷ []) t h = absurd (ground arith)
scan-within (c ∷ d ∷ s) t h = ground (arith, scan-within (d ∷ s) t)

after_close-shorter : (s t : Text) → after_close s ≡ some t → length t ≤ length s
after_close-shorter [] t h = absurd (ground arith)
after_close-shorter (c ∷ []) t h = absurd (ground arith)
after_close-shorter (c ∷ d ∷ s) t h = ground (arith, after_close-shorter (d ∷ s) t)

sub_from-scan :
    (fuel : ℕ) (before : Option ℕ) (s : Text)
    → length s ≤ fuel
    → sub_from fuel comment (λ groups. []) before s ≡ scan code s
unfolding sub_from
sub_from-scan zero before [] enough = refl
sub_from-scan zero before (c ∷ s) enough = absurd (omega arith)
sub_from-scan (suc fuel) before [] enough = refl
sub_from-scan (suc fuel) before (c ∷ []) enough =
    rw (sub_from, match_at-comment before c [])
      (ground (arith, sub_from-scan fuel (some c) [] (omega arith)))
sub_from-scan (suc fuel) before (c ∷ d ∷ s) enough = elim (Option-cases (after_close s)) [
  | inl open_eq ↦
      rw (sub_from, match_at-comment before c (d ∷ s))
        (ground
          (arith, open_eq, closes-after_close s, sub_from-scan fuel (some c) (d ∷ s) (omega arith)))
  | inr (t, closed_eq) ↦
      let shorter = after_close-shorter s t closed_eq in
      rw (sub_from, match_at-comment before c (d ∷ s))
        (ground (
          arith,
          closed_eq,
          closes-after_close s,
          scan-within s t closed_eq,
          sub_from-scan fuel (some b'/') t (omega arith),
          sub_from-scan fuel (some c) (d ∷ s) (omega arith),
        ))
]

-- Removing the comments by the regular expression is one pass of the scanner.
pub strip_comments-scan : (content : Text) → strip_comments content ≡ scan code content
unfolding strip_comments
strip_comments-scan content = sub_from-scan (length content) none content (omega arith)
