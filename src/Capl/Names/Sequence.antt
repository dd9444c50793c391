-- ===== src/Capl/Names/Sequence.antt =====
-- The renaming of all message variables, one after the other, against one scan of the line.
use mathlib.Core.List.{append-nil, append_assoc}
use automotive_testing_frame.Prelude.{
  ℕ, ◌≡◌, refl, ap, sym, ◌∙◌, Bool, true, false, ◌||◌, [], ◌∷◌, ◌++◌, arith, if◌then◌else◌,
  Bool-cases, inl, inr, List,
}
use automotive_testing_frame.Prelude.Texts.{Text, codes}
use automotive_testing_frame.Prelude.Bytes.{bytes_eq, bytes_eq_sound}
use automotive_testing_frame.Regex.{is_word, word_after}
use automotive_testing_frame.Regex.Words.{all_in}
use automotive_testing_frame.Capl.Blocks.{Keyed}
use automotive_testing_frame.Capl.Generate.{namespace_line}
use automotive_testing_frame.Capl.Names.{attribute, rename}
use automotive_testing_frame.Capl.Names.Words.{rename-append, attribute_other, attribute_name}
use automotive_testing_frame.Capl.Names.Renaming.{sub-rename}
use automotive_testing_frame.Capl.Names.Steps.{tail, rename-tail}

-- One scan: every longest run of word characters that is one of the names becomes an attribute.
abbrev pub is_known : List Text → Text → Bool
is_known [] w = false
is_known (name ∷ names) w = bytes_eq w name || is_known names w

abbrev pub attribute_of : List Text → Text → Text
attribute_of names w = if is_known names w then codes "self." ++ w else w

unfoldable pub attributes : List Text → Text → Text → Text
attributes names w [] = attribute_of names w
attributes names w (c ∷ s) =
    if is_word c
    then attributes names (w ++ c ∷ []) s
    else attribute_of names w ++ c ∷ attributes names [] s

attributes-none : (w s : Text) → attributes [] w s ≡ w ++ s
unfolding attributes
attributes-none w [] = sym (append-nil w)
attributes-none w (c ∷ s) = elim (Bool-cases (is_word c)) [
  | inl h ↦ rw (h) (attributes-none (w ++ c ∷ []) s ∙ append_assoc w (c ∷ []) s)
  | inr h ↦ rw (h) (ap (λ x. w ++ c ∷ x) (attributes-none [] s))
]

pub all_in-append :
    (class : ℕ → Bool) (w : Text) (c : ℕ)
    → all_in class w ≡ true
    → class c ≡ true
    → all_in class (w ++ c ∷ []) ≡ true
all_in-append class [] c a h = ground (arith, h)
all_in-append class (d ∷ w) c a h = ground (arith, a, all_in-append class w c (ground (arith, a)) h)

-- A further name, which is not `self`, of one or more word characters.
module _ (n : ℕ) (v : Text) (word : all_in is_word (n ∷ v) ≡ true)
    (not_self : bytes_eq (codes "self") (n ∷ v) ≡ false) where
  -- A word, and what follows it.
  word-rename :
      (w t : Text)
      → all_in is_word w ≡ true
      → word_after t ≡ false
      → rename (n ∷ v) [] (w ++ t) ≡ attribute (n ∷ v) w ++ tail n v word t
  word-rename w t a h = rename-append (n ∷ v) [] w t a ∙ rename-tail n v word w t h

  -- An attribute is left as it is.
  attribute-rename :
      (w t : Text)
      → all_in is_word w ≡ true
      → word_after t ≡ false
      → bytes_eq w (n ∷ v) ≡ false
      → rename (n ∷ v) [] ((codes "self." ++ w) ++ t) ≡ (codes "self." ++ w) ++ tail n v word t
  unfolding rename
  attribute-rename w t a h other = rw (not_self) (
      ap (λ x. codes "self." ++ x)
        (word-rename w t a h ∙ ap (λ x. x ++ tail n v word t) (attribute_other (n ∷ v) w other)))

  -- A name that is new is not among the words that are names.
  known_other :
      (done : List Text) (w : Text)
      → is_known done w ≡ true
      → is_known done (n ∷ v) ≡ false
      → bytes_eq w (n ∷ v) ≡ false
  known_other done w k new = elim (Bool-cases (bytes_eq w (n ∷ v))) [
    | inr other ↦ other
    | inl same ↦
        let both = ap (is_known done) (bytes_eq_sound w (n ∷ v) same) in
        ground (arith, k, new, both)
  ]

  known-rename :
      (done : List Text) (w t : Text)
      → all_in is_word w ≡ true
      → word_after t ≡ false
      → is_known done (n ∷ v) ≡ false
      → rename (n ∷ v) [] (attribute_of done w ++ t)
        ≡ attribute_of ((n ∷ v) ∷ done) w ++ tail n v word t
  known-rename done w t a h new = elim (Bool-cases (is_known done w)) [
    | inl k ↦ let other = known_other done w k new in rw (k, other) (attribute-rename w t a h other)
    | inr k ↦ elim (Bool-cases (bytes_eq w (n ∷ v))) [
      | inl e ↦
          rw (k, e)
            (word-rename w t a h
              ∙ ap (λ x. attribute (n ∷ v) x ++ tail n v word t) (bytes_eq_sound w (n ∷ v) e)
              ∙ ap (λ x. x ++ tail n v word t) (attribute_name (n ∷ v))
              ∙ ap (λ x. (codes "self." ++ x) ++ tail n v word t)
                  (sym (bytes_eq_sound w (n ∷ v) e)))
      | inr e ↦
          rw (k, e)
            (word-rename w t a h ∙ ap (λ x. x ++ tail n v word t) (attribute_other (n ∷ v) w e))
    ]
  ]

  rename-attributes :
      (done : List Text) (w s : Text)
      → all_in is_word w ≡ true
      → is_known done (n ∷ v) ≡ false
      → rename (n ∷ v) [] (attributes done w s) ≡ attributes ((n ∷ v) ∷ done) w s
  unfolding attributes
  rename-attributes done w [] a new =
      ap (rename (n ∷ v) []) (sym (append-nil (attribute_of done w)))
      ∙ known-rename done w [] a refl new
      ∙ append-nil (attribute_of ((n ∷ v) ∷ done) w)
  rename-attributes done w (c ∷ s) a new = elim (Bool-cases (is_word c)) [
    | inl h ↦ rw (h) (rename-attributes done (w ++ c ∷ []) s (all_in-append is_word w c a h) new)
    | inr h ↦ rw (h) (
        known-rename done w (c ∷ attributes done [] s) a h new
        ∙ ap (λ x. attribute_of ((n ∷ v) ∷ done) w ++ c ∷ x) (rename-attributes done [] s refl new))
  ]

-- The names of message variables: words of one or more characters, none twice, none `self`.
abbrev pub AreNames : List Text → Keyed Text Text → Type 0
AreNames done [] = Unit
AreNames done (([], msg_id) ∷ vs) = ⊥
AreNames done ((n ∷ v, msg_id) ∷ vs) =
    (all_in is_word (n ∷ v) ≡ true)
    × (bytes_eq (codes "self") (n ∷ v) ≡ false)
    × (is_known done (n ∷ v) ≡ false)
    × AreNames ((n ∷ v) ∷ done) vs

abbrev pub names_of : List Text → Keyed Text Text → List Text
names_of done [] = done
names_of done ((name, msg_id) ∷ vs) = names_of (name ∷ done) vs

namespace_line-done :
    (vs : Keyed Text Text) (done : List Text) (line : Text)
    → AreNames done vs
    → namespace_line vs (attributes done [] line) ≡ attributes (names_of done vs) [] line
unfolding namespace_line
namespace_line-done [] done line names = refl
namespace_line-done (([], msg_id) ∷ vs) done line names = absurd names
namespace_line-done ((n ∷ v, msg_id) ∷ vs) done line (word, not_self, new, names) =
    ap (namespace_line vs) (
      sub-rename n v word (attributes done [] line)
      ∙ rename-attributes n v word not_self done [] line refl new)
    ∙ namespace_line-done vs ((n ∷ v) ∷ done) line names

-- In a line of a timer or message block, the substitutions for the message variables, one after the
-- other, come to one scan: every longest run of word characters that is the name of a variable gets
-- `self.` before it, and all else stays. The names are words, none is there twice, and none is `self`.
pub namespace_line-attributes :
    (vs : Keyed Text Text) (line : Text)
    → AreNames [] vs
    → namespace_line vs line ≡ attributes (names_of [] vs) [] line
namespace_line-attributes vs line names =
    ap (namespace_line vs) (sym (attributes-none [] line)) ∙ namespace_line-done vs [] line names
