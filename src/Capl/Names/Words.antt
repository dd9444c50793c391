-- ===== src/Capl/Names/Words.antt =====
-- Names and words as texts.
use mathlib.Core.List.{append-nil, append_assoc}
use automotive_testing_frame.Prelude.{
  ◌≡◌, refl, ap, sym, ◌∙◌, true, false, some, [], ◌∷◌, ◌++◌, arith, ℕ, ◌≤◌, ◌+◌, length,
  length-append,
}
use automotive_testing_frame.Prelude.Texts.{Text, codes}
use automotive_testing_frame.Prelude.Bytes.{bytes_eq, bytes_eq_refl}
use automotive_testing_frame.Regex.{is_word, word_after}
use automotive_testing_frame.Regex.Words.{all_in}
use automotive_testing_frame.Capl.Names.{attribute, rename, run_of, rest_of}
use automotive_testing_frame.Capl.Names.Matching.{after_prefix}

pub run-rest : (s : Text) → s ≡ run_of s ++ rest_of s
run-rest [] = refl
run-rest (c ∷ s) = ground (arith, run-rest s)

pub rest-stops : (s : Text) → word_after (rest_of s) ≡ false
rest-stops [] = refl
rest-stops (c ∷ s) = ground (arith, rest-stops s)

pub after_prefix-append : (w t : Text) → after_prefix w (w ++ t) ≡ some t
after_prefix-append [] t = refl
after_prefix-append (c ∷ w) t = ground (arith, after_prefix-append w t)

pub after_prefix_sound : (w s t : Text) → after_prefix w s ≡ some t → s ≡ w ++ t
after_prefix_sound [] s t h = ground (arith, h)
after_prefix_sound (c ∷ w) [] t h = cc
after_prefix_sound (c ∷ w) (d ∷ s) t h = ground (arith, h, after_prefix_sound w s t)

pub length-after_prefix :
    (n : ℕ) (w s t : Text) → after_prefix (n ∷ w) s ≡ some t → length t + 1 ≤ length s
length-after_prefix n w s t h =
    omega (arith, ap length (after_prefix_sound (n ∷ w) s t h), length-append (n ∷ w) t)

pub rename-append :
    (name u w t : Text) → all_in is_word w ≡ true → rename name u (w ++ t) ≡ rename name (u ++ w) t
unfolding rename
rename-append name u [] t h = ap (λ x. rename name x t) (sym (append-nil u))
rename-append name u (c ∷ w) t h =
    let first : is_word c ≡ true = ground (arith, h) in
    rw (first) (
      rename-append name (u ++ c ∷ []) w t (ground (arith, h))
      ∙ ap (λ x. rename name x t) (append_assoc u (c ∷ []) w))

-- A word that is not the name stays.
pub attribute_other : (name w : Text) → bytes_eq w name ≡ false → attribute name w ≡ w
attribute_other name w h = rw (h) refl

pub attribute_name : (name : Text) → attribute name name ≡ codes "self." ++ name
attribute_name name = rw (bytes_eq_refl name) refl
