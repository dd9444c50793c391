-- ===== src/Capl/Names/Extracted.antt =====
-- The names of the message variables that extract_blocks finds.
use mathlib.Core.Path.{subst}
use automotive_testing_frame.Capl.Generate.{namespace_line}
use automotive_testing_frame.Prelude.{
  ℕ, zero, suc, ◌≡◌, refl, ap, sym, ◌∙◌, ◌&&◌, Bool, true, false, Option, none, some, List, [], ◌∷◌,
  ◌++◌, All, arith, Bool-cases, Option-cases, inl, inr,
}
use automotive_testing_frame.Prelude.Bytes.{bytes_eq}
use automotive_testing_frame.Prelude.Texts.{is_space, Text, codes, strip}
use automotive_testing_frame.Regex.{
  Place, is_word, match_at, find_from, find_iter, search, Regex, nothing, char, one, many, few, seq,
  alt, group, boundary,
}
use automotive_testing_frame.Regex.Language.{Lang, match_at-Lang}
use automotive_testing_frame.Regex.Words.{all_in}
use automotive_testing_frame.Capl.Patterns.{
  some_of, number, literal, message_decl, variables_block, start_block,
}
use automotive_testing_frame.Capl.Blocks.{
  Keyed, put, group_of, add_variables, extract_variables, extract_start, extract_blocks, init,
  CaplParser, strip_comments,
}
use automotive_testing_frame.Capl.Names.Sequence.{
  is_known, AreNames, names_of, attributes, namespace_line-attributes,
}

-- Words of one or more characters.
abbrev pub IsWord : Text → Type 0
IsWord [] = ⊥
IsWord (n ∷ v) = all_in is_word (n ∷ v) ≡ true

-- A pattern without groups gives none.
abbrev is_bare : Regex → Bool
is_bare nothing = true
is_bare (char c) = true
is_bare (one class) = true
is_bare (many class) = true
is_bare (few class) = true
is_bare (seq a b) = is_bare a && is_bare b
is_bare (alt a b) = is_bare a && is_bare b
is_bare (group a) = false
is_bare boundary = true

is_bare-groups : (r : Regex) (u : Text) (gs : List Text) → is_bare r ≡ true → Lang r u gs → gs ≡ []
is_bare-groups nothing u gs h e = e.1
is_bare-groups (char c) u gs h e = e.1
is_bare-groups (one class) u gs h (_, _, _, e) = e
is_bare-groups (many class) u gs h e = e.1
is_bare-groups (few class) u gs h e = e.1
is_bare-groups (seq a b) u gs h (v, t, xs, ys, _, split, first, others) =
    split
    ∙ ap (λ x. x ++ ys) (is_bare-groups a v xs (ground (arith, h)) first)
    ∙ is_bare-groups b t ys (ground (arith, h)) others
is_bare-groups (alt a b) u gs h (inl e) = is_bare-groups a u gs (ground (arith, h)) e
is_bare-groups (alt a b) u gs h (inr e) = is_bare-groups b u gs (ground (arith, h)) e
is_bare-groups (group a) u gs h e = cc
is_bare-groups boundary u gs h e = e.1

some_of-IsWord :
    (u : Text) (gs : List Text) → Lang (seq (one is_word) (many is_word)) u gs → IsWord u
some_of-IsWord u gs (v, t, _, _, text, _, (c, is_c, one_c, _), (others, _)) =
    let whole : u ≡ c ∷ t = text ∙ ap (λ x. x ++ t) one_c in
    subst IsWord (sym whole) (ground (arith, is_c, others))

-- The second group of a declaration is a word.
message_decl-name : (u : Text) (gs : List Text) → Lang message_decl u gs → IsWord (group_of 2 gs)
message_decl-name u gs
      (
        v1,
        w1,
        x1,
        y1,
        _,
        e1,
        l1,
        (
          v2,
          w2,
          x2,
          y2,
          _,
          e2,
          l2,
          (
            v3,
            w3,
            x3,
            y3,
            _,
            e3,
            (i3, g3, l3),
            (v4, w4, x4, y4, _, e4, l4, (v5, w5, x5, y5, _, e5, (i5, g5, l5), _)),
          ),
        ),
      ) =
    let to_number =
      e1
      ∙ ap (λ x. x ++ y1) (is_bare-groups (literal (codes "message")) v1 x1 refl l1)
      ∙ e2
      ∙ ap (λ x. x ++ y2) (is_bare-groups (some_of is_space) v2 x2 refl l2) in
    let to_name = e4 ∙ ap (λ x. x ++ y4) (is_bare-groups (some_of is_space) v4 x4 refl l4) in
    let first = g3 ∙ ap (λ x. x ++ v3 ∷ []) (is_bare-groups number v3 i3 refl l3) in
    let name = g5 ∙ ap (λ x. x ++ v5 ∷ []) (is_bare-groups (some_of is_word) v5 i5 refl l5) in
    let all : gs ≡ v3 ∷ v5 ∷ y5 =
      to_number
      ∙ e3
      ∙ ap (λ x. x ++ y3) first
      ∙ ap (λ x. v3 ∷ x) (to_name ∙ e5 ∙ ap (λ x. x ++ y5) name) in
    subst (λ x. IsWord (group_of 2 x)) (sym all) (some_of-IsWord v5 i5 l5)

find_from-All :
    (P : List Text → Type 0) (fuel : ℕ) (r : Regex) (before : Option ℕ) (s : Text)
    → ((b : Option ℕ) (t : Text) (end : Place) → match_at r b t ≡ some end → P end.groups)
    → All P (find_from fuel r before s)
unfolding find_from
find_from-All P zero r before s h = tt
find_from-All P (suc fuel) r before [] h = tt
find_from-All P (suc fuel) r before (c ∷ s) h = elim (Option-cases (match_at r before (c ∷ s))) [
  | inl missed ↦ rw (find_from, missed) (find_from-All P fuel r (some c) s h)
  | inr (p, matched) ↦
      rw (find_from, matched) (h before (c ∷ s) p matched, find_from-All P fuel r p.before p.rest h)
]

-- The variables of a program: words, none twice.
abbrev pub AreWords : List Text → Keyed Text Text → Type 0
AreWords done [] = Unit
AreWords done ((name, msg_id) ∷ vs) =
    IsWord name × (is_known done name ≡ false) × AreWords (name ∷ done) vs

put-AreWords :
    (name msg_id : Text) (done : List Text) (vs : Keyed Text Text)
    → IsWord name
    → is_known done name ≡ false
    → AreWords done vs
    → AreWords done (put bytes_eq name msg_id vs)
unfolding put
put-AreWords name msg_id done [] word new words = (word, new, tt)
put-AreWords name msg_id done ((other, o) ∷ vs) word new (h, k, words) =
    elim (Bool-cases (bytes_eq name other)) [
      | inl same ↦ rw (same) (h, k, words)
      | inr distinct ↦
          rw (distinct)
            (h, k, put-AreWords name msg_id (other ∷ done) vs word (rw (distinct) new) words)
    ]

add_variables-AreWords :
    (ms : List (List Text)) (vs : Keyed Text Text)
    → All (λ gs. IsWord (group_of 2 gs)) ms
    → AreWords [] vs
    → AreWords [] (add_variables ms vs)
add_variables-AreWords [] vs named words = words
add_variables-AreWords (gs ∷ ms) vs named words =
    add_variables-AreWords ms (put bytes_eq (group_of 2 gs) (group_of 1 gs) vs) named.1
      (put-AreWords (group_of 2 gs) (group_of 1 gs) [] vs named.0 refl words)

extract_variables-AreWords :
    (content : Text) (p : CaplParser)
    → AreWords [] p.variables
    → AreWords [] (extract_variables content p).variables
unfolding extract_variables
extract_variables-AreWords content p words = elim (Option-cases (search variables_block content)) [
  | inl missed ↦ rw (extract_variables, missed) words
  | inr (groups, found) ↦
      rw (extract_variables, found)
        (add_variables-AreWords (find_iter message_decl (strip (group_of 1 groups))) p.variables
          (find_from-All (λ gs. IsWord (group_of 2 gs)) _ message_decl none _
            (λ b t end h.
              let (u, _, e) = match_at-Lang message_decl b t end h in
              message_decl-name u end.groups e))
          words)
]

extract_start-variables :
    (content : Text) (p : CaplParser) → (extract_start content p).variables ≡ p.variables
unfolding extract_start
extract_start-variables content p = elim (Option-cases (search start_block content)) [
  | inl missed ↦ rw (extract_start, missed) refl
  | inr (groups, found) ↦ rw (extract_start, found) refl
]

-- The variables of a program are words, none there twice.
extract_blocks-AreWords : (content : Text) → AreWords [] (extract_blocks (init content)).variables
unfolding extract_blocks init
extract_blocks-AreWords content =
    let clean = strip_comments content in
    subst (AreWords [])
      (sym (extract_start-variables clean (extract_variables clean (init content))))
      (extract_variables-AreWords clean (init content) tt)

-- No variable has the name `self`.
abbrev pub NoneSelf : Keyed Text Text → Type 0
NoneSelf [] = Unit
NoneSelf ((name, msg_id) ∷ vs) = (bytes_eq (codes "self") name ≡ false) × NoneSelf vs

AreWords-AreNames :
    (vs : Keyed Text Text) (done : List Text) → AreWords done vs → NoneSelf vs → AreNames done vs
AreWords-AreNames [] done words other = tt
AreWords-AreNames (([], msg_id) ∷ vs) done (word, _, _) other = absurd word
AreWords-AreNames ((n ∷ v, msg_id) ∷ vs) done (word, new, words) (not_self, other) =
    (word, not_self, new, AreWords-AreNames vs ((n ∷ v) ∷ done) words other)

-- In a line of a timer or message block, the substitutions for the message variables of the program,
-- one after the other, come to one scan: every longest run of word characters that is the name of a
-- message variable gets `self.` before it, and all else stays, if no message variable is named `self`.
pub namespace_line-extract_blocks :
    (content line : Text)
    → NoneSelf (extract_blocks (init content)).variables
    → let vs = (extract_blocks (init content)).variables in
      namespace_line vs line ≡ attributes (names_of [] vs) [] line
namespace_line-extract_blocks content line other =
    let vs = (extract_blocks (init content)).variables in
    namespace_line-attributes vs line
      (AreWords-AreNames vs [] (extract_blocks-AreWords content) other)
