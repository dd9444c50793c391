-- ===== src/Regex.antt =====
-- What capl_parser.py uses of Python's `re`: a backtracking matcher, for ASCII text.
pub mod Progress
pub mod Scans
pub mod Absent
pub mod Words
pub mod Language
use automotive_testing_frame.Prelude.{
  ℕ, zero, suc, ◌+◌, ◌-◌, ◌*◌, ◌/◌, ◌%◌, ◌^◌, ◌≤◌, ◌<◌, ◌≡◌, refl, sym, ap, ◌∙◌, ◌≢◌, ◌↔◌, ◌⊎◌, inl,
  inr, Bool, true, false, not, ◌&&◌, ◌||◌, Option, none, some, List, [], ◌∷◌, ◌++◌, map, arith, ltb,
  leb, ◌==◌, if◌then◌else◌, length, take, drop, All, Bool-cases, Option-cases, get_or,
  length-append,
}
use mathlib.Core.Option
use automotive_testing_frame.Prelude.Texts.{
  Text, codes, is_space, strip, split_on, is_in, join, show_ℕ, starts_with,
}

-- The patterns. `many` and `few` repeat a class, greedily and lazily; `group` captures; `boundary` is
-- `\b`. A repetition of one or more is a class and `many` of it.
pub data Regex : Type 0 where
  nothing : Regex
  char : ℕ → Regex
  one many few : (ℕ → Bool) → Regex
  seq alt : Regex → Regex → Regex
  group : Regex → Regex
  boundary : Regex

-- A place in the text: the character before it, if any, the text from it on, and the groups so far.
pub record Place : Type 0 where
  pub before : Option ℕ
  pub rest : Text
  pub groups : List Text

abbrev pub Cont : Type 0
Cont = Place → Option Place

-- The first of two attempts that succeeds.
abbrev pub or_else : Option Place → Option Place → Option Place
or_else (some p) q = some p
or_else none q = q

abbrev pub is_within : ℕ → ℕ → ℕ → Bool
is_within lo hi c = leb lo c && leb c hi

-- `\d`, `[0-9A-Fa-f]`, and `\w`, which is `[a-zA-Z0-9_]`
abbrev pub is_digit : ℕ → Bool
is_digit c = is_within b'0' b'9' c

abbrev pub is_hex : ℕ → Bool
is_hex c = is_digit c || is_within b'A' b'F' c || is_within b'a' b'f' c

abbrev pub is_word : ℕ → Bool
is_word c = is_within b'a' b'z' c || is_within b'A' b'Z' c || is_digit c || c == b'_'

unfoldable pub step_char : (ℕ → Bool) → Cont → Option ℕ → Text → List Text → Option Place
step_char class k before [] groups = none
step_char class k before (c ∷ s) groups =
    if class c then k (record { before = some c; rest = s; groups = groups }) else none

unfoldable pub greedy : (ℕ → Bool) → Cont → Option ℕ → Text → List Text → Option Place
greedy class k before [] groups = k (record { before = before; rest = []; groups = groups })
greedy class k before (c ∷ s) groups =
    or_else (if class c then greedy class k (some c) s groups else none)
      (k (record { before = before; rest = c ∷ s; groups = groups }))

unfoldable pub lazy : (ℕ → Bool) → Cont → Option ℕ → Text → List Text → Option Place
lazy class k before [] groups = k (record { before = before; rest = []; groups = groups })
lazy class k before (c ∷ s) groups =
    or_else (k (record { before = before; rest = c ∷ s; groups = groups }))
      (if class c then lazy class k (some c) s groups else none)

abbrev pub word_before : Option ℕ → Bool
word_before none = false
word_before (some c) = is_word c

abbrev pub word_after : Text → Bool
word_after [] = false
word_after (c ∷ s) = is_word c

-- `\b`: a word character on exactly one side
abbrev pub at_boundary : Place → Bool
at_boundary p = if word_before p.before then not (word_after p.rest) else word_after p.rest

-- What was consumed from one place to a later one.
abbrev pub consumed : Text → Text → Text
consumed s t = take (length s - length t) s

unfoldable pub run : Regex → Cont → Cont
run nothing k p = k p
run (char c) k p = step_char (λ d. d == c) k p.before p.rest p.groups
run (one class) k p = step_char class k p.before p.rest p.groups
run (many class) k p = greedy class k p.before p.rest p.groups
run (few class) k p = lazy class k p.before p.rest p.groups
run (seq a b) k p = run a (run b k) p
run (alt a b) k p = or_else (run a k p) (run b k p)
run (group a) k p = run a (λ q. k (record q { groups = q.groups ++ consumed p.rest q.rest ∷ [] })) p
run boundary k p = if at_boundary p then k p else none

-- The match of a pattern at a place, if there is one: where it ends, with its groups.
abbrev pub match_at : Regex → Option ℕ → Text → Option Place
match_at r before s = run r some (record { before = before; rest = s; groups = [] })

-- `re.search`: the groups of the first match.
unfoldable pub search_from : Regex → Option ℕ → Text → Option (List Text)
search_from r before [] = Option.map (λ p. p.groups) (match_at r before [])
search_from r before (c ∷ s) = elim (match_at r before (c ∷ s)) [
  | some p ↦ some (p.groups)
  | none ↦ search_from r (some c) s
]

abbrev pub search : Regex → Text → Option (List Text)
search r s = search_from r none s

-- `re.finditer`: the groups of each match, from left to right, without overlaps. The fuel counts the
-- places; no pattern of the converter matches the empty text.
unfoldable pub find_from : ℕ → Regex → Option ℕ → Text → List (List Text)
find_from zero r before s = []
find_from (suc fuel) r before [] = []
find_from (suc fuel) r before (c ∷ s) = elim (match_at r before (c ∷ s)) [
  | some p ↦ p.groups ∷ find_from fuel r p.before p.rest
  | none ↦ find_from fuel r (some c) s
]

abbrev pub find_iter : Regex → Text → List (List Text)
find_iter r s = find_from (length s) r none s

-- `re.sub`, with the replacement as a function of the groups.
unfoldable pub sub_from : ℕ → Regex → (List Text → Text) → Option ℕ → Text → Text
sub_from zero r f before s = s
sub_from (suc fuel) r f before [] = []
sub_from (suc fuel) r f before (c ∷ s) = elim (match_at r before (c ∷ s)) [
  | some p ↦ f p.groups ++ sub_from fuel r f p.before p.rest
  | none ↦ c ∷ sub_from fuel r f (some c) s
]

abbrev pub sub : Regex → (List Text → Text) → Text → Text
sub r f s = sub_from (length s) r f none s
