-- ===== src/Regex/Absent.antt =====
-- A pattern that needs a character does not match in a text without it.
use automotive_testing_frame.Prelude.{
  ℕ, zero, suc, ◌≡◌, refl, ap, inl, inr, Bool, true, false, not, ◌&&◌, ◌||◌, Option, none, some,
  List, [], ◌∷◌, ◌++◌, arith, ◌==◌, length, Bool-cases,
}
use automotive_testing_frame.Prelude.Texts.{Text}
use automotive_testing_frame.Regex.{
  Regex, match_at, nothing, char, one, many, few, seq, alt, group, boundary, Place, Cont, step_char,
  greedy, lazy, run, sub_from, sub, search_from, search,
}

abbrev pub lacks : ℕ → Text → Bool
lacks c [] = true
lacks c (d ∷ s) = not (c == d) && lacks c s

-- Every match holds the character.
abbrev pub needs : ℕ → Regex → Bool
needs c nothing = false
needs c (char d) = c == d
needs c (one class) = false
needs c (many class) = false
needs c (few class) = false
needs c (seq a b) = needs c a || needs c b
needs c (alt a b) = needs c a && needs c b
needs c (group a) = needs c a
needs c boundary = false

-- Nothing goes on from a place without the character.
abbrev Fails : ℕ → Cont → Type 0
Fails c k = (q : Place) → lacks c q.rest ≡ true → k q ≡ none

step_char-Fails :
    (c : ℕ) (class : ℕ → Bool) (k : Cont) (before : Option ℕ) (s : Text) (groups : List Text)
    → Fails c k
    → lacks c s ≡ true
    → step_char class k before s groups ≡ none
unfolding step_char
step_char-Fails c class k before [] groups fails l = refl
step_char-Fails c class k before (d ∷ s) groups fails l =
    ground (arith, fails (record { before = some d; rest = s; groups = groups }))

greedy-Fails :
    (c : ℕ) (class : ℕ → Bool) (k : Cont) (before : Option ℕ) (s : Text) (groups : List Text)
    → Fails c k
    → lacks c s ≡ true
    → greedy class k before s groups ≡ none
unfolding greedy
greedy-Fails c class k before [] groups fails l = fails _ l
greedy-Fails c class k before (d ∷ s) groups fails l = ground (
  arith,
  greedy-Fails c class k (some d) s groups fails,
  fails (record { before = before; rest = d ∷ s; groups = groups }),
)

lazy-Fails :
    (c : ℕ) (class : ℕ → Bool) (k : Cont) (before : Option ℕ) (s : Text) (groups : List Text)
    → Fails c k
    → lacks c s ≡ true
    → lazy class k before s groups ≡ none
unfolding lazy
lazy-Fails c class k before [] groups fails l = fails _ l
lazy-Fails c class k before (d ∷ s) groups fails l = ground (
  arith,
  lazy-Fails c class k (some d) s groups fails,
  fails (record { before = before; rest = d ∷ s; groups = groups }),
)

step_char-needs :
    (c : ℕ) (k : Cont) (before : Option ℕ) (s : Text) (groups : List Text)
    → lacks c s ≡ true
    → step_char (λ d. d == c) k before s groups ≡ none
unfolding step_char
step_char-needs c k before [] groups l = refl
step_char-needs c k before (d ∷ s) groups l = ground arith

run-Fails : (c : ℕ) (r : Regex) (k : Cont) → Fails c k → Fails c (run r k)
unfolding run
run-Fails c nothing k fails p l = fails p l
run-Fails c (char d) k fails p l = step_char-Fails c _ k p.before p.rest p.groups fails l
run-Fails c (one class) k fails p l = step_char-Fails c class k p.before p.rest p.groups fails l
run-Fails c (many class) k fails p l = greedy-Fails c class k p.before p.rest p.groups fails l
run-Fails c (few class) k fails p l = lazy-Fails c class k p.before p.rest p.groups fails l
run-Fails c (seq a b) k fails p l = run-Fails c a (run b k) (run-Fails c b k fails) p l
run-Fails c (alt a b) k fails p l = rw (run-Fails c a k fails p l) (run-Fails c b k fails p l)
run-Fails c (group a) k fails p l = run-Fails c a _ (λ q lq. fails _ lq) p l
run-Fails c boundary k fails p l = ground (arith, fails p)

run-needs : (c : ℕ) (r : Regex) (k : Cont) → needs c r ≡ true → Fails c (run r k)
unfolding run
run-needs c nothing k n p l = cc
run-needs c (char d) k n p l =
    let same : d ≡ c = ground arith in rw same (step_char-needs c k p.before p.rest p.groups l)
run-needs c (one class) k n p l = cc
run-needs c (many class) k n p l = cc
run-needs c (few class) k n p l = cc
run-needs c (seq a b) k n p l = elim (Bool-cases (needs c a)) [
  | inl first ↦ run-needs c a (run b k) first p l
  | inr other ↦ run-Fails c a (run b k) (run-needs c b k (ground (arith, n, other))) p l
]
run-needs c (alt a b) k n p l =
    rw (run-needs c a k (ground arith) p l) (run-needs c b k (ground arith) p l)
run-needs c (group a) k n p l = run-needs c a _ n p l
run-needs c boundary k n p l = cc

sub_from-absent :
    (fuel c : ℕ) (r : Regex) (f : List Text → Text) (before : Option ℕ) (s : Text)
    → needs c r ≡ true
    → lacks c s ≡ true
    → sub_from fuel r f before s ≡ s
unfolding sub_from
sub_from-absent zero c r f before s n l = refl
sub_from-absent (suc fuel) c r f before [] n l = refl
sub_from-absent (suc fuel) c r f before (d ∷ s) n l =
    let p : Place = record { before = before; rest = d ∷ s; groups = [] } in
    rw (sub_from, run-needs c r some n p l)
      (ap (◌∷◌ d) (sub_from-absent fuel c r f (some d) s n (ground (arith, l))))

-- Where the character is absent, `sub` changes nothing.
pub sub-absent :
    (c : ℕ) (r : Regex) (f : List Text → Text) (s : Text)
    → needs c r ≡ true
    → lacks c s ≡ true
    → sub r f s ≡ s
sub-absent c r f s n l = sub_from-absent (length s) c r f none s n l

-- No match begins in the first part of a text.
abbrev pub NoneBegins : Regex → Option ℕ → Text → Text → Type 0
NoneBegins r before [] s = Unit
NoneBegins r before (c ∷ pre) s =
    (match_at r before (c ∷ pre ++ s) ≡ none) × NoneBegins r (some c) pre s

sub_from-beyond :
    (fuel c : ℕ) (r : Regex) (f : List Text → Text) (before : Option ℕ) (pre s : Text)
    → NoneBegins r before pre s
    → needs c r ≡ true
    → lacks c s ≡ true
    → sub_from fuel r f before (pre ++ s) ≡ pre ++ s
unfolding sub_from
sub_from-beyond fuel c r f before [] s none_begins n l = sub_from-absent fuel c r f before s n l
sub_from-beyond zero c r f before (d ∷ pre) s none_begins n l = refl
sub_from-beyond (suc fuel) c r f before (d ∷ pre) s none_begins n l =
    rw (sub_from, none_begins.0)
      (ap (◌∷◌ d) (sub_from-beyond fuel c r f (some d) pre s none_begins.1 n l))

-- Where the character is absent from what follows, `sub` changes nothing.
pub sub-beyond :
    (c : ℕ) (r : Regex) (f : List Text → Text) (pre s : Text)
    → NoneBegins r none pre s
    → needs c r ≡ true
    → lacks c s ≡ true
    → sub r f (pre ++ s) ≡ pre ++ s
sub-beyond c r f pre s none_begins n l =
    sub_from-beyond (length (pre ++ s)) c r f none pre s none_begins n l

search_from-absent :
    (c : ℕ) (r : Regex) (before : Option ℕ) (s : Text)
    → needs c r ≡ true
    → lacks c s ≡ true
    → search_from r before s ≡ none
unfolding search_from
search_from-absent c r before [] n l =
    let p : Place = record { before = before; rest = []; groups = [] } in
    rw (search_from, run-needs c r some n p l) refl
search_from-absent c r before (d ∷ s) n l =
    let p : Place = record { before = before; rest = d ∷ s; groups = [] } in
    rw (search_from, run-needs c r some n p l)
      (search_from-absent c r (some d) s n (ground (arith, l)))

-- Where the character is absent, `search` finds nothing.
pub search-absent :
    (c : ℕ) (r : Regex) (s : Text) → needs c r ≡ true → lacks c s ≡ true → search r s ≡ none
search-absent c r s n l = search_from-absent c r none s n l

search_from-beyond :
    (c : ℕ) (r : Regex) (before : Option ℕ) (pre s : Text)
    → NoneBegins r before pre s
    → needs c r ≡ true
    → lacks c s ≡ true
    → search_from r before (pre ++ s) ≡ none
unfolding search_from
search_from-beyond c r before [] s none_begins n l = search_from-absent c r before s n l
search_from-beyond c r before (d ∷ pre) s none_begins n l =
    rw (search_from, none_begins.0) (search_from-beyond c r (some d) pre s none_begins.1 n l)

pub search-beyond :
    (c : ℕ) (r : Regex) (pre s : Text)
    → NoneBegins r none pre s
    → needs c r ≡ true
    → lacks c s ≡ true
    → search r (pre ++ s) ≡ none
search-beyond c r pre s none_begins n l = search_from-beyond c r none pre s none_begins n l

pub lacks-append : (c : ℕ) (s t : Text) → lacks c (s ++ t) ≡ lacks c s && lacks c t
lacks-append c [] t = refl
lacks-append c (d ∷ s) t = ground (arith, lacks-append c s t)
