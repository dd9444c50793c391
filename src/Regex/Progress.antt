-- ===== src/Regex/Progress.antt =====
-- A match of a pattern that consumes something leaves less of the text.
use automotive_testing_frame.Prelude.{
  ℕ, ◌+◌, ◌≤◌, ◌<◌, ◌≡◌, ◌⊎◌, inl, inr, Bool, true, false, ◌&&◌, ◌||◌, Option, none, some, List, [],
  ◌∷◌, arith, if◌then◌else◌, length,
}
use automotive_testing_frame.Prelude.Texts.{Text}
use automotive_testing_frame.Regex.{
  at_boundary, Regex, nothing, char, one, many, few, seq, alt, group, boundary, Place, Cont,
  or_else, step_char, greedy, lazy, run, match_at,
}

-- Every match is longer than the empty text.
unfoldable pub consumes : Regex → Bool
consumes nothing = false
consumes (char c) = true
consumes (one class) = true
consumes (many class) = false
consumes (few class) = false
consumes (seq a b) = consumes a || consumes b
consumes (alt a b) = consumes a && consumes b
consumes (group a) = consumes a
consumes boundary = false

abbrev weight : Bool → ℕ
weight true = 1
weight false = 0

-- A success is one of the continuation at a later place.
record Later (k : Cont) (s : Text) (w : ℕ) (end : Place) : Type 0 where
  place : Place
  goes_on : k place ≡ some end
  shorter : length place.rest + w ≤ length s

pub or_else-inv :
    (p q : Option Place) (end : Place) → or_else p q ≡ some end → (p ≡ some end) ⊎ (q ≡ some end)
or_else-inv p q end h = ground arith

pub if-inv :
    (b : Bool) (p : Option Place) (end : Place) → (if b then p else none) ≡ some end → p ≡ some end
if-inv b p end h = ground arith

Later-here : (k : Cont) (p end : Place) → k p ≡ some end → Later k p.rest 0 end
Later-here k p end h = record { place = p; goes_on = h; shorter = omega arith }

Later-before :
    (k : Cont) (s t : Text) (w v : ℕ) (end : Place)
    → length s + v ≤ length t + w
    → Later k s w end
    → Later k t v end
Later-before k s t w v end h l = record {
  place = l.place;
  goes_on = l.goes_on;
  shorter = omega (arith, h, l.shorter);
}

step_char-Later :
    (class : ℕ → Bool) (k : Cont) (before : Option ℕ) (s : Text) (groups : List Text) (end : Place)
    → step_char class k before s groups ≡ some end
    → Later k s 1 end
unfolding step_char
step_char-Later class k before [] groups end h = absurd (ground arith)
step_char-Later class k before (c ∷ s) groups end h =
    let p : Place = record { before = some c; rest = s; groups = groups } in
    Later-before k s (c ∷ s) 0 1 end (omega arith)
      (Later-here k p end (if-inv (class c) (k p) end h))

greedy-Later :
    (class : ℕ → Bool) (k : Cont) (before : Option ℕ) (s : Text) (groups : List Text) (end : Place)
    → greedy class k before s groups ≡ some end
    → Later k s 0 end
unfolding greedy
greedy-Later class k before [] groups end h =
    Later-here k (record { before = before; rest = []; groups = groups }) end h
greedy-Later class k before (c ∷ s) groups end h = elim (or_else-inv _ _ end h) [
  | inl onward ↦
      Later-before k s (c ∷ s) 0 0 end (omega arith)
        (greedy-Later class k (some c) s groups end (if-inv (class c) _ end onward))
  | inr here ↦ Later-here k (record { before = before; rest = c ∷ s; groups = groups }) end here
]

lazy-Later :
    (class : ℕ → Bool) (k : Cont) (before : Option ℕ) (s : Text) (groups : List Text) (end : Place)
    → lazy class k before s groups ≡ some end
    → Later k s 0 end
unfolding lazy
lazy-Later class k before [] groups end h =
    Later-here k (record { before = before; rest = []; groups = groups }) end h
lazy-Later class k before (c ∷ s) groups end h = elim (or_else-inv _ _ end h) [
  | inl here ↦ Later-here k (record { before = before; rest = c ∷ s; groups = groups }) end here
  | inr onward ↦
      Later-before k s (c ∷ s) 0 0 end (omega arith)
        (lazy-Later class k (some c) s groups end (if-inv (class c) _ end onward))
]

Later-then :
    (a b : Bool) (k j : Cont) (s : Text) (end : Place)
    → (l : Later j s (weight a) end) → Later k l.place.rest (weight b) end
    → Later k s (weight (a || b)) end
Later-then a b k j s end l m = record {
  place = m.place;
  goes_on = m.goes_on;
  shorter = ground (arith, l.shorter, m.shorter);
}

run-Later :
    (r : Regex) (k : Cont) (p end : Place)
    → run r k p ≡ some end
    → Later k p.rest (weight (consumes r)) end
unfolding run consumes
run-Later nothing k p end h = Later-here k p end h
run-Later (char c) k p end h = step_char-Later _ k p.before p.rest p.groups end h
run-Later (one class) k p end h = step_char-Later class k p.before p.rest p.groups end h
run-Later (many class) k p end h = greedy-Later class k p.before p.rest p.groups end h
run-Later (few class) k p end h = lazy-Later class k p.before p.rest p.groups end h
run-Later (seq a b) k p end h =
    let first = run-Later a (run b k) p end h in
    Later-then (consumes a) (consumes b) k (run b k) p.rest end first
      (run-Later b k first.place end first.goes_on)
run-Later (alt a b) k p end h = elim (or_else-inv _ _ end h) [
  | inl l ↦ Later-before k p.rest p.rest _ _ end (ground arith) (run-Later a k p end l)
  | inr r ↦ Later-before k p.rest p.rest _ _ end (ground arith) (run-Later b k p end r)
]
run-Later (group a) k p end h =
    let l = run-Later a _ p end h in
    record { place = record l.place { groups = _ }; goes_on = l.goes_on; shorter = l.shorter }
run-Later boundary k p end h = Later-here k p end (if-inv (at_boundary p) (k p) end h)

pub match_at-shorter :
    (r : Regex) (before : Option ℕ) (s : Text) (end : Place)
    → consumes r ≡ true
    → match_at r before s ≡ some end
    → length end.rest < length s
match_at-shorter r before s end c h =
    let l = run-Later r some (record { before = before; rest = s; groups = [] }) end h in
    ground (arith, l.goes_on, l.shorter, c)
