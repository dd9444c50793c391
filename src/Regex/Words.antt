-- ===== src/Regex/Words.antt =====
-- What a pattern does at a run of characters of its class.
use automotive_testing_frame.Prelude.{
  ℕ, ◌-◌, ◌≡◌, refl, ap, Bool, true, not, ◌&&◌, Option, some, List, [], ◌∷◌, ◌++◌, arith, length,
  take, length-append,
}
use automotive_testing_frame.Prelude.Texts.{Text}
use automotive_testing_frame.Regex.{
  one, many, seq, group, Place, Cont, step_char, greedy, run, consumed,
}

abbrev pub all_in : (ℕ → Bool) → Text → Bool
all_in class [] = true
all_in class (c ∷ w) = class c && all_in class w

-- The text is at its end or goes on with a character outside the class.
abbrev pub stops : (ℕ → Bool) → Text → Bool
stops class [] = true
stops class (c ∷ s) = not (class c)

abbrev pub last_of : Option ℕ → Text → Option ℕ
last_of before [] = before
last_of before (c ∷ w) = last_of (some c) w

abbrev pub place : Option ℕ → Text → List Text → Place
place before rest groups = record { before = before; rest = rest; groups = groups }

pub greedy-takes :
    (class : ℕ → Bool) (k : Cont) (before : Option ℕ) (w rest : Text) (groups : List Text)
    (end : Place)
    → all_in class w ≡ true
    → stops class rest ≡ true
    → k (place (last_of before w) rest groups) ≡ some end
    → greedy class k before (w ++ rest) groups ≡ some end
unfolding greedy
greedy-takes class k before [] [] groups end a s h = h
greedy-takes class k before [] (c ∷ rest) groups end a s h = ground (arith, s, h)
greedy-takes class k before (c ∷ w) rest groups end a s h =
    ground (arith, a, greedy-takes class k (some c) w rest groups end (ground (arith, a)) s h)

length-consumed : (w rest : Text) → length (w ++ rest) - length rest ≡ length w
length-consumed w rest = omega (arith, length-append w rest)

take-append : (w rest : Text) → take (length w) (w ++ rest) ≡ w
take-append [] rest = refl
take-append (c ∷ w) rest = ap (◌∷◌ c) (take-append w rest)

pub consumed-append : (w rest : Text) → consumed (w ++ rest) rest ≡ w
consumed-append w rest = rw (length-consumed w rest) (take-append w rest)

-- A group of one or more characters of a class takes a whole run of them.
pub group-takes :
    (class : ℕ → Bool) (k : Cont) (before : Option ℕ) (c : ℕ) (w rest : Text) (groups : List Text)
    (end : Place)
    → all_in class (c ∷ w) ≡ true
    → stops class rest ≡ true
    → k (place (last_of before (c ∷ w)) rest (groups ++ (c ∷ w) ∷ [])) ≡ some end
    → run (group (seq (one class) (many class))) k (place before ((c ∷ w) ++ rest) groups)
      ≡ some end
unfolding run step_char
group-takes class k before c w rest groups end a s h =
    let first : class c ≡ true = ground (arith, a) in
    let others : all_in class w ≡ true = ground (arith, a) in
    rw first (
      greedy-takes class _ (some c) w rest groups end others s
        (rw (consumed-append (c ∷ w) rest) h))
