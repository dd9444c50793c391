-- ===== src/Capl/Matches.antt =====
-- Where the patterns of translate_syntax match in the statements that it knows.
use automotive_testing_frame.Capl.Forms.{
  Value, hexadecimal, decimal, write, set_timer, set_byte, output, digits, capl, is_unquoted,
  IsValue,
}
use automotive_testing_frame.Prelude.{
  ℕ, zero, suc, ◌-◌, ◌≡◌, refl, ap, Bool, true, false, Option, none, some, List, [], ◌∷◌, ◌++◌,
  arith, if◌then◌else◌, length, take,
}
use automotive_testing_frame.Prelude.Texts.{Text, codes, is_space}
use mathlib.Core.List.{append-nil}
use automotive_testing_frame.Regex.{
  consumed, Cont, or_else, greedy, char, group, Regex, Place, run, step_char, match_at, sub_from,
  sub, is_word, is_digit, is_hex,
}
use automotive_testing_frame.Regex.Absent.{lacks}
use automotive_testing_frame.Regex.Words.{all_in, stops, last_of, place, greedy-takes, group-takes}
use automotive_testing_frame.Capl.Patterns.{
  write_call, set_timer_call, byte_assignment, output_call, is_dotted, spaces, some_of, ◌then◌,
  literal, number,
}

pub lacks-class :
    (class : ℕ → Bool) (c : ℕ) (w : Text)
    → class c ≡ false
    → all_in class w ≡ true
    → lacks c w ≡ true
lacks-class class c [] absent a = refl
lacks-class class c (d ∷ w) absent a =
    ground (arith, a, lacks-class class c w absent, λ (same : c ≡ d). ap class same)

sub_from-end :
    (fuel : ℕ) (r : Regex) (f : List Text → Text) (before : Option ℕ)
    → sub_from fuel r f before [] ≡ []
unfolding sub_from
sub_from-end zero r f before = refl
sub_from-end (suc fuel) r f before = refl

-- A match of the whole text is replaced by what the groups give.
pub sub-whole :
    (r : Regex) (f : List Text → Text) (c : ℕ) (s : Text) (p : Place)
    → match_at r none (c ∷ s) ≡ some p
    → p.rest ≡ []
    → sub r f (c ∷ s) ≡ f p.groups
unfolding sub_from
sub-whole r f c s p matched end =
    rw (sub_from, matched)
      (rw end (rw (sub_from-end (length s) r f p.before) (append-nil (f p.groups))))

-- What follows the name of the timer, and what follows the comma.
abbrev after_comma : Regex
after_comma = group (some_of is_digit) then char b')'

abbrev after_timer : Regex
after_timer = char b',' then spaces then after_comma

pub match-set_timer :
    (c d : ℕ) (w v : Text)
    → all_in is_word (c ∷ w) ≡ true
    → all_in is_digit (d ∷ v) ≡ true
    → match_at set_timer_call none (capl (set_timer (c ∷ w) (d ∷ v)))
      ≡ some (place (some b')') [] ((c ∷ w) ∷ (d ∷ v) ∷ []))
unfolding run step_char
match-set_timer c d w v hw hv =
    let no_space : stops is_space ((d ∷ v) ++ b')' ∷ []) ≡ true = ground (arith, hv) in
    group-takes is_word (run after_timer some) (some b'(') c w
      (b',' ∷ b' ' ∷ ((d ∷ v) ++ b')' ∷ [])) [] _ hw refl
      (greedy-takes is_space (run after_comma some) (some b',') (b' ' ∷ []) ((d ∷ v) ++ b')' ∷ [])
        ((c ∷ w) ∷ []) _ refl no_space
        (group-takes is_digit (run (char b')') some) (some b' ') d v (b')' ∷ []) ((c ∷ w) ∷ []) _ hv
          refl refl))

pub match-output :
    (c : ℕ) (w : Text)
    → all_in is_dotted (c ∷ w) ≡ true
    → match_at output_call none (capl (output (c ∷ w))) ≡ some (place (some b')') [] ((c ∷ w) ∷ []))
unfolding run step_char
match-output c w hw =
    group-takes is_dotted (run (char b')') some) (some b'(') c w (b')' ∷ []) [] _ hw refl refl

or_else-some : (a b : Option Place) (end : Place) → a ≡ some end → or_else a b ≡ some end
or_else-some a b end h = rw h refl

or_else-none : (a b : Option Place) (end : Place) → a ≡ none → b ≡ some end → or_else a b ≡ some end
or_else-none a b end h e = rw (h) e

take-length : (w : Text) → take (length w) w ≡ w
take-length [] = refl
take-length (c ∷ w) = ap (◌∷◌ c) (take-length w)

consumed-all : (w : Text) → consumed w [] ≡ w
consumed-all w =
    let whole : length w - length {A = ℕ} [] ≡ length w = omega arith in rw whole (take-length w)

-- What follows the name of the message, and what follows the index.
abbrev after_equals : Regex
after_equals = spaces then group number

abbrev after_index : Regex
after_index = char b')' then spaces then char b'=' then after_equals

abbrev after_message : Regex
after_message = literal (codes ".byte(") then group (some_of is_digit) then after_index

greedy-end :
    (class : ℕ → Bool) (k : Cont) (before : Option ℕ) (w : Text) (groups : List Text) (end : Place)
    → all_in class w ≡ true
    → k (place (last_of before w) [] groups) ≡ some end
    → greedy class k before w groups ≡ some end
unfolding greedy
greedy-end class k before [] groups end a h = h
greedy-end class k before (c ∷ w) groups end a h =
    ground (arith, a, greedy-end class k (some c) w groups end (ground (arith, a)) h)

-- A text of digits does not begin as a hexadecimal number.
no_prefix :
    (k : Cont) (c : ℕ) (w : Text) (before : Option ℕ) (groups : List Text)
    → all_in is_digit (c ∷ w) ≡ true
    → run (literal (codes "0x") then some_of is_hex) k (place before (c ∷ w) groups) ≡ none
unfolding run step_char
no_prefix k c [] before groups hw = ground arith
no_prefix k c (d ∷ w) before groups hw = ground (arith, hw)

-- A number, up to the end of the text.
match-number :
    (v : Value) (before : Option ℕ) (groups : List Text)
    → IsValue v
    → run (group number) some (place before (digits v) groups)
      ≡ some (place (last_of before (digits v)) [] (groups ++ digits v ∷ []))
unfolding run step_char
match-number (hexadecimal []) before groups (e, hw) = absurd (e refl)
match-number (hexadecimal (c ∷ w)) before groups (e, hw) =
    let first : is_hex c ≡ true = ground (arith, hw) in
    let others : all_in is_hex w ≡ true = ground (arith, hw) in
    rw first (
      or_else-some _ _ _ (
        greedy-end is_hex _ (some c) w groups _ others (
          ap (λ t. some (place (last_of (some c) w) [] (groups ++ t ∷ [])))
            (consumed-all (b'0' ∷ b'x' ∷ c ∷ w)))))
match-number (decimal []) before groups (e, hw) = absurd (e refl)
match-number (decimal (c ∷ w)) before groups (e, hw) =
    let first : is_digit c ≡ true = ground (arith, hw) in
    let others : all_in is_digit w ≡ true = ground (arith, hw) in
    or_else-none _ _ _ (no_prefix _ c w before groups hw) (
      rw first (
        greedy-end is_digit _ (some c) w groups _ others (
          ap (λ t. some (place (last_of (some c) w) [] (groups ++ t ∷ [])))
            (consumed-all (c ∷ w)))))

pub match-set_byte :
    (c d : ℕ) (w v : Text) (value : Value)
    → all_in is_word (c ∷ w) ≡ true
    → all_in is_digit (d ∷ v) ≡ true
    → stops is_space (digits value) ≡ true
    → IsValue value
    → match_at byte_assignment none (capl (set_byte (c ∷ w) (d ∷ v) value))
      ≡ some (place (last_of (some b' ') (digits value)) [] ((c ∷ w) ∷ (d ∷ v) ∷ digits value ∷ []))
unfolding run step_char
match-set_byte c d w v value hw hv no_space hu =
    group-takes is_word (run after_message some) none c w
      (codes ".byte(" ++ ((d ∷ v) ++ (codes ") = " ++ digits value))) [] _ hw refl
      (group-takes is_digit (run after_index some) (some b'(') d v (codes ") = " ++ digits value)
        ((c ∷ w) ∷ []) _ hv refl
        (greedy-takes is_space (run (char b'=' then after_equals) some) (some b')') (b' ' ∷ [])
          (codes "= " ++ digits value) ((c ∷ w) ∷ (d ∷ v) ∷ []) _ refl refl
          (greedy-takes is_space (run (group number) some) (some b'=') (b' ' ∷ []) (digits value)
            ((c ∷ w) ∷ (d ∷ v) ∷ []) _ refl no_space
            (match-number value (some b' ') ((c ∷ w) ∷ (d ∷ v) ∷ []) hu))))

pub match-write :
    (c : ℕ) (w : Text)
    → all_in is_unquoted (c ∷ w) ≡ true
    → match_at write_call none (capl (write (c ∷ w))) ≡ some (place (some b')') [] ((c ∷ w) ∷ []))
unfolding run step_char
match-write c w hw =
    group-takes is_unquoted (run (literal (codes "\")")) some) (some b'"') c w (codes "\")") [] _ hw
      refl refl
