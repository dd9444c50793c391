-- ===== src/VectorCast/Numbers.antt =====
-- Python's `int(s)` of an ASCII text, which the attributes of the XML files go through.
use automotive_testing_frame.Regex.{is_digit}
use mathlib.Core.Option
use automotive_testing_frame.Prelude.{
  ℕ, ◌+◌, ◌-◌, ◌*◌, Bool, true, false, ◌&&◌, Option, none, some, [], ◌∷◌, ◌==◌, if◌then◌else◌,
}
use automotive_testing_frame.Prelude.Int.{ℤ, pos, sub_ℕ}
use automotive_testing_frame.Prelude.Texts.{Text, strip}

-- The digits of a number, with single underscores between them; `started` says that a digit precedes.
unfoldable pub read_digits : Bool → ℕ → Text → Option ℕ
read_digits started acc [] = if started then some acc else none
read_digits started acc (c ∷ s) =
    let number = read_digits true (acc * 10 + (c - b'0')) s in
    let separator = read_digits false acc s in
    if is_digit c then number else if c == b'_' && started then separator else none

unfoldable pub read_signed : Text → Option ℤ
read_signed [] = none
read_signed (c ∷ s) =
    if c == b'-'
    then Option.map (sub_ℕ 0) (read_digits false 0 s)
    else if c == b'+'
    then Option.map pos (read_digits false 0 s)
    else Option.map pos (read_digits false 0 (c ∷ s))

unfoldable pub parse_int : Text → Option ℤ
parse_int s = read_signed (strip s)
