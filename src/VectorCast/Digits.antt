-- ===== src/VectorCast/Digits.antt =====
-- `int(str(n))`
use automotive_testing_frame.Regex.{is_digit}
use automotive_testing_frame.Regex.Words.{all_in}
use automotive_testing_frame.VectorCast.Parser.{int_of, int_or_raise}
use automotive_testing_frame.Prelude.{ok}
use mathlib.Core.List.{append_assoc, append-nil}
use mathlib.Core.Option
use automotive_testing_frame.VectorCast.Numbers.{read_digits, read_signed, parse_int}
use automotive_testing_frame.Prelude.{
  ℕ, zero, suc, ◌+◌, ◌-◌, ◌*◌, ◌/◌, ◌%◌, ◌≤◌, ◌<◌, ◌≡◌, refl, sym, ap, ◌∙◌, inl, inr, Bool, true,
  false, not, some, [], ◌∷◌, ◌++◌, arith, ltb, ◌==◌, Bool-cases,
}
use automotive_testing_frame.Prelude.Int.{ℤ, pos, negsuc, sub_ℕ}
use automotive_testing_frame.Prelude.Texts.{
  Text, is_space, strip, show_ℕ, show_ℤ, digits_of, lstrip, rstrip,
}

all_in-append :
    (class : ℕ → Bool) (s t : Text)
    → all_in class s ≡ true
    → all_in class t ≡ true
    → all_in class (s ++ t) ≡ true
all_in-append class [] t a b = b
all_in-append class (c ∷ s) t a b = ground (arith, a, all_in-append class s t (ground (arith, a)) b)

digit_of_remainder : (n : ℕ) → n % 10 < 10
digit_of_remainder n = omega arith

is_digit-remainder : (n : ℕ) → is_digit (b'0' + n % 10) ≡ true
is_digit-remainder n = ground (arith, digit_of_remainder n)

digits_of-digits : (fuel n : ℕ) → all_in is_digit (digits_of fuel n) ≡ true
unfolding digits_of
digits_of-digits zero n = refl
digits_of-digits (suc fuel) n = elim (Bool-cases (ltb n 10)) [
  | inl small ↦ rw (digits_of, small) (ground (arith, small))
  | inr large ↦
      rw (digits_of, large)
        (all_in-append is_digit (digits_of fuel (n / 10)) ((b'0' + n % 10) ∷ [])
          (digits_of-digits fuel (n / 10)) (rw (is_digit-remainder n) refl))
]

read_digits_step :
    (started : Bool) (acc k : ℕ) (rest : Text)
    → k < 10
    → read_digits started acc ((b'0' + k) ∷ rest) ≡ read_digits true (acc * 10 + k) rest
unfolding read_digits
read_digits_step started acc k rest small =
    let digit : is_digit (b'0' + k) ≡ true = ground arith in
    let value : b'0' + k - b'0' ≡ k = omega arith in
    rw (read_digits, digit) (ap (λ d. read_digits true (acc * 10 + d) rest) value)

large_lem : (n : ℕ) → ltb n 10 ≡ false → 10 ≤ n
large_lem n h = ground (arith, h)

-- Reading the digits of a number, and then what follows them.
read_digits-digits_of :
    (fuel n : ℕ) (rest : Text)
    → n < fuel
    → read_digits false 0 (digits_of fuel n ++ rest) ≡ read_digits true n rest
unfolding digits_of
read_digits-digits_of zero n rest h = absurd (omega (arith, h))
read_digits-digits_of (suc fuel) n rest h = elim (Bool-cases (ltb n 10)) [
  | inl small ↦
      let only : 0 * 10 + n ≡ n = omega arith in
      rw (digits_of, small)
        (read_digits_step false 0 n rest (ground (arith, small))
          ∙ ap (λ k. read_digits true k rest) only)
  | inr large ↦
      let sum : n / 10 * 10 + n % 10 ≡ n = omega arith in
      let fewer : n / 10 < fuel = omega (arith, large_lem n large) in
      rw (digits_of, large)
        (rw (append_assoc (digits_of fuel (n / 10)) ((b'0' + n % 10) ∷ []) rest) (
          read_digits-digits_of fuel (n / 10) ((b'0' + n % 10) ∷ rest) fewer
          ∙ (read_digits_step true (n / 10) (n % 10) rest (digit_of_remainder n)
              ∙ ap (λ k. read_digits true k rest) sum)))
]

rstrip-visible : (s : Text) → all_in (λ c. not (is_space c)) s ≡ true → rstrip s ≡ s
unfolding rstrip
rstrip-visible [] a = refl
rstrip-visible (c ∷ []) a = ground (arith, a)
rstrip-visible (c ∷ d ∷ s) a = rw (rstrip-visible (d ∷ s) (ground (arith, a))) refl

strip-visible : (s : Text) → all_in (λ c. not (is_space c)) s ≡ true → strip s ≡ s
unfolding lstrip rstrip
strip-visible [] a = refl
strip-visible (c ∷ s) a =
    let first : is_space c ≡ false = ground (arith, a) in
    rw (lstrip, first) (rstrip-visible (c ∷ s) a)

visible : (s : Text) → all_in is_digit s ≡ true → all_in (λ c. not (is_space c)) s ≡ true
visible [] a = refl
visible (c ∷ s) a = ground (arith, a, visible s)

read_signed-digits :
    (s : Text) → all_in is_digit s ≡ true → read_signed s ≡ Option.map pos (read_digits false 0 s)
unfolding read_signed read_digits
read_signed-digits [] a = refl
read_signed-digits (c ∷ s) a =
    let digit : is_digit c ≡ true = ground (arith, a) in
    let not_minus : (c == b'-') ≡ false = ground (arith, digit) in
    let not_plus : (c == b'+') ≡ false = ground (arith, digit) in rw (not_minus, not_plus) refl

negative : (n : ℕ) → sub_ℕ 0 (suc n) ≡ negsuc n
negative n = ground arith

read_digits-show_ℕ : (n : ℕ) → read_digits false 0 (show_ℕ n) ≡ some n
unfolding read_digits
read_digits-show_ℕ n =
    ap (read_digits false 0) (sym (append-nil (show_ℕ n)))
    ∙ read_digits-digits_of (suc n) n [] (omega arith)

parse_int-show_ℤ : (n : ℤ) → parse_int (show_ℤ n) ≡ some n
unfolding parse_int read_signed
parse_int-show_ℤ (pos n) =
    let digits = digits_of-digits (suc n) n in
    ap read_signed (strip-visible (show_ℕ n) (visible (show_ℕ n) digits))
    ∙ (read_signed-digits (show_ℕ n) digits ∙ ap (Option.map pos) (read_digits-show_ℕ n))
parse_int-show_ℤ (negsuc n) =
    let digits = digits_of-digits (suc (suc n)) (suc n) in
    ap read_signed (strip-visible (b'-' ∷ show_ℕ (suc n)) (visible (show_ℕ (suc n)) digits))
    ∙ (ap (Option.map (sub_ℕ 0)) (read_digits-show_ℕ (suc n)) ∙ ap some (negative n))

-- An attribute that holds an integer as Python writes it is read as that integer.
int_of-show_ℤ : (n : ℤ) → int_of (some (show_ℤ n)) ≡ ok n
int_of-show_ℤ n = ap (int_or_raise (show_ℤ n)) (parse_int-show_ℤ n)
