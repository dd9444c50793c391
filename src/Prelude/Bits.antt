-- ===== src/Prelude/Bits.antt =====
-- Facts about the bit operations at variables, and Python's `^`, `&` and `|` on signed integers.
use Prim.Native.Nat.{
  ℕ, zero, suc, ◌^◌, ◌+◌, ◌*◌, ◌/◌, ◌%◌, ◌-◌, ◌≤◌, ◌<◌, min, bit_and, bit_or, bit_xor, digits,
  bit_and-bitwise, bit_or-bitwise, bit_xor-bitwise, differ, max, bitwise,
}
use native.Mathlib.Nat.{pow-suc, div-add-mod', mod-lt, mul-add-mod_self_right, mod-eq_of_lt}
use mathlib.Core.Path.{◌≡◌, refl, ap, ◌∙◌}
use mathlib.Core.Bool.{Bool, true, ◌&&◌}
use native.Mathlib.Omega.{arith}
use automotive_testing_frame.Prelude.{◌==◌, ==_iff}
use automotive_testing_frame.Prelude.Int.{ℤ, pos, negsuc}

-- Both operations are `bitwise` at an operation on two digits. The count of rounds does not matter
-- once it covers the first number.
module _ (stop : ℕ → ℕ) (on_digits : ℕ → ℕ → ℕ) where
  digits_settled :
      (a b n m : ℕ) → a ≤ n → a ≤ m → digits stop on_digits n a b ≡ digits stop on_digits m a b
  digits_settled a b zero zero _ _ = refl
  digits_settled zero b zero (suc m) _ _ = refl
  digits_settled zero b (suc n) zero _ _ = refl
  digits_settled zero b (suc n) (suc m) _ _ = refl
  digits_settled (suc a) b zero m few _ = absurd (omega arith)
  digits_settled (suc a) b (suc n) zero _ few = absurd (omega arith)
  digits_settled (suc a) b (suc n) (suc m) left right =
      let rest = digits_settled (suc a / 2) (b / 2) n m (omega arith) (omega arith) in
      omega (arith, rest)

  lowest_digit :
      (a b : ℕ)
      → bitwise stop on_digits (suc a) b
        ≡ bitwise stop on_digits (suc a / 2) (b / 2) * 2 + on_digits (suc a % 2) (b % 2)
  lowest_digit a b =
      let rest = digits_settled (suc a / 2) (b / 2) a (suc a / 2) (omega arith) (omega arith) in
      omega (arith, rest)

bit_and_lowest : (a b : ℕ) → bit_and a b ≡ bit_and (a / 2) (b / 2) * 2 + min (a % 2) (b % 2)
bit_and_lowest zero b = rw (bit_and-bitwise 0 b) (rw (bit_and-bitwise 0 (b / 2)) (omega arith))
bit_and_lowest (suc a) b =
    rw (bit_and-bitwise (suc a) b)
      (rw (bit_and-bitwise (suc a / 2) (b / 2)) (lowest_digit (λ _. zero) min a b))

bit_or_lowest : (a b : ℕ) → bit_or a b ≡ bit_or (a / 2) (b / 2) * 2 + max (a % 2) (b % 2)
bit_or_lowest zero b = rw (bit_or-bitwise 0 b) (rw (bit_or-bitwise 0 (b / 2)) (omega arith))
bit_or_lowest (suc a) b =
    rw (bit_or-bitwise (suc a) b)
      (rw (bit_or-bitwise (suc a / 2) (b / 2)) (lowest_digit (λ c. c) max a b))

no_common_digit : (n a : ℕ) → digits (λ _. zero) min n a 0 ≡ 0
no_common_digit zero a = refl
no_common_digit (suc n) zero = refl
no_common_digit (suc n) (suc a) = omega (arith, no_common_digit n (suc a / 2))

digits_kept : (n a : ℕ) → a ≤ n → digits (λ c. c) max n a 0 ≡ a
digits_kept zero a h = omega arith
digits_kept (suc n) zero h = refl
digits_kept (suc n) (suc a) h = omega (arith, digits_kept n (suc a / 2) (omega arith))

bit_or-zero : (a : ℕ) → bit_or a 0 ≡ a
bit_or-zero a = rw (bit_or-bitwise a 0) (digits_kept a a (omega arith))

differ-lt : (a b : ℕ) → a < 2 → b < 2 → differ a b < 2
differ-lt zero b ha hb = hb
differ-lt (suc a) zero ha hb = ha
differ-lt (suc a) (suc b) ha hb = differ-lt a b (omega arith) (omega arith)

digits-differ-lt : (k n a b : ℕ) → a < 2 ^ k → b < 2 ^ k → digits (λ c. c) differ n a b < 2 ^ k
digits-differ-lt k zero a b ha hb = hb
digits-differ-lt k (suc n) zero b ha hb = hb
digits-differ-lt zero (suc n) (suc a) b ha hb = absurd (omega arith)
digits-differ-lt (suc k) (suc n) (suc a) b ha hb =
    let rest =
      digits-differ-lt k n (suc a / 2) (b / 2) (omega (arith, pow-suc 2 k))
        (omega (arith, pow-suc 2 k)) in
    omega (arith, rest, pow-suc 2 k, differ-lt (suc a % 2) (b % 2) (omega arith) (omega arith))

-- Numbers of `k` digits have an exclusive or of `k` digits.
pub bit_xor-lt : (k a b : ℕ) → a < 2 ^ k → b < 2 ^ k → bit_xor a b < 2 ^ k
bit_xor-lt k a b ha hb = rw (bit_xor-bitwise a b) (digits-differ-lt k a a b ha hb)

mod_double : (a p : ℕ) → 0 < p → a % (p * 2) ≡ a / 2 % p * 2 + a % 2
mod_double a p h =
    let split : a ≡ a / 2 / p * (p * 2) + (a / 2 % p * 2 + a % 2) =
      omega (arith, div-add-mod' (a / 2) p) in
    let small : a / 2 % p * 2 + a % 2 < p * 2 = omega (arith, mod-lt (a / 2) h) in
    ap (λ n. n % (p * 2)) split ∙ mul-add-mod_self_right (a / 2 / p) (p * 2) _ ∙ mod-eq_of_lt small

-- A mask of `k` ones keeps the lowest `k` digits.
pub bit_and_ones : (k a m : ℕ) → suc m ≡ 2 ^ k → bit_and a m ≡ a % 2 ^ k
bit_and_ones zero a m h =
    let nothing : m ≡ 0 = omega arith in
    rw nothing (rw (bit_and-bitwise a 0) (omega (arith, no_common_digit a a)))
bit_and_ones (suc k) a m h =
    let positive : 0 < 2 ^ k = omega (arith, pow-suc 2 k) in
    let half : suc (m / 2) ≡ 2 ^ k = omega (arith, pow-suc 2 k) in
    let ones : a % 2 ^ suc k ≡ a / 2 % 2 ^ k * 2 + a % 2 =
      rw (pow-suc 2 k) (mod_double a (2 ^ k) positive) in
    omega (arith, ones, bit_and_lowest a m, bit_and_ones k (a / 2) (m / 2) half, pow-suc 2 k)

pub bit_and_255 : (a : ℕ) → bit_and a 255 ≡ a % 256
bit_and_255 a = bit_and_ones 8 a 255 refl

pub bit_and_65535 : (a : ℕ) → bit_and a 65535 ≡ a % 65536
bit_and_65535 a = bit_and_ones 16 a 65535 refl

bit_or_double : (p b : ℕ) → bit_or (2 * p) b ≡ bit_or p (b / 2) * 2 + b % 2
bit_or_double p b =
    let half : 2 * p / 2 ≡ p = omega arith in
    let step : bit_or (2 * p) b ≡ bit_or p (b / 2) * 2 + max (2 * p % 2) (b % 2) =
      rw half at (bit_or_lowest (2 * p) b) in
    omega (arith, step)

-- A number of `k` digits put under `k` zeros is added.
pub bit_or_shifted : (k a b : ℕ) → b < 2 ^ k → bit_or (a * 2 ^ k) b ≡ a * 2 ^ k + b
bit_or_shifted zero a b h =
    let nothing : b ≡ 0 = omega arith in rw nothing (omega (arith, bit_or-zero (a * 2 ^ 0)))
bit_or_shifted (suc k) a b h =
    let double : a * 2 ^ suc k ≡ 2 * (a * 2 ^ k) = rw pow-suc (omega arith) in
    let small : b / 2 < 2 ^ k = omega (arith, pow-suc 2 k) in
    rw double (omega (arith, bit_or_double (a * 2 ^ k) b, bit_or_shifted k a (b / 2) small))

-- Over a small range, every value is checked by evaluation.
unfoldable pub holds_up_to : (ℕ → Bool) → ℕ → Bool
holds_up_to test zero = true
holds_up_to test (suc n) = holds_up_to test n && test n

pub holds_up_to-at : (test : ℕ → Bool) (n x : ℕ) → holds_up_to test n ≡ true → x < n → test x ≡ true
unfolding holds_up_to
holds_up_to-at test zero x h few = absurd (omega arith)
holds_up_to-at test (suc n) x h few = ground (arith, holds_up_to-at test n x)

abbrev is_complement : ℕ → Bool
is_complement x = bit_xor 255 x == 255 - x

byte_complements : holds_up_to is_complement 256 ≡ true
unfolding holds_up_to
byte_complements = refl

pub bit_xor_255 : (x : ℕ) → x < 256 → bit_xor 255 x ≡ 255 - x
bit_xor_255 x h = (==_iff _ _).0 (holds_up_to-at is_complement 256 x byte_complements h)

-- Python's integers act as infinite two's complement: `negsuc n` is `~n`.
unfoldable pub xor_ℤ : ℤ → ℤ → ℤ
xor_ℤ (pos a) (pos b) = pos (bit_xor a b)
xor_ℤ (pos a) (negsuc b) = negsuc (bit_xor a b)
xor_ℤ (negsuc a) (pos b) = negsuc (bit_xor a b)
xor_ℤ (negsuc a) (negsuc b) = pos (bit_xor a b)

-- `a & b` for a mask `b` of zero or more: the bits of `b` that `~n` has are those that `n` lacks.
unfoldable pub and_mask : ℤ → ℕ → ℕ
and_mask (pos a) b = bit_and a b
and_mask (negsuc a) b = bit_xor b (bit_and a b)

-- `a | b` for a mask `b` of zero or more.
unfoldable pub or_mask : ℤ → ℕ → ℤ
or_mask (pos a) b = pos (bit_or a b)
or_mask (negsuc a) b = negsuc (bit_xor a (bit_and a b))

-- `a & 0xFF` is a byte, whatever the sign of `a`.
pub and_mask_255-lt : (a : ℤ) → and_mask a 255 < 256
unfolding and_mask
and_mask_255-lt (pos a) = omega (arith, bit_and_255 a)
and_mask_255-lt (negsuc a) =
    omega (arith, bit_and_255 a, bit_xor_255 (bit_and a 255) (omega (arith, bit_and_255 a)))
