-- ===== src/Prelude/Bytes.antt =====
-- Byte strings, and the big-endian fields of Python's `struct` module.
use automotive_testing_frame.Prelude.{
  ℕ, ◌+◌, ◌*◌, ◌/◌, ◌%◌, ◌^◌, ◌<◌, ◌≡◌, refl, Bool, true, false, Option, none, some, List, [], ◌∷◌,
  ◌&&◌, arith, ltb, ◌==◌, if◌then◌else◌,
}
use automotive_testing_frame.Prelude.Int.{ℤ, pos, negsuc}

abbrev pub Bytes : Type 0
Bytes = List ℕ

-- `==` of two byte strings
unfoldable pub bytes_eq : Bytes → Bytes → Bool
bytes_eq [] [] = true
bytes_eq [] (y ∷ ys) = false
bytes_eq (x ∷ xs) [] = false
bytes_eq (x ∷ xs) (y ∷ ys) = x == y && bytes_eq xs ys

pub bytes_eq_sound : (xs ys : Bytes) → bytes_eq xs ys ≡ true → xs ≡ ys
unfolding bytes_eq
bytes_eq_sound [] [] h = refl
bytes_eq_sound [] (y ∷ ys) h = ground arith
bytes_eq_sound (x ∷ xs) [] h = ground arith
bytes_eq_sound (x ∷ xs) (y ∷ ys) h = ground (arith, bytes_eq_sound xs ys)

pub bytes_eq_refl : (xs : Bytes) → bytes_eq xs xs ≡ true
unfolding bytes_eq
bytes_eq_refl [] = refl
bytes_eq_refl (x ∷ xs) = ground (arith, bytes_eq_refl xs)

abbrev pub be16 : ℕ → Bytes
be16 n = n / 2 ^ 8 % 256 ∷ n % 256 ∷ []

abbrev pub be32 : ℕ → Bytes
be32 n = n / 2 ^ 24 % 256 ∷ n / 2 ^ 16 % 256 ∷ n / 2 ^ 8 % 256 ∷ n % 256 ∷ []

-- `struct.pack(">H", n)` and `struct.pack(">I", n)`: `none` is a `struct.error`.
unfoldable pub pack_be16 : ℤ → Option Bytes
pack_be16 (pos n) = if ltb n (2 ^ 16) then some (be16 n) else none
pack_be16 (negsuc n) = none

unfoldable pub pack_be32 : ℤ → Option Bytes
pack_be32 (pos n) = if ltb n (2 ^ 32) then some (be32 n) else none
pack_be32 (negsuc n) = none

-- `struct.unpack(">H", bs)[0]` and `struct.unpack(">I", bs)[0]`: the length must be exact.
unfoldable pub unpack_be16 : Bytes → Option ℕ
unpack_be16 (a ∷ b ∷ []) = some (a * 2 ^ 8 + b)
unpack_be16 _ = none

unfoldable pub unpack_be32 : Bytes → Option ℕ
unpack_be32 (a ∷ b ∷ c ∷ d ∷ []) = some (a * 2 ^ 24 + b * 2 ^ 16 + c * 2 ^ 8 + d)
unpack_be32 _ = none

pub unpack-pack_be32 : (n : ℕ) → n < 2 ^ 32 → unpack_be32 (be32 n) ≡ some n
unfolding unpack_be32
unpack-pack_be32 n h = ap_some (omega arith)
  where
    ap_some : {x y : ℕ} → x ≡ y → some x ≡ some y
    ap_some e = ground arith

-- A 32-bit number is known by its four bytes.
pub be32_injective : (n m : ℕ) → n < 2 ^ 32 → m < 2 ^ 32 → be32 n ≡ be32 m → n ≡ m
be32_injective n m hn hm e = ground arith

pub be16_injective : (n m : ℕ) → n < 2 ^ 16 → m < 2 ^ 16 → be16 n ≡ be16 m → n ≡ m
be16_injective n m hn hm e = ground arith
