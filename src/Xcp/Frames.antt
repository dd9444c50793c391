-- ===== src/Xcp/Frames.antt =====
-- CAN messages, as far as the calibration nodes use them (`can.Message`), and the exceptions and the
-- padding that both nodes share.
use mathlib.Core.List.{append-nil, append_assoc}
use automotive_testing_frame.Prelude.{
  inr, inl, Bool-cases, ◌∙◌, sym, ℕ, zero, suc, ◌+◌, ◌≤◌, ◌≡◌, Bool, [], ◌∷◌, ◌++◌, arith,
  if◌then◌else◌, ltb, length, length-append, take, length-take, get_elem?, Result, ok, err,
  or_raise,
}
use automotive_testing_frame.Prelude.Int.{ℤ, pos, negsuc}
use automotive_testing_frame.Prelude.Bytes.{Bytes}

pub data XcpFault : Type 0 where
  index_error value_error struct_error : XcpFault

pub record Message : Type 0 where
  pub arbitration_id : ℤ
  pub data_bytes : Bytes
  pub is_extended_id : Bool

-- `bytes[i]`
abbrev pub byte_at : Bytes → ℕ → Result XcpFault ℕ
byte_at bytes i = or_raise index_error (get_elem? bytes i)

-- A number as one byte of a message: `bytearray` refuses what is not in range.
unfoldable pub as_byte : ℤ → Result XcpFault ℕ
as_byte (pos n) = if ltb n 256 then ok n else err value_error
as_byte (negsuc n) = err value_error

-- `while len(data) < 8: data.append(0x00)`, with fuel.
unfoldable pub pad : ℕ → Bytes → Bytes
pad zero bytes = bytes
pad (suc fuel) bytes =
    let rest = pad fuel (bytes ++ 0 ∷ []) in if ltb (length bytes) 8 then rest else bytes

-- Eight rounds are enough: the loop ends by its test.
pub pad_ends : (fuel : ℕ) (bytes : Bytes) → 8 ≤ fuel + length bytes → 8 ≤ length (pad fuel bytes)
unfolding pad
pad_ends zero bytes h = omega arith
pad_ends (suc fuel) bytes h =
    ground (arith, pad_ends fuel (bytes ++ 0 ∷ []), length-append bytes (0 ∷ []))

-- The padded data cut to eight bytes.
abbrev pub frame_of : Bytes → Bytes
frame_of bytes = take 8 (pad 8 bytes)

pub length-frame_of : (bytes : Bytes) → length (frame_of bytes) ≡ 8
length-frame_of bytes = omega (arith, length-take 8 (pad 8 bytes), pad_ends 8 bytes (omega arith))

-- What padding does: the data, and something behind it.
pub pad-append : (fuel : ℕ) (bytes : Bytes) → (zeros : Bytes) × (pad fuel bytes ≡ bytes ++ zeros)
unfolding pad
pad-append zero bytes = ([], sym (append-nil bytes))
pad-append (suc fuel) bytes = elim (Bool-cases (ltb (length bytes) 8)) [
  | inl short ↦
      let (zeros, e) = pad-append fuel (bytes ++ 0 ∷ []) in
      (0 ∷ zeros, rw short (e ∙ append_assoc bytes (0 ∷ []) zeros))
  | inr full ↦ ([], rw full (sym (append-nil bytes)))
]

-- The first byte of a frame is the first byte of its data.
pub frame_of-head : (pid : ℕ) (payload : Bytes) → byte_at (frame_of (pid ∷ payload)) 0 ≡ ok pid
frame_of-head pid payload = let (zeros, e) = pad-append 8 (pid ∷ payload) in rw e

pub frame_of_second :
    (pid code : ℕ) (payload : Bytes) → byte_at (frame_of (pid ∷ code ∷ payload)) 1 ≡ ok code
frame_of_second pid code payload = let (zeros, e) = pad-append 8 (pid ∷ code ∷ payload) in rw e
