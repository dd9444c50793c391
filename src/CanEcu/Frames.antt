-- ===== src/CanEcu/Frames.antt =====
-- What a receiver learns from the frame 0x100, and when there is one.
use automotive_testing_frame.Prelude.{
  ℕ, ◌/◌, ◌%◌, ◌^◌, ◌≤◌, ◌<◌, ◌≡◌, refl, [], ◌∷◌, arith, take, All,
}
use automotive_testing_frame.Prelude.Bytes.{Bytes}
use automotive_testing_frame.Prelude.Int.{ℤ, pos, negsuc, ◌≤ℤ◌, ◌<ℤ◌}
use automotive_testing_frame.Prelude.Bits.{bit_and_255, bit_xor-lt}
use automotive_testing_frame.CanEcu.{
  bit_and, bit_xor, MockEcu, clamp, xor_all, payload, engine_status,
}

-- A signal within its limits.
abbrev pub IsClamped : ℕ → ℤ → ℕ → Type 0
IsClamped high x n =
    (n ≤ high)
    × (x <ℤ pos 0 → n ≡ 0)
    × (pos 0 ≤ℤ x → x ≤ℤ pos high → x ≡ pos n)
    × (pos high <ℤ x → n ≡ high)

clamp-IsClamped : (high : ℕ) (x : ℤ) → IsClamped high x (clamp high x)
unfolding clamp
clamp-IsClamped high (pos n) = ground arith
clamp-IsClamped high (negsuc n) = ground arith

xor_all-lt : (c : ℕ) (bs : Bytes) → c < 256 → All (λ b. b < 256) bs → xor_all c bs < 256
unfolding xor_all
xor_all-lt c [] h bytes = h
xor_all-lt c (b ∷ bs) h bytes = xor_all-lt (bit_xor c b) bs (bit_xor-lt 8 c b h bytes.0) bytes.1

abbrev pub frame_of : MockEcu → Bytes
frame_of e = (engine_status e).data_bytes

-- Every frame 0x100 has eight bytes, the first of them the speed and the next two the engine speed,
-- each brought into its limits; the four after are zero, and the last is the exclusive or of the
-- seven before. All of them are bytes, which bytearray wants.
pub engine_status-reads :
    (e : MockEcu)
    → (s r c : ℕ) × (frame_of e ≡ s ∷ r / 256 ∷ r % 256 ∷ 0 ∷ 0 ∷ 0 ∷ 0 ∷ c ∷ [])
      × IsClamped 250 e.speed s
      × IsClamped 8000 e.rpm r
      × (c ≡ xor_all 0 (take 7 (frame_of e)))
      × All (λ b. b < 256) (frame_of e)
unfolding engine_status
engine_status-reads e =
    let s = clamp 250 e.speed in
    let r = clamp 8000 e.rpm in
    let speed_limits = clamp-IsClamped 250 e.speed in
    let rpm_limits = clamp-IsClamped 8000 e.rpm in
    let low : bit_and s 0xff ≡ s = omega (arith, bit_and_255 s, speed_limits.0) in
    let high : bit_and (r / 2 ^ 8) 0xff ≡ r / 256 =
      omega (arith, bit_and_255 (r / 2 ^ 8), rpm_limits.0) in
    let body_bytes : All (λ b. b < 256) (payload s r) =
      (ground (arith, bit_and_255 s, bit_and_255 (r / 2 ^ 8), bit_and_255 r)) in
    (
      s,
      r,
      xor_all 0 (payload s r),
      rw (low, high, bit_and_255 r) refl,
      speed_limits,
      rpm_limits,
      refl,
      (
        body_bytes.0,
        ground (
          arith,
          bit_and_255 (r / 2 ^ 8),
          bit_and_255 r,
          xor_all-lt 0 (payload s r) (omega arith) body_bytes,
        ),
      ),
    )
