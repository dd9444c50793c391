-- ===== src/CanEcu/Ramp.antt =====
-- The ramp that `__main__` of mock_ecu.py puts on the signals once a second.
use automotive_testing_frame.CanEcu.{MockEcu}
use automotive_testing_frame.Prelude.{
  ◌≤◌, ℕ, zero, suc, ◌+◌, ◌*◌, ◌≡◌, ap, ◌∙◌, arith, if◌then◌else◌,
}
use automotive_testing_frame.Prelude.Int.{ℤ, pos, ◌+ℤ◌, ltb_ℤ}
use Prim.Native.Nat.{min}

-- `min(a, b)`
abbrev min_ℤ : ℤ → ℤ → ℤ
min_ℤ a b = if ltb_ℤ b a then b else a

unfoldable pub ramp : MockEcu → MockEcu
ramp e = record e {
  speed = min_ℤ (e.speed +ℤ pos 5) (pos 120);
  rpm = min_ℤ (e.rpm +ℤ pos 200) (pos 4500);
}

unfoldable pub ramps : ℕ → MockEcu → MockEcu
ramps zero e = e
ramps (suc seconds) e = ramps seconds (ramp e)

min_ℤ-pos : (a b k : ℕ) → min_ℤ (pos a +ℤ pos k) (pos b) ≡ pos (min (a + k) b)
unfolding ◌+ℤ◌
min_ℤ-pos a b k = ground arith

ramp-signals :
    (s r : ℕ) (e : MockEcu)
    → e.speed ≡ pos s
    → e.rpm ≡ pos r
    → ((ramp e).speed ≡ pos (min (s + 5) 120)) × ((ramp e).rpm ≡ pos (min (r + 200) 4500))
unfolding ramp
ramp-signals s r e hs hr = (rw (hs, hr) (min_ℤ-pos s 120 5, min_ℤ-pos r 4500 200))

ramps-signals :
    (seconds s r : ℕ) (e : MockEcu)
    → e.speed ≡ pos s
    → e.rpm ≡ pos r
    → s ≤ 120
    → r ≤ 4500
    → ((ramps seconds e).speed ≡ pos (min (s + seconds * 5) 120))
      × ((ramps seconds e).rpm ≡ pos (min (r + seconds * 200) 4500))
unfolding ramps
ramps-signals zero s r e hs hr ls lr =
    (hs ∙ ap pos (omega (arith, ls)), hr ∙ ap pos (omega (arith, lr)))
ramps-signals (suc seconds) s r e hs hr ls lr =
    let (up_s, up_r) = ramp-signals s r e hs hr in
    let (all_s, all_r) =
      ramps-signals seconds (min (s + 5) 120) (min (r + 200) 4500) (ramp e) up_s up_r (omega arith)
        (omega arith) in
    (all_s ∙ ap pos (omega (arith, ls)), all_r ∙ ap pos (omega (arith, lr)))
