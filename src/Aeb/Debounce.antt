-- ===== src/Aeb/Debounce.antt =====
-- When the emergency brake is applied in full, and what the flush signal does.
use automotive_testing_frame.Prelude.{
  ok, err, length, ◌<◌, ◌<◌, ℕ, ◌+◌, ◌≤◌, ◌≡◌, refl, ◌↔◌, Bool, true, not, ◌&&◌, List, [], ◌∷◌,
  arith, if◌then◌else◌,
}
use automotive_testing_frame.Prelude.Int.{pos, negsuc}
use automotive_testing_frame.Aeb.{
  int_max, int_max, length, Double, Reading, is_faulty, speed_rel_ms, ttc, is_flush, brake,
  calculate_braking_force, evaluate_all,
}

-- What a reading is to the debouncing: an object that is reached within a second; one that is farther
-- off; or nothing, which leaves the counter alone.
pub data Kind : Type 0 where
  danger clear ignored : Kind

module _ {F : Type 0} (double : Double F) where
  -- An object ahead, nearing a moving vehicle.
  unfoldable pub is_target : Reading F → Bool
  is_target r =
      not (is_faulty double r)
      && not (double.le r.ego_speed (double.tenths (pos 0)))
      && not (double.lt r.obj_distance (double.tenths (pos 0)))
      && not (double.le (speed_rel_ms double r) (double.tenths (pos 0)))

  unfoldable pub kind_of : Reading F → Kind
  kind_of r =
      if is_target r
      then if not (is_flush double r) && double.lt (ttc double r) (double.tenths (pos 10))
        then danger
        else clear
      else ignored

  -- The danger readings since the last clear one, after `n` before.
  abbrev pub after_reading : Reading F → ℕ → ℕ
  after_reading r n = elim (kind_of r) [ danger ↦ n + 1 | clear ↦ 0 | ignored ↦ n ]

  abbrev pub dangers_since : List (Reading F) → ℕ → ℕ
  dangers_since [] n = n
  dangers_since (r ∷ rs) n = dangers_since rs (after_reading r n)

  after_reading-grows : (r : Reading F) (n : ℕ) → after_reading r n ≤ n + 1
  after_reading-grows r n = ground arith

  force-kind :
      (r : Reading F) (n : ℕ)
      → n < int_max
      → (force : ℕ) × (calculate_braking_force double r n ≡ ok (force, after_reading r n))
        × ((force ≡ 100) ↔ ((kind_of r ≡ danger) × (2 ≤ n)))
        × ((kind_of r ≡ ignored) → force ≡ 0)
  unfolding calculate_braking_force kind_of is_target brake
  force-kind r n small =
      let force : ℕ = elim (calculate_braking_force double r n) [ err x ↦ 0 | ok (f, n') ↦ f ] in
      (force, ground arith, ground arith, ground arith)

  evaluate_all-dangers :
      (rs : List (Reading F)) (n : ℕ)
      → n + length rs ≤ int_max
      → (forces : List ℕ) × (evaluate_all double rs n ≡ ok (forces, dangers_since rs n))
        × (dangers_since rs n ≤ n + length rs)
  unfolding evaluate_all
  evaluate_all-dangers [] n small = ([], refl, omega arith)
  evaluate_all-dangers (r ∷ rs) n small =
      let (force, braked, _, _) = force-kind r n (omega (arith, small)) in
      let (forces, evaluated, bound) =
        evaluate_all-dangers rs (after_reading r n)
          (omega (arith, small, after_reading-grows r n)) in
      (
        force ∷ forces,
        rw (evaluate_all, braked) (rw (evaluated) refl),
        omega (arith, bound, after_reading-grows r n),
      )

  -- After any readings, fewer than 2^31 - 1 as the counter is an int, the next one brakes in full
  -- exactly if it is a danger reading and at least two others came since the last clear one; readings
  -- without a target in between do not count and reset nothing. A reading without a target never
  -- brakes.
  pub full_braking_iff :
      (rs : List (Reading F)) (r : Reading F)
      → length rs < int_max
      → (forces : List ℕ) × (n : ℕ) × (force : ℕ) × (n' : ℕ) × (evaluate_all double rs 0
          ≡ ok (forces, n))
        × (calculate_braking_force double r n ≡ ok (force, n'))
        × ((force ≡ 100) ↔ ((kind_of r ≡ danger) × (2 ≤ dangers_since rs 0)))
        × (kind_of r ≡ ignored → force ≡ 0)
  full_braking_iff rs r small =
      let (forces, evaluated, bound) = evaluate_all-dangers rs 0 (omega (arith, small)) in
      let n = dangers_since rs 0 in
      let (force, braked, full, silent) = force-kind r n (omega (arith, small, bound)) in
      (forces, n, force, after_reading r n, evaluated, braked, full, silent)

  -- The flush signal of the tests resets nothing: its relative speed is negative, so that the call
  -- returns before the test for it.
  flush_keeps_count :
      (r : Reading F) (n : ℕ)
      → is_flush double r ≡ true
      → (double.eq r.speed_relative (double.tenths (negsuc 99)) ≡ true
          → double.le (speed_rel_ms double r) (double.tenths (pos 0)) ≡ true)
      → calculate_braking_force double r n ≡ ok (0, n)
  unfolding calculate_braking_force is_flush
  flush_keeps_count r n flush negative = ground arith
