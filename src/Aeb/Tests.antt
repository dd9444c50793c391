-- ===== src/Aeb/Tests.antt =====
-- Braking over fixed-point numbers in tenths; `none` is a nan.
use automotive_testing_frame.Prelude.{
  ok, err, ℕ, List, zero, suc, ◌*◌, ◌/◌, ◌≤◌, ◌≡◌, refl, ◌↔◌, Bool, true, false, Option, none, some,
  [], ◌∷◌,
}
use automotive_testing_frame.Prelude.Int.{ℤ, pos, negsuc, sub_ℕ, ltb_ℤ, leb_ℤ, ◌==ℤ◌}
use automotive_testing_frame.Aeb.{
  int_overflow, arith, ℕ, int_max, List, ttc, brake, speed_rel_ms, is_faulty, Double, Reading,
  calculate_braking_force, evaluate_all, is_flush,
}
use automotive_testing_frame.Aeb.Debounce.{
  danger, ignored, kind_of, dangers_since, full_braking_iff,
}

abbrev Tenths : Type 0
Tenths = Option ℤ

abbrev compared : (ℤ → ℤ → Bool) → Tenths → Tenths → Bool
compared f (some a) (some b) = f a b
compared f _ _ = false

-- The sign of the quotient is that of the inputs, and nothing is divided by zero.
abbrev quotient : ℤ → ℤ → Tenths
quotient (pos a) (pos (suc b)) = some (pos (10 * a / suc b))
quotient (negsuc a) (pos (suc b)) = some (sub_ℕ 0 (10 * suc a / suc b))
quotient (pos a) (negsuc b) = some (sub_ℕ 0 (10 * a / suc b))
quotient (negsuc a) (negsuc b) = some (pos (10 * suc a / suc b))
quotient _ (pos zero) = none

abbrev divided : Tenths → Tenths → Tenths
divided (some a) (some b) = quotient a b
divided _ _ = none

abbrev tenths : Double Tenths
tenths = record {
  tenths = some;
  div = divided;
  lt = compared ltb_ℤ;
  le = compared leb_ℤ;
  eq = compared ◌==ℤ◌;
  is_nan = λ x. elim x [ none ↦ true | some a ↦ false ];
  is_inf = λ x. false;
}

-- 50 km/h, an object 5 m ahead, nearing by 36 km/h.
abbrev near : Reading Tenths
near = record {
  ego_speed = some (pos 500);
  obj_distance = some (pos 50);
  speed_relative = some (pos 360);
}

abbrev broken : Reading Tenths
broken = record near { obj_distance = none }

abbrev flush : Reading Tenths
flush = record near { obj_distance = some (pos 10000); speed_relative = some (negsuc 99) }

brakes_third :
    evaluate_all tenths (near ∷ near ∷ broken ∷ flush ∷ near ∷ []) 0
    ≡ ok (50 ∷ 50 ∷ 0 ∷ 0 ∷ 100 ∷ [], 3)
unfolding evaluate_all calculate_braking_force is_faulty brake is_flush ttc speed_rel_ms
brakes_third = refl

-- The int counter has no next value.
overflows : calculate_braking_force tenths near int_max ≡ err int_overflow
unfolding calculate_braking_force is_faulty brake is_flush ttc speed_rel_ms
overflows = refl

full_braking_iff_example :
    (forces : List ℕ) × (n : ℕ) × (force : ℕ) × (n' : ℕ) × (evaluate_all tenths
        (near ∷ broken ∷ near ∷ [])
        0
      ≡ ok (forces, n))
    × (calculate_braking_force tenths near n ≡ ok (force, n'))
    × ((force ≡ 100) ↔ (
        (kind_of tenths near ≡ danger) × (2 ≤ dangers_since tenths (near ∷ broken ∷ near ∷ []) 0)))
    × (kind_of tenths near ≡ ignored → force ≡ 0)
full_braking_iff_example = full_braking_iff tenths (near ∷ broken ∷ near ∷ []) near (omega arith)

is_flush-flush : is_flush tenths flush ≡ true
unfolding is_flush
is_flush-flush = refl

negative : tenths.le (speed_rel_ms tenths flush) (some (pos 0)) ≡ true
unfolding speed_rel_ms
negative = refl
