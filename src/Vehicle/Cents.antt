-- ===== src/Vehicle/Cents.antt =====
-- Fixed-point numbers with two decimals, and a parked vehicle over them, for the tests.
use automotive_testing_frame.Vehicle.{Number, VehicleSimulator}
use automotive_testing_frame.Prelude.{ℕ, ◌+◌, ◌*◌, ◌/◌, false}
use automotive_testing_frame.Prelude.Int.{ℤ, pos, negsuc, sub_ℕ, abs, ltb_ℤ, ◌+ℤ◌, ◌-ℤ◌, ◌==ℤ◌}

abbrev pub whole_cents : ℤ → ℤ
whole_cents (pos n) = pos (100 * n)
whole_cents (negsuc n) = negsuc (100 * n + 99)

abbrev pub signed : ℤ → ℤ → ℕ → ℤ
signed (pos a) (pos b) n = pos n
signed (negsuc a) (negsuc b) n = pos n
signed _ _ n = sub_ℕ 0 n

abbrev pub cents : Number ℤ
cents = record {
  whole = whole_cents;
  hundredths = pos;
  add = ◌+ℤ◌;
  sub = ◌-ℤ◌;
  mul = λ a b. signed a b (abs a * abs b / 100);
  div = λ a b. signed a b (abs a * 100 / abs b);
  lt = ltb_ℤ;
  eq = ◌==ℤ◌;
}

abbrev pub parked : VehicleSimulator ℤ
parked = record {
  speed_kmh = pos 0;
  rpm = pos 0;
  throttle_percent = pos 0;
  steering_angle = pos 0;
  brake_failed = false;
  engine_overheated = false;
}
