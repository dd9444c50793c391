-- ===== src/Vehicle/Tests.antt =====
-- The vehicle over fixed-point numbers with two decimals.
use automotive_testing_frame.Vehicle.Cents.{cents, parked}
use automotive_testing_frame.Prelude.{◌≡◌, refl, true, List, [], ◌∷◌, arith}
use automotive_testing_frame.Prelude.Int.{ℤ, pos}
use automotive_testing_frame.Vehicle.{
  VehicleSimulator, Call, throttle, elapse, engine_overheat, init, calls,
}
use automotive_testing_frame.Vehicle.Limits.{IsOrdered, IsLimited, calls-IsLimited}

cents-IsOrdered : IsOrdered cents
cents-IsOrdered = record {
  asymmetric = λ a b h. ground arith;
  zero_hundred = refl;
  negative_hundred = refl;
  zero_6000 = refl;
  below_50 = λ a b h k. ground arith;
}

parked-init : init cents ≡ parked
unfolding init
parked-init = refl

parked-IsLimited : IsLimited cents parked
parked-IsLimited = record {
  throttle_limits = (refl, refl);
  steering_limits = (refl, refl);
  rpm_limits = (refl, refl);
  speed_limit = refl;
}

abbrev drive : List (Call ℤ)
drive = throttle (pos 15000) ∷ elapse (pos 10) ∷ engine_overheat ∷ elapse (pos 10) ∷ []

calls-IsLimited_example : IsLimited cents (calls cents drive parked)
calls-IsLimited_example = calls-IsLimited cents cents-IsOrdered drive parked parked-IsLimited

abbrev speeding : VehicleSimulator ℤ
speeding = record parked {
  speed_kmh = pos 9000;
  throttle_percent = pos 10000;
  rpm = pos 500000;
  engine_overheated = true;
}
