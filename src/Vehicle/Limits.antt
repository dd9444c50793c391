-- ===== src/Vehicle/Limits.antt =====
-- The limits that hold of the vehicle whatever is called, and the limp mode.
use automotive_testing_frame.Prelude.{◌≡◌, ap, ◌⊎◌, inl, inr, true, false, List, [], ◌∷◌, arith}
use automotive_testing_frame.Prelude.Int.{pos, negsuc}
use automotive_testing_frame.Vehicle.{
  Number, VehicleSimulator, Call, throttle, steering, brake_failure, engine_overheat, elapse,
  zero_f, max_f, min_f, set_throttle, set_steering, inject_brake_failure, inject_engine_overheat,
  next_rpm, target_speed, decelerated, next_speed, tick, call, calls,
}

-- What the simulator relies on: no number is both below and above another, the literals are in order,
-- and what is below a number that is not above 50 is below 50.
pub record IsOrdered {F : Type 0} (num : Number F) : Type 0 where
  pub asymmetric : (a b : F) → num.lt a b ≡ true → num.lt b a ≡ false
  pub zero_hundred : num.lt (num.whole (pos 0)) (num.whole (pos 100)) ≡ true
  pub negative_hundred : num.lt (num.whole (negsuc 99)) (num.whole (pos 100)) ≡ true
  pub zero_6000 : num.lt (num.whole (pos 0)) (num.whole (pos 6000)) ≡ true
  pub below_50 :
      (a b : F)
      → num.lt a b ≡ true
      → num.lt (num.whole (pos 50)) b ≡ false
      → num.lt a (num.whole (pos 50)) ≡ true

module _ {F : Type 0} (num : Number F) where
  abbrev pub IsWithin : F → F → F → Type 0
  IsWithin low high x = (num.lt x low ≡ false) × (num.lt high x ≡ false)

  pub record IsLimited (v : VehicleSimulator F) : Type 0 where
    pub throttle_limits : IsWithin (num.whole (pos 0)) (num.whole (pos 100)) v.throttle_percent
    pub steering_limits : IsWithin (num.whole (negsuc 99)) (num.whole (pos 100)) v.steering_angle
    pub rpm_limits : IsWithin (num.whole (pos 0)) (num.whole (pos 6000)) v.rpm
    pub speed_limit : num.lt v.speed_kmh (num.whole (pos 0)) ≡ false

  module _ (order : IsOrdered num) where
    irreflexive : (a : F) → num.lt a a ≡ false
    irreflexive a = ground (arith, order.asymmetric a a)

    clamp-IsWithin :
        (low high x : F)
        → num.lt low high ≡ true
        → IsWithin low high (max_f num low (min_f num high x))
    unfolding max_f min_f
    clamp-IsWithin low high x h = ground (
      arith,
      h,
      irreflexive low,
      irreflexive high,
      order.asymmetric low high,
      order.asymmetric low x,
      order.asymmetric x high,
    )

    max_f-zero : (x : F) → num.lt (max_f num (num.whole (pos 0)) x) (num.whole (pos 0)) ≡ false
    unfolding max_f
    max_f-zero x =
        ground (arith, irreflexive (num.whole (pos 0)), order.asymmetric (num.whole (pos 0)) x)

    call-IsLimited : (c : Call F) (v : VehicleSimulator F) → IsLimited v → IsLimited (call num c v)
    unfolding call set_throttle set_steering inject_brake_failure inject_engine_overheat tick
        next_rpm
    call-IsLimited (throttle percent) v l = record {
      throttle_limits = clamp-IsWithin _ _ percent order.zero_hundred;
      steering_limits = l.steering_limits;
      rpm_limits = l.rpm_limits;
      speed_limit = l.speed_limit;
    }
    call-IsLimited (steering angle) v l = record {
      throttle_limits = l.throttle_limits;
      steering_limits = clamp-IsWithin _ _ angle order.negative_hundred;
      rpm_limits = l.rpm_limits;
      speed_limit = l.speed_limit;
    }
    call-IsLimited brake_failure v l = record {
      throttle_limits = l.throttle_limits;
      steering_limits = l.steering_limits;
      rpm_limits = l.rpm_limits;
      speed_limit = l.speed_limit;
    }
    call-IsLimited engine_overheat v l = record {
      throttle_limits = l.throttle_limits;
      steering_limits = l.steering_limits;
      rpm_limits = l.rpm_limits;
      speed_limit = l.speed_limit;
    }
    call-IsLimited (elapse dt) v l = record {
      throttle_limits = l.throttle_limits;
      steering_limits = l.steering_limits;
      rpm_limits = clamp-IsWithin _ _ _ order.zero_6000;
      speed_limit = max_f-zero _;
    }

    -- From a vehicle within its limits, whatever methods are called in whatever order with
    -- whatever numbers, the throttle stays within 0 and 100, the steering within -100 and 100, the
    -- engine speed within 0 and 6000, and the speed is not negative, if the numbers are ordered.
    pub calls-IsLimited :
        (cs : List (Call F)) (v : VehicleSimulator F) → IsLimited v → IsLimited (calls num cs v)
    unfolding calls
    calls-IsLimited [] v l = l
    calls-IsLimited (c ∷ cs) v l = calls-IsLimited cs (call num c v) (call-IsLimited c v l)

    target_speed-limp :
        (rpm : F) (v : VehicleSimulator F)
        → v.engine_overheated ≡ true
        → num.lt v.speed_kmh (num.whole (pos 50)) ≡ false
        → num.lt v.speed_kmh (target_speed num rpm v) ≡ false
    unfolding target_speed min_f
    target_speed-limp rpm v hot fast =
        ground (arith, hot, fast, order.below_50 v.speed_kmh (num.mul rpm (num.hundredths 3)))

    next_speed_not_accelerated :
        (dt target : F) (v : VehicleSimulator F)
        → num.lt v.speed_kmh target ≡ false
        → (next_speed num dt target v ≡ v.speed_kmh)
          ⊎ (next_speed num dt target v ≡ decelerated num dt v)
    unfolding next_speed
    next_speed_not_accelerated dt target v slow = ground arith

    -- An overheated engine does not accelerate a vehicle that runs 50 or more: in a tick it keeps
    -- its speed or brakes, down to 0 at most, if the numbers are ordered.
    limp_mode :
        (dt : F) (v : VehicleSimulator F)
        → v.engine_overheated ≡ true
        → num.lt v.speed_kmh (num.whole (pos 50)) ≡ false
        → let after = (tick num dt v).speed_kmh in
          (after ≡ max_f num (zero_f num) v.speed_kmh)
          ⊎ (after ≡ max_f num (zero_f num) (decelerated num dt v))
    unfolding tick
    limp_mode dt v hot fast =
        let rpm = next_rpm num dt v in
        elim (next_speed_not_accelerated dt (target_speed num rpm v) v
          (target_speed-limp rpm v hot fast)) [
            | inl e ↦ inl (ap (max_f num (zero_f num)) e)
            | inr e ↦ inr (ap (max_f num (zero_f num)) e)
          ]
