-- ===== src/Vehicle.antt =====
-- subProj 6 HIL Mock Dashboard/vehicle_sim.py: the simulated vehicle, over an interface of numbers.
use automotive_testing_frame.Prelude.{
  ℕ, zero, suc, ◌+◌, ◌-◌, ◌*◌, ◌/◌, ◌%◌, ◌^◌, ◌≤◌, ◌<◌, ◌≡◌, refl, sym, ap, ◌∙◌, ◌≢◌, ◌↔◌, ◌⊎◌, inl,
  inr, Bool, true, false, not, ◌&&◌, ◌||◌, Option, none, some, List, [], ◌∷◌, ◌++◌, map, arith, ltb,
  leb, ◌==◌, if◌then◌else◌, length, take, drop, All, Bool-cases, Option-cases, get_or,
  length-append,
}
use automotive_testing_frame.Prelude.Int.{ℤ, pos, negsuc}
pub mod Limits
pub mod Cents
mod Tests

-- What the simulator uses of Python's float: the literals by integers and by hundredths, arithmetic,
-- and the comparisons, which are false at a nan.
pub record Number (F : Type 0) : Type 0 where
  pub whole : ℤ → F
  pub hundredths : ℕ → F
  pub add : F → F → F
  pub sub : F → F → F
  pub mul : F → F → F
  pub div : F → F → F
  pub lt : F → F → Bool
  pub eq : F → F → Bool

pub record VehicleSimulator (F : Type 0) : Type 0 where
  pub speed_kmh : F
  pub rpm : F
  pub throttle_percent : F
  pub steering_angle : F
  pub brake_failed : Bool
  pub engine_overheated : Bool

-- One call of a method.
pub data Call (F : Type 0) : Type 0 where
  throttle steering : F → Call F
  brake_failure engine_overheat : Call F
  elapse : F → Call F

module _ {F : Type 0} (num : Number F) where
  abbrev pub zero_f : F
  zero_f = num.whole (pos 0)

  -- `max(a, b)` and `min(a, b)` of the language: the first argument unless the second is beyond it.
  unfoldable pub max_f : F → F → F
  max_f a b = if num.lt a b then b else a

  unfoldable pub min_f : F → F → F
  min_f a b = if num.lt b a then b else a

  unfoldable pub init : VehicleSimulator F
  init = record {
    speed_kmh = zero_f;
    rpm = zero_f;
    throttle_percent = zero_f;
    steering_angle = zero_f;
    brake_failed = false;
    engine_overheated = false;
  }

  unfoldable pub set_throttle : F → VehicleSimulator F → VehicleSimulator F
  set_throttle percent v = record v {
    throttle_percent = max_f zero_f (min_f (num.whole (pos 100)) percent);
  }

  unfoldable pub set_steering : F → VehicleSimulator F → VehicleSimulator F
  set_steering angle v = record v {
    steering_angle = max_f (num.whole (negsuc 99)) (min_f (num.whole (pos 100)) angle);
  }

  unfoldable pub inject_brake_failure : VehicleSimulator F → VehicleSimulator F
  inject_brake_failure v = record v { brake_failed = true }

  unfoldable pub inject_engine_overheat : VehicleSimulator F → VehicleSimulator F
  inject_engine_overheat v = record v { engine_overheated = true }

  -- The engine speed after the smoothing and the clamp.
  unfoldable pub next_rpm : F → VehicleSimulator F → F
  next_rpm dt v =
      let target_rpm = num.mul v.throttle_percent (num.whole (pos 60)) in
      let smoothed =
        if num.lt v.rpm target_rpm
        then num.add v.rpm (num.mul (num.whole (pos 2000)) dt)
        else if num.lt target_rpm v.rpm
        then num.sub v.rpm (num.mul (num.whole (pos 1500)) dt)
        else v.rpm in
      max_f zero_f (min_f (num.whole (pos 6000)) smoothed)

  unfoldable pub target_speed : F → VehicleSimulator F → F
  target_speed rpm v =
      let target = num.mul rpm (num.hundredths 3) in
      if v.engine_overheated then min_f target (num.whole (pos 50)) else target

  unfoldable pub accelerated : F → VehicleSimulator F → F
  accelerated dt v =
      num.add v.speed_kmh (
        num.mul (num.mul (num.whole (pos 10)) dt)
          (num.div v.throttle_percent (num.whole (pos 100))))

  unfoldable pub decelerated : F → VehicleSimulator F → F
  decelerated dt v =
      if v.brake_failed && num.eq v.throttle_percent zero_f
      then num.sub v.speed_kmh (num.mul (num.whole (pos 1)) dt)
      else num.sub v.speed_kmh (num.mul (num.whole (pos 15)) dt)

  unfoldable pub next_speed : F → F → VehicleSimulator F → F
  next_speed dt target v =
      if num.lt v.speed_kmh target
      then accelerated dt v
      else if num.lt target v.speed_kmh
      then decelerated dt v
      else v.speed_kmh

  unfoldable pub tick : F → VehicleSimulator F → VehicleSimulator F
  tick dt v =
      let rpm = next_rpm dt v in
      record v { rpm = rpm; speed_kmh = max_f zero_f (next_speed dt (target_speed rpm v) v) }

  unfoldable pub call : Call F → VehicleSimulator F → VehicleSimulator F
  call (throttle percent) v = set_throttle percent v
  call (steering angle) v = set_steering angle v
  call brake_failure v = inject_brake_failure v
  call engine_overheat v = inject_engine_overheat v
  call (elapse dt) v = tick dt v

  unfoldable pub calls : List (Call F) → VehicleSimulator F → VehicleSimulator F
  calls [] v = v
  calls (c ∷ cs) v = calls cs (call c v)
