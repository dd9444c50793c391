-- ===== src/Aeb.antt =====
-- subProj 2 Automated ADAS AEB SiL Tester/aeb_logic.cpp, which aeb_wrapper.py calls: the braking force.
use automotive_testing_frame.Prelude.{
  Result, ok, err, ◌>>=◌, ℕ, zero, suc, ◌+◌, ◌-◌, ◌*◌, ◌/◌, ◌%◌, ◌^◌, ◌≤◌, ◌<◌, ◌≡◌, refl, sym, ap,
  ◌∙◌, ◌≢◌, ◌↔◌, ◌⊎◌, inl, inr, Bool, true, false, not, ◌&&◌, ◌||◌, Option, none, some, List, [],
  ◌∷◌, ◌++◌, map, arith, ltb, leb, ◌==◌, if◌then◌else◌, length, take, drop, All, Bool-cases,
  Option-cases, get_or, length-append,
}
use automotive_testing_frame.Prelude.Bytes.{Bytes, be16, be32, pack_be16, unpack_be16}
use automotive_testing_frame.Prelude.Int.{ℤ, pos, negsuc}
pub mod Debounce
mod Tests

-- What the code does with a `double`: literals in tenths, division, tests.
pub record Double (F : Type 0) : Type 0 where
  pub tenths : ℤ → F
  pub div : F → F → F
  pub lt : F → F → Bool
  pub le : F → F → Bool
  pub eq : F → F → Bool
  pub is_nan : F → Bool
  pub is_inf : F → Bool

pub record Reading (F : Type 0) : Type 0 where
  pub ego_speed : F
  pub obj_distance : F
  pub speed_relative : F

-- The largest `int`; one more overflows, and C++ leaves undefined what then happens.
abbrev pub int_max : ℕ
int_max = 2 ^ 31 - 1

pub data Undefined : Type 0 where
  int_overflow : Undefined

module _ {F : Type 0} (double : Double F) where
  -- The first test: `isnan(x) || isinf(x)` of each input.
  unfoldable pub is_faulty : Reading F → Bool
  is_faulty r =
      double.is_nan r.ego_speed
      || double.is_inf r.ego_speed
      || double.is_nan r.obj_distance
      || double.is_inf r.obj_distance
      || double.is_nan r.speed_relative
      || double.is_inf r.speed_relative

  unfoldable pub speed_rel_ms : Reading F → F
  speed_rel_ms r = double.div r.speed_relative (double.tenths (pos 36))

  unfoldable pub ttc : Reading F → F
  ttc r = double.div r.obj_distance (speed_rel_ms r)

  -- The flush signal of the tests.
  unfoldable pub is_flush : Reading F → Bool
  is_flush r =
      double.eq r.obj_distance (double.tenths (pos 10000))
      && double.eq r.speed_relative (double.tenths (negsuc 99))

  -- The last tests, on the time to collision. The number is the static counter of danger ticks.
  unfoldable pub brake : Reading F → ℕ → Result Undefined (ℕ × ℕ)
  brake r consecutive_danger_ticks =
      if double.lt (ttc r) (double.tenths (pos 10))
      then if consecutive_danger_ticks == int_max
        then err int_overflow
        else ok
            (if leb 3 (consecutive_danger_ticks + 1) then 100 else 50, consecutive_danger_ticks + 1)
      else if double.lt (ttc r) (double.tenths (pos 25))
      then ok (50, 0)
      else ok (0, 0)

  unfoldable pub calculate_braking_force : Reading F → ℕ → Result Undefined (ℕ × ℕ)
  calculate_braking_force r consecutive_danger_ticks =
      if is_faulty r
      then ok (0, consecutive_danger_ticks)
      else if double.le r.ego_speed (double.tenths (pos 0))
      then ok (0, consecutive_danger_ticks)
      else if double.lt r.obj_distance (double.tenths (pos 0))
      then ok (0, consecutive_danger_ticks)
      else if double.le (speed_rel_ms r) (double.tenths (pos 0))
      then ok (0, consecutive_danger_ticks)
      else if is_flush r
      then ok (0, 0)
      else brake r consecutive_danger_ticks

  -- AEBSystem.evaluate over a sequence of readings: the forces, and the counter at the end.
  unfoldable pub evaluate_all : List (Reading F) → ℕ → Result Undefined (List ℕ × ℕ)
  evaluate_all [] n = ok ([], n)
  evaluate_all (r ∷ rs) n = do
    (force, n') ← calculate_braking_force r n
    (forces, last) ← evaluate_all rs n'
    ok (force ∷ forces, last)
