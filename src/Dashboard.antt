-- ===== src/Dashboard.antt =====
-- subProj 6 HIL Mock Dashboard/dashboard.py: the window in front of the simulated vehicle.
pub mod Faults
pub mod Telemetry
mod Tests
use automotive_testing_frame.Vehicle.{
  Number, VehicleSimulator, set_throttle, set_steering, inject_brake_failure,
  inject_engine_overheat, tick,
}
use automotive_testing_frame.Prelude.{
  ℕ, zero, suc, ◌+◌, ◌-◌, ◌*◌, ◌/◌, ◌%◌, ◌^◌, ◌≤◌, ◌<◌, ◌≡◌, refl, sym, ap, ◌∙◌, ◌≢◌, ◌↔◌, ◌⊎◌, inl,
  inr, Bool, true, false, not, ◌&&◌, ◌||◌, Option, none, some, List, [], ◌∷◌, ◌++◌, map, arith, ltb,
  leb, ◌==◌, if◌then◌else◌, length, take, drop, All, Result, ok, err, ◌>>=◌, Bool-cases,
  Option-cases, get_or, length-append,
}
use automotive_testing_frame.Prelude.Int.{ℤ, pos, negsuc, ltb_ℤ}
use automotive_testing_frame.Prelude.Texts.{
  show_ℤ, Text, codes, is_space, strip, split_on, is_in, join, show_ℕ, starts_with,
}

pub record Label : Type 0 where
  pub text : Text
  pub style : Text

pub record Slider : Type 0 where
  pub minimum : ℤ
  pub maximum : ℤ
  pub value : ℤ

pub record Button : Type 0 where
  pub caption : Text
  pub style : Text
  pub enabled : Bool

pub record MockDashboard (F : Type 0) : Type 0 where
  pub sim : VehicleSimulator F
  pub speed_label : Label
  pub rpm_label : Label
  pub steering_label : Label
  pub fault_label : Label
  pub throttle_slider : Slider
  pub steering_slider : Slider
  pub inject_btn : Button
  pub overheat_btn : Button

-- What Qt's event loop calls: a slider that moved, a button that was clicked, the timer.
pub data Event : Type 0 where
  throttle_moved steering_moved : ℤ → Event
  brake_clicked overheat_clicked : Event
  timeout : Event

abbrev pub label : Text → Text → Label
label text style = record { text = text; style = style }

abbrev pub no_fault : Label
no_fault = label (codes "SYSTEM: OK") (codes "color: green; font-weight: bold;")

abbrev pub brake_fault : Label
brake_fault = label (codes "SYSTEM: BRAKE FAILURE") (codes "color: red; font-weight: bold;")

abbrev pub overheat_fault : Label
overheat_fault =
    label (codes "SYSTEM: ENGINE OVERHEAT") (codes "color: darkorange; font-weight: bold;")

abbrev pub speed_text : ℤ → Text
speed_text speed = codes "Speed: " ++ show_ℤ speed ++ codes " km/h"

abbrev pub rpm_text : ℤ → Text
rpm_text rpm = codes "RPM: " ++ show_ℤ rpm

abbrev pub steering_text : ℤ → Text
steering_text angle = codes "Steering: " ++ show_ℤ angle ++ codes "°"

-- The simulator's numbers, and Python's `int` of one, which raises at a nan and at an infinity.
module _ {F : Type 0} (num : Number F) (int : F → Option ℤ) where
  -- `__init__` and `init_ui`, without the layout
  unfoldable pub init : VehicleSimulator F → MockDashboard F
  init simulator = record {
    sim = simulator;
    speed_label = label (codes "Speed: 0 km/h") (codes "font-size: 24px; font-weight: bold;");
    rpm_label = label (codes "RPM: 0") (codes "font-size: 20px;");
    steering_label = label (codes "Steering: 0°") (codes "font-size: 20px;");
    fault_label = no_fault;
    throttle_slider = record { minimum = pos 0; maximum = pos 100; value = pos 0 };
    steering_slider = record { minimum = negsuc 99; maximum = pos 100; value = pos 0 };
    inject_btn = record {
      caption = codes "Inject Brake Failure";
      style = codes "background-color: red; color: white; font-weight: bold;";
      enabled = true;
    };
    overheat_btn = record {
      caption = codes "Inject Engine Overheat";
      style = codes "background-color: darkorange; color: white; font-weight: bold;";
      enabled = true;
    };
  }

  unfoldable pub on_throttle_changed : ℤ → MockDashboard F → MockDashboard F
  on_throttle_changed value d = record d { sim = set_throttle num (num.whole value) d.sim }

  unfoldable pub on_steering_changed : ℤ → MockDashboard F → MockDashboard F
  on_steering_changed value d = record d { sim = set_steering num (num.whole value) d.sim }

  unfoldable pub on_inject_brake_fault : MockDashboard F → MockDashboard F
  on_inject_brake_fault d = record d {
    sim = inject_brake_failure num d.sim;
    fault_label = brake_fault;
    inject_btn = record d.inject_btn { enabled = false };
  }

  unfoldable pub on_inject_overheat_fault : MockDashboard F → MockDashboard F
  on_inject_overheat_fault d = record d {
    sim = inject_engine_overheat num d.sim;
    fault_label = overheat_fault;
    overheat_btn = record d.overheat_btn { enabled = false };
  }

  -- The style of the speed, above 120 and below.
  abbrev pub speed_style : ℤ → Text
  speed_style speed =
      if ltb_ℤ (pos 120) speed
      then codes "font-size: 24px; font-weight: bold; color: red;"
      else codes "font-size: 24px; font-weight: bold; color: black;"

  abbrev pub warn : ℤ → MockDashboard F → MockDashboard F
  warn speed d = record d { speed_label = record d.speed_label { style = speed_style speed } }

  -- The labels in their order: where `int` raises, the rest is not reached. The Boolean says whether
  -- the handler came to its end.
  unfoldable pub show_steering : ℤ → MockDashboard F → MockDashboard F × Bool
  show_steering speed d = elim (int d.sim.steering_angle) [
    | none ↦ (d, false)
    | some angle ↦ (
      warn speed
          (record d { steering_label = record d.steering_label { text = steering_text angle } }),
      true,
    )
  ]

  unfoldable pub show_rpm : ℤ → MockDashboard F → MockDashboard F × Bool
  show_rpm speed d = elim (int d.sim.rpm) [
    | none ↦ (d, false)
    | some rpm ↦
        show_steering speed (record d { rpm_label = record d.rpm_label { text = rpm_text rpm } })
  ]

  unfoldable pub show_speed : MockDashboard F → MockDashboard F × Bool
  show_speed d = elim (int d.sim.speed_kmh) [
    | none ↦ (d, false)
    | some speed ↦
        show_rpm speed (record d { speed_label = record d.speed_label { text = speed_text speed } })
  ]

  unfoldable pub update_simulation : MockDashboard F → MockDashboard F × Bool
  update_simulation d = show_speed (record d { sim = tick num (num.hundredths 10) d.sim })

  -- One handler; the event loop goes on after one that raised.
  unfoldable pub handle : Event → MockDashboard F → MockDashboard F
  handle (throttle_moved value) d = on_throttle_changed value d
  handle (steering_moved value) d = on_steering_changed value d
  handle brake_clicked d = on_inject_brake_fault d
  handle overheat_clicked d = on_inject_overheat_fault d
  handle timeout d = (update_simulation d).0

  unfoldable pub handle_all : List Event → MockDashboard F → MockDashboard F
  handle_all [] d = d
  handle_all (e ∷ es) d = handle_all es (handle e d)
