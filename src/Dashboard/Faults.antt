-- ===== src/Dashboard/Faults.antt =====
-- The faults that the window shows and the calls that it makes of the simulated vehicle.
use automotive_testing_frame.Vehicle.{
  Number, VehicleSimulator, Call, throttle, steering, brake_failure, engine_overheat, elapse,
  set_throttle, set_steering, inject_brake_failure, inject_engine_overheat, tick, call, calls,
}
use automotive_testing_frame.Dashboard.{
  Label, MockDashboard, Event, throttle_moved, steering_moved, brake_clicked, overheat_clicked,
  timeout, no_fault, brake_fault, overheat_fault, rpm_text, speed_text, init, on_throttle_changed,
  on_steering_changed, on_inject_brake_fault, on_inject_overheat_fault, show_steering, show_rpm,
  show_speed, update_simulation, handle, handle_all,
}
use automotive_testing_frame.Prelude.{
  ◌≡◌, refl, ap, ◌∙◌, ◌⊎◌, inl, inr, Bool, true, false, not, Option, List, [], ◌∷◌, map,
  Option-cases,
}
use automotive_testing_frame.Prelude.Int.{ℤ}

-- The methods of the vehicle that a handler calls.
module _ {F : Type 0} (num : Number F) where
  abbrev pub call_of : Event → Call F
  call_of (throttle_moved value) = throttle (num.whole value)
  call_of (steering_moved value) = steering (num.whole value)
  call_of brake_clicked = brake_failure
  call_of overheat_clicked = engine_overheat
  call_of timeout = elapse (num.hundredths 10)

-- The label of the faults, against the faults of the vehicle.
abbrev pub IsShown : Label → Bool → Bool → Type 0
IsShown shown brake_failed overheated =
    (shown ≡ no_fault × brake_failed ≡ false × overheated ≡ false)
    ⊎ (shown ≡ brake_fault × brake_failed ≡ true)
    ⊎ (shown ≡ overheat_fault × overheated ≡ true)

pub record IsConsistent {F : Type 0} (d : MockDashboard F) : Type 0 where
  pub fault_shown : IsShown d.fault_label d.sim.brake_failed d.sim.engine_overheated
  pub brake_button : d.inject_btn.enabled ≡ not d.sim.brake_failed
  pub overheat_button : d.overheat_btn.enabled ≡ not d.sim.engine_overheated

-- What the labels of the telemetry leave alone.
pub record SameRest {F : Type 0} (d e : MockDashboard F) : Type 0 where
  pub same_sim : d.sim ≡ e.sim
  pub same_fault : d.fault_label ≡ e.fault_label
  pub same_inject : d.inject_btn ≡ e.inject_btn
  pub same_overheat : d.overheat_btn ≡ e.overheat_btn

module _ {F : Type 0} (num : Number F) (int : F → Option ℤ) where
  same : (d : MockDashboard F) → SameRest d d
  same d = record { same_sim = refl; same_fault = refl; same_inject = refl; same_overheat = refl }

  pub show_steering-SameRest :
      (speed : ℤ) (d : MockDashboard F) → SameRest (show_steering num int speed d).0 d
  unfolding show_steering
  show_steering-SameRest speed d = elim (Option-cases (int d.sim.steering_angle)) [
    | inl e ↦ rw (show_steering, e) (same d)
    | inr (x, e) ↦
        rw (show_steering, e)
          (record { same_sim = refl; same_fault = refl; same_inject = refl; same_overheat = refl })
  ]

  show_rpm-SameRest : (speed : ℤ) (d : MockDashboard F) → SameRest (show_rpm num int speed d).0 d
  unfolding show_rpm
  show_rpm-SameRest speed d = elim (Option-cases (int d.sim.rpm)) [
    | inl e ↦ rw (show_rpm, e) (same d)
    | inr (x, e) ↦
        let shown =
          show_steering-SameRest speed
            (record d { rpm_label = record d.rpm_label { text = rpm_text x } }) in
        rw (show_rpm, e)
          (record {
            same_sim = shown.same_sim;
            same_fault = shown.same_fault;
            same_inject = shown.same_inject;
            same_overheat = shown.same_overheat;
          })
  ]

  pub show_speed-SameRest : (d : MockDashboard F) → SameRest (show_speed num int d).0 d
  unfolding show_speed
  show_speed-SameRest d = elim (Option-cases (int d.sim.speed_kmh)) [
    | inl e ↦ rw (show_speed, e) (same d)
    | inr (x, e) ↦
        let shown =
          show_rpm-SameRest x
            (record d { speed_label = record d.speed_label { text = speed_text x } }) in
        rw (show_speed, e)
          (record {
            same_sim = shown.same_sim;
            same_fault = shown.same_fault;
            same_inject = shown.same_inject;
            same_overheat = shown.same_overheat;
          })
  ]

  handle-sim :
      (e : Event) (d : MockDashboard F) → (handle num int e d).sim ≡ call num (call_of num e) d.sim
  unfolding handle on_throttle_changed on_steering_changed on_inject_brake_fault
      on_inject_overheat_fault update_simulation call
  handle-sim (throttle_moved value) d = refl
  handle-sim (steering_moved value) d = refl
  handle-sim brake_clicked d = refl
  handle-sim overheat_clicked d = refl
  handle-sim timeout d =
      (show_speed-SameRest (record d { sim = tick num (num.hundredths 10) d.sim })).same_sim

  -- Whatever happens in the window, its vehicle is the simulator after one call for each event, in
  -- the same order, also where a handler raises.
  handle_all-sim :
      (es : List Event) (d : MockDashboard F)
      → (handle_all num int es d).sim ≡ calls num (map (call_of num) es) d.sim
  unfolding handle_all calls
  handle_all-sim [] d = refl
  handle_all-sim (e ∷ es) d =
      handle_all-sim es (handle num int e d)
      ∙ ap (calls num (map (call_of num) es)) (handle-sim e d)

  handle-IsConsistent :
      (e : Event) (d : MockDashboard F) → IsConsistent d → IsConsistent (handle num int e d)
  unfolding handle on_throttle_changed on_steering_changed on_inject_brake_fault
      on_inject_overheat_fault update_simulation set_throttle set_steering inject_brake_failure
      inject_engine_overheat tick
  handle-IsConsistent (throttle_moved value) d c = record {
    fault_shown = c.fault_shown;
    brake_button = c.brake_button;
    overheat_button = c.overheat_button;
  }
  handle-IsConsistent (steering_moved value) d c = record {
    fault_shown = c.fault_shown;
    brake_button = c.brake_button;
    overheat_button = c.overheat_button;
  }
  handle-IsConsistent brake_clicked d c = record {
    fault_shown = inr (inl (refl, refl));
    brake_button = refl;
    overheat_button = c.overheat_button;
  }
  handle-IsConsistent overheat_clicked d c = record {
    fault_shown = inr (inr (refl, refl));
    brake_button = c.brake_button;
    overheat_button = refl;
  }
  handle-IsConsistent timeout d c =
      let rest = show_speed-SameRest (record d { sim = tick num (num.hundredths 10) d.sim }) in
      record {
        fault_shown = rw (rest.same_fault, rest.same_sim) c.fault_shown;
        brake_button = rw (rest.same_inject, rest.same_sim) c.brake_button;
        overheat_button = rw (rest.same_overheat, rest.same_sim) c.overheat_button;
      }

  handle_all_invariant :
      (es : List Event) (d : MockDashboard F)
      → IsConsistent d
      → IsConsistent (handle_all num int es d)
  unfolding handle_all
  handle_all_invariant [] d c = c
  handle_all_invariant (e ∷ es) d c =
      handle_all_invariant es (handle num int e d) (handle-IsConsistent e d c)

  -- A window over a vehicle without faults stays consistent, whatever happens in it: each button is
  -- enabled exactly as long as its fault is not injected, the label says OK only of a vehicle
  -- without faults, and else it names a fault that the vehicle has.
  pub handle_all-IsConsistent :
      (es : List Event) (v : VehicleSimulator F)
      → v.brake_failed ≡ false
      → v.engine_overheated ≡ false
      → IsConsistent (handle_all num int es (init num int v))
  unfolding init
  handle_all-IsConsistent es v b o = handle_all_invariant es (init num int v) (record {
    fault_shown = inl (refl, b, o);
    brake_button = rw b refl;
    overheat_button = rw o refl;
  })
