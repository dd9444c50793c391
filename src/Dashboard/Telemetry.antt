-- ===== src/Dashboard/Telemetry.antt =====
-- The speed and the engine speed that the window shows, and the colour of the speed.
use automotive_testing_frame.Vehicle.{
  Number, set_throttle, set_steering, inject_brake_failure, inject_engine_overheat, tick,
}
use automotive_testing_frame.Dashboard.{
  MockDashboard, Event, throttle_moved, steering_moved, brake_clicked, overheat_clicked, timeout,
  label, rpm_text, speed_text, speed_style, on_throttle_changed, on_steering_changed,
  on_inject_brake_fault, on_inject_overheat_fault, show_steering, show_rpm, show_speed,
  update_simulation, handle, handle_all,
}
use automotive_testing_frame.Prelude.{
  ◌≡◌, refl, sym, ap, ◌∙◌, inl, inr, Bool, true, false, ◌&&◌, Option, some, List, [], ◌∷◌, arith,
  Option-cases,
}
use automotive_testing_frame.Prelude.Int.{ℤ}

abbrev pub is_input : Event → Bool
is_input timeout = false
is_input e = true

abbrev pub all_inputs : List Event → Bool
all_inputs [] = true
all_inputs (e ∷ es) = is_input e && all_inputs es

module _ {F : Type 0} (num : Number F) (int : F → Option ℤ) where
  -- The labels show the vehicle's own numbers, and the speed is red exactly above 120.
  pub record IsTelemetry (d : MockDashboard F) : Type 0 where
    pub speed : ℤ
    pub rpm : ℤ
    pub speed_value : int d.sim.speed_kmh ≡ some speed
    pub rpm_value : int d.sim.rpm ≡ some rpm
    pub speed_shown : d.speed_label ≡ label (speed_text speed) (speed_style num int speed)
    pub rpm_shown : d.rpm_label.text ≡ rpm_text rpm

  show_steering-completes :
      (speed : ℤ) (d : MockDashboard F)
      → (show_steering num int speed d).1 ≡ true
      → let shown = (show_steering num int speed d).0 in
        (shown.speed_label ≡ label d.speed_label.text (speed_style num int speed))
        × (shown.rpm_label ≡ d.rpm_label)
        × (shown.sim ≡ d.sim)
  unfolding show_steering
  show_steering-completes speed d h = ground arith

  show_rpm-completes :
      (speed : ℤ) (d : MockDashboard F)
      → int d.sim.speed_kmh ≡ some speed
      → d.speed_label.text ≡ speed_text speed
      → (show_rpm num int speed d).1 ≡ true
      → IsTelemetry (show_rpm num int speed d).0
  unfolding show_rpm
  show_rpm-completes speed d here text h = elim (Option-cases (int d.sim.rpm)) [
    | inl e ↦ absurd (ground (arith, e, h))
    | inr (x, e) ↦
        let next : MockDashboard F = record d {
          rpm_label = record d.rpm_label { text = rpm_text x };
        } in
        let step : (show_rpm num int speed d) ≡ show_steering num int speed next =
          rw (show_rpm, e) refl in
        let (sl, rl, si) = show_steering-completes speed next (sym (ap (λ p. p.1) step) ∙ h) in
        rw step (record {
          speed = speed;
          rpm = x;
          speed_value = rw si here;
          rpm_value = rw si e;
          speed_shown = rw (sl, text) refl;
          rpm_shown = rw rl refl;
        })
  ]

  show_speed-completes :
      (d : MockDashboard F) → (show_speed num int d).1 ≡ true → IsTelemetry (show_speed num int d).0
  unfolding show_speed
  show_speed-completes d h = elim (Option-cases (int d.sim.speed_kmh)) [
    | inl e ↦ absurd (ground (arith, e, h))
    | inr (x, e) ↦
        let next : MockDashboard F = record d {
          speed_label = record d.speed_label { text = speed_text x };
        } in
        let step : (show_speed num int d) ≡ show_rpm num int x next = rw (show_speed, e) refl in
        rw step (show_rpm-completes x next e refl (sym (ap (λ p. p.1) step) ∙ h))
  ]

  input-IsTelemetry :
      (e : Event) (d : MockDashboard F)
      → is_input e ≡ true
      → IsTelemetry d
      → IsTelemetry (handle num int e d)
  unfolding handle on_throttle_changed on_steering_changed on_inject_brake_fault
      on_inject_overheat_fault set_throttle set_steering inject_brake_failure inject_engine_overheat
  input-IsTelemetry (throttle_moved value) d i t = record {
    speed = t.speed;
    rpm = t.rpm;
    speed_value = t.speed_value;
    rpm_value = t.rpm_value;
    speed_shown = t.speed_shown;
    rpm_shown = t.rpm_shown;
  }
  input-IsTelemetry (steering_moved value) d i t = record {
    speed = t.speed;
    rpm = t.rpm;
    speed_value = t.speed_value;
    rpm_value = t.rpm_value;
    speed_shown = t.speed_shown;
    rpm_shown = t.rpm_shown;
  }
  input-IsTelemetry brake_clicked d i t = record {
    speed = t.speed;
    rpm = t.rpm;
    speed_value = t.speed_value;
    rpm_value = t.rpm_value;
    speed_shown = t.speed_shown;
    rpm_shown = t.rpm_shown;
  }
  input-IsTelemetry overheat_clicked d i t = record {
    speed = t.speed;
    rpm = t.rpm;
    speed_value = t.speed_value;
    rpm_value = t.rpm_value;
    speed_shown = t.speed_shown;
    rpm_shown = t.rpm_shown;
  }
  input-IsTelemetry timeout d i t = cc

  inputs-IsTelemetry :
      (es : List Event) (d : MockDashboard F)
      → all_inputs es ≡ true
      → IsTelemetry d
      → IsTelemetry (handle_all num int es d)
  unfolding handle_all
  inputs-IsTelemetry [] d i t = t
  inputs-IsTelemetry (e ∷ es) d i t =
      inputs-IsTelemetry es (handle num int e d) (ground (arith, i))
        (input-IsTelemetry e d (ground (arith, i)) t)

  -- After a tick that comes to its end, and until the next one, whatever is moved or clicked between,
  -- the window shows the vehicle's own speed and engine speed, and the speed is red exactly
  -- above 120.
  update_simulation-IsTelemetry :
      (es : List Event) (d : MockDashboard F)
      → (update_simulation num int d).1 ≡ true
      → all_inputs es ≡ true
      → IsTelemetry (handle_all num int es (update_simulation num int d).0)
  unfolding update_simulation
  update_simulation-IsTelemetry es d h i =
      inputs-IsTelemetry es (update_simulation num int d).0 i
        (show_speed-completes (record d { sim = tick num (num.hundredths 10) d.sim }) h)
