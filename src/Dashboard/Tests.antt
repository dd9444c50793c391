-- ===== src/Dashboard/Tests.antt =====
-- A window over a parked vehicle with numbers of two decimals, and the properties of the window at it.
use automotive_testing_frame.Vehicle.Cents.{cents, parked}
use automotive_testing_frame.Vehicle.{
  decelerated, VehicleSimulator, set_throttle, inject_brake_failure, inject_engine_overheat,
  next_rpm, target_speed, next_speed, accelerated, max_f, min_f, tick,
}
use automotive_testing_frame.Dashboard.{
  Event, throttle_moved, steering_moved, brake_clicked, overheat_clicked, timeout, overheat_fault,
  init, on_throttle_changed, on_inject_brake_fault, on_inject_overheat_fault, show_steering,
  show_rpm, show_speed, update_simulation, handle, handle_all,
}
use automotive_testing_frame.Dashboard.Faults.{IsConsistent, handle_all-IsConsistent}
use automotive_testing_frame.Prelude.{suc, ◌/◌, ◌≡◌, refl, true, false, Option, some, List, [], ◌∷◌}
use automotive_testing_frame.Prelude.Int.{ℤ, pos, negsuc, sub_ℕ, ◌+ℤ◌, ◌-ℤ◌}
use automotive_testing_frame.Prelude.Texts.{codes, digits_of}

-- `int` of such a number: towards zero
abbrev whole_part : ℤ → Option ℤ
whole_part (pos n) = some (pos (n / 100))
whole_part (negsuc n) = some (sub_ℕ 0 (suc n / 100))

abbrev racing : VehicleSimulator ℤ
racing = record parked { speed_kmh = pos 15000; rpm = pos 600000; throttle_percent = pos 10000 }

abbrev drive : List Event
drive = throttle_moved (pos 100) ∷ timeout ∷ brake_clicked ∷ timeout ∷ overheat_clicked ∷ []

abbrev inputs : List Event
inputs = steering_moved (negsuc 29) ∷ brake_clicked ∷ []

shows :
    let d = handle_all cents whole_part drive (init cents whole_part parked) in
    (d.fault_label ≡ overheat_fault)
    × (d.rpm_label.text ≡ codes "RPM: 400")
    × (d.inject_btn.enabled ≡ false)
    × (d.speed_label.text ≡ codes "Speed: 2 km/h")
unfolding handle_all handle on_throttle_changed on_inject_brake_fault on_inject_overheat_fault
    update_simulation show_speed show_rpm show_steering digits_of init set_throttle
    inject_brake_failure inject_engine_overheat tick max_f next_speed target_speed next_rpm min_f
    accelerated decelerated ◌+ℤ◌ ◌-ℤ◌
shows = (refl, refl, refl, refl)

handle_all-IsConsistent_example :
    IsConsistent (handle_all cents whole_part drive (init cents whole_part parked))
handle_all-IsConsistent_example = handle_all-IsConsistent cents whole_part drive parked refl refl

completes : (update_simulation cents whole_part (init cents whole_part racing)).1 ≡ true
unfolding update_simulation show_speed show_rpm show_steering init tick max_f next_speed
    target_speed next_rpm min_f accelerated ◌+ℤ◌
completes = refl
