-- ===== src/FaultInjection/Stale.antt =====
-- A frozen sensor value is found after three repetitions.
use automotive_testing_frame.Prelude.{
  ℕ, suc, ◌+◌, ◌≤◌, ◌≡◌, none, some, List, [], ◌∷◌, arith, length,
}
use automotive_testing_frame.Prelude.Int.{ℤ, pos, ◌<ℤ◌, ◌≤ℤ◌}
use automotive_testing_frame.FaultInjection.SafetyEcu.{
  no_seq, SafeState, on_sensor_message_received,
}
use automotive_testing_frame.FaultInjection.FaultProxy.{
  FaultMode, intercept_and_process, Bench, send_sensor_data, Event, reading, step, run,
}

-- Readings of a live sensor: any speeds, under rising sequence numbers.
abbrev pub readings : List (ℤ × ℤ) → List Event
readings [] = []
readings ((v, s) ∷ rs) = reading v s ∷ readings rs

abbrev pub IsRising : ℤ → List (ℤ × ℤ) → Type 0
IsRising q [] = Unit
IsRising q ((v, s) ∷ rs) = (q <ℤ s) × IsRising s rs

-- The proxy holds the speed `v`, and the ECU has seen it under the number `q`, with `k` repetitions.
record IsFrozen (v q : ℤ) (k : ℕ) (b : Bench) : Type 0 where
  stuck : b.proxy.mode ≡ FaultMode.stale_data
  held : b.proxy.stale_speed ≡ some v
  seen_speed : b.ecu.last_speed ≡ v
  seen_seq : b.ecu.last_seq ≡ q
  counted : k ≤ b.ecu.stale_data_counter
  found : 3 ≤ k → b.ecu.state ≡ SafeState.stale_data

IsFrozen-step :
    (v q : ℤ) (k : ℕ) (b : Bench) (w s : ℤ)
    → IsFrozen v q k b
    → pos 0 ≤ℤ q
    → q <ℤ s
    → IsFrozen v s (suc k) (send_sensor_data w s b)
unfolding send_sensor_data intercept_and_process on_sensor_message_received
IsFrozen-step v q k b w s h real up = ground arith

frozen_run :
    (rs : List (ℤ × ℤ)) (v q : ℤ) (k : ℕ) (b : Bench)
    → IsFrozen v q k b
    → pos 0 ≤ℤ q
    → IsRising q rs
    → 3 ≤ k + length rs
    → (run (readings rs) b).ecu.state ≡ SafeState.stale_data
unfolding run step
frozen_run [] v q k b h real up long = h.found (omega arith)
frozen_run ((w, s) ∷ rs) v q k b h real up long =
    frozen_run rs v s (suc k) (send_sensor_data w s b) (IsFrozen-step v q k b w s h real up.0)
      (omega arith) up.1 (omega arith)

freeze_first :
    (b : Bench) (v s : ℤ)
    → b.proxy.mode ≡ FaultMode.stale_data
    → b.proxy.stale_speed ≡ none
    → b.ecu.last_seq <ℤ s
    → IsFrozen v s 0 (send_sensor_data v s b)
unfolding send_sensor_data intercept_and_process on_sensor_message_received
freeze_first b v s m fresh up = ground arith

-- With the proxy freezing the first speed that it sees, the ECU reports stale data after four
-- readings and after each further one, whatever the sensor reads under rising sequence numbers.
pub stale_reported :
    (rs : List (ℤ × ℤ)) (b : Bench)
    → b.proxy.mode ≡ FaultMode.stale_data
    → b.proxy.stale_speed ≡ none
    → no_seq ≤ℤ b.ecu.last_seq
    → IsRising b.ecu.last_seq rs
    → 4 ≤ length rs
    → (run (readings rs) b).ecu.state ≡ SafeState.stale_data
unfolding run step
stale_reported [] b m fresh real up long = absurd (omega arith)
stale_reported ((v, s) ∷ rs) b m fresh real up long =
    frozen_run rs v s 0 (send_sensor_data v s b) (freeze_first b v s m fresh up.0) (omega arith)
      up.1 (omega arith)
