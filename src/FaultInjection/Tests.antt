-- ===== src/FaultInjection/Tests.antt =====
-- Runs of the fault injection bench at concrete inputs.
use automotive_testing_frame.Prelude.{◌≡◌, ◌≢◌, refl, List, [], ◌∷◌, arith}
use automotive_testing_frame.Prelude.Int.{ℤ, pos, ◌-ℤ◌}
use automotive_testing_frame.Prelude.Bits.{xor_ℤ, and_mask}
use automotive_testing_frame.FaultInjection.SafetyEcu
use automotive_testing_frame.FaultInjection.SafetyEcu.{
  SafetyEcu, SafeState, no_seq, on_sensor_message_received, tick,
}
use automotive_testing_frame.FaultInjection.FaultProxy
use automotive_testing_frame.FaultInjection.FaultProxy.{
  FaultProxy, FaultMode, set_fault_mode, intercept_and_process, Bench, send_sensor_data, Event,
  reading, elapse, step, run,
}
use automotive_testing_frame.FaultInjection.Detection.{outage_reported}
use automotive_testing_frame.FaultInjection.Stale.{readings, stale_reported}
use automotive_testing_frame.FaultInjection.Latch.{fault_latched, healthy_stream_normal}

-- The bench after one reading of 50 km/h, with a fault mode set.
abbrev bench : FaultMode → Bench
bench mode =
    let b =
      run (reading (pos 50) (pos 1) ∷ [])
        (record { proxy = FaultProxy.init; ecu = SafetyEcu.init }) in
    record b { proxy = set_fault_mode mode (pos 0) b.proxy }

-- The same, with the mode set before the first reading.
abbrev fresh_bench : FaultMode → Bench
fresh_bench mode = record {
  proxy = set_fault_mode mode (pos 0) FaultProxy.init;
  ecu = SafetyEcu.init;
}

outage_reported_example :
    (run
      (elapse (pos 20) ∷ reading (pos 50) (pos 2) ∷ elapse (pos 31) ∷ [])
      (bench FaultMode.drop_all)).ecu.state
    ≡ SafeState.safe_state_com_loss
unfolding set_fault_mode run step intercept_and_process on_sensor_message_received FaultProxy.init
    SafetyEcu.init ◌-ℤ◌ xor_ℤ and_mask
outage_reported_example =
    outage_reported (elapse (pos 20) ∷ reading (pos 50) (pos 2) ∷ elapse (pos 31) ∷ []) 0
      (bench FaultMode.drop_all) refl refl (omega arith) (omega arith) (omega arith)

abbrev rising : List (ℤ × ℤ)
rising = (pos 51, pos 2) ∷ (pos 53, pos 3) ∷ (pos 54, pos 4) ∷ (pos 55, pos 5) ∷ []

stale_reported_example :
    (run (readings rising) (bench FaultMode.stale_data)).ecu.state ≡ SafeState.stale_data
unfolding set_fault_mode run step intercept_and_process on_sensor_message_received FaultProxy.init
    SafetyEcu.init ◌-ℤ◌ xor_ℤ and_mask
stale_reported_example =
    stale_reported rising (bench FaultMode.stale_data) refl refl (omega arith) (omega arith)
      (omega arith)

-- An ECU that has lost its sensor.
abbrev deaf : Bench
deaf = record {
  proxy = FaultProxy.init;
  ecu = record SafetyEcu.init { state = SafeState.safe_state_com_loss };
}

fault_latched_example :
    (run (reading (pos 1) (pos 1) ∷ elapse (pos 9) ∷ []) deaf).ecu.state
    ≢ SafeState.normal_operation
fault_latched_example = fault_latched (reading (pos 1) (pos 1) ∷ elapse (pos 9) ∷ []) deaf (λ e. cc)

abbrev stream : List Event
stream =
    elapse (pos 10)
    ∷ elapse (pos 10)
    ∷ reading (pos 50) (pos 2)
    ∷ elapse (pos 20)
    ∷ reading (pos 75) (pos 3)
    ∷ []

healthy_stream_normal_example :
    (run stream (bench FaultMode.no_fault)).ecu.state ≡ SafeState.normal_operation
unfolding set_fault_mode run step intercept_and_process on_sensor_message_received FaultProxy.init
    SafetyEcu.init ◌-ℤ◌ xor_ℤ and_mask
healthy_stream_normal_example =
    healthy_stream_normal stream 0 (bench FaultMode.no_fault) refl refl refl (omega arith)
      (ground arith)
