-- ===== src/FaultInjection/Latch.antt =====
-- Faults stay, and a healthy stream raises none.
use automotive_testing_frame.Prelude.{
  ℕ, suc, ◌+◌, ◌≤◌, ◌<◌, ◌≡◌, ◌≢◌, ◌⊎◌, refl, Option, none, some, List, [], ◌∷◌, arith,
  if◌then◌else◌,
}
use automotive_testing_frame.Prelude.Int.{
  ℤ, pos, negsuc, ◌+ℤ◌, ◌-ℤ◌, ◌==ℤ◌, abs, +ℤ_parts, eq_of_parts,
}
use automotive_testing_frame.FaultInjection.SafetyEcu.{
  SafetyEcu, no_seq, normal_operation, on_sensor_message_received, tick,
}
use automotive_testing_frame.FaultInjection.FaultProxy.{
  Frame, receive, no_fault, intercept_and_process, Bench, Event, reading, elapse, step, run,
}

message_latched :
    (v s c : ℤ) (e : SafetyEcu)
    → e.state ≢ normal_operation
    → (on_sensor_message_received v s c e).state ≢ normal_operation
unfolding on_sensor_message_received
message_latched v s c e h = ground arith

receive_latched :
    (f : Option Frame) (e : SafetyEcu)
    → e.state ≢ normal_operation
    → (receive f e).state ≢ normal_operation
receive_latched none e h = h
receive_latched (some f) e h = message_latched f.speed_kph f.sequence_number f.crc_checksum e h

tick_latched :
    (dt : ℤ) (e : SafetyEcu) → e.state ≢ normal_operation → (tick dt e).state ≢ normal_operation
unfolding tick
tick_latched dt e h = ground arith

-- Once the ECU has left normal operation nothing brings it back: no message, in whatever mode the
-- proxy is, and no tick. The fault that it reports may change.
pub fault_latched :
    (es : List Event) (b : Bench)
    → b.ecu.state ≢ normal_operation
    → (run es b).ecu.state ≢ normal_operation
unfolding run step
fault_latched [] b h = h
fault_latched (reading v s ∷ es) b h =
    fault_latched es (step (reading v s) b) (receive_latched _ b.ecu h)
fault_latched (elapse dt ∷ es) b h = fault_latched es (step (elapse dt) b) (tick_latched dt b.ecu h)

-- A stream that the ECU has no reason to doubt, after the speed `v` under the number `q`, repeated
-- `k` times, and `t` ms of silence: at most 20 ms between two readings, no number twice in a row, no
-- jump of more than 30 km/h after the first reading, and no speed more than three times in a row.
abbrev pub IsHealthy : ℤ → ℤ → ℕ → ℕ → List Event → Type 0
IsHealthy v q k t [] = Unit
IsHealthy v q k t (reading v' q' ∷ es) =
    (q' ≢ q)
    × ((q ≡ no_seq) ⊎ (abs (v' -ℤ v) ≤ 30))
    × ((v' ≢ v) ⊎ (suc k < 3))
    × IsHealthy v' q' (if v' ==ℤ v then suc k else 0) 0 es
IsHealthy v q k t (elapse (pos dt) ∷ es) = (dt + t ≤ 20) × IsHealthy v q k (dt + t) es
IsHealthy v q k t (elapse (negsuc dt) ∷ es) = ⊥

record IsCalm (v q : ℤ) (k t : ℕ) (b : Bench) : Type 0 where
  passing : b.proxy.mode ≡ no_fault
  normal : b.ecu.state ≡ normal_operation
  at_speed : b.ecu.last_speed ≡ v
  at_seq : b.ecu.last_seq ≡ q
  repeated : b.ecu.stale_data_counter ≤ k
  heard : b.ecu.time_since_last_msg_ms ≡ pos t

IsCalm-reading :
    (v q : ℤ) (k t : ℕ) (b : Bench) (v' q' : ℤ)
    → IsCalm v q k t b
    → t ≤ 20
    → q' ≢ q
    → ((q ≡ no_seq) ⊎ (abs (v' -ℤ v) ≤ 30))
    → ((v' ≢ v) ⊎ (suc k < 3))
    → IsCalm v' q' (if v' ==ℤ v then suc k else 0) 0 (step (reading v' q') b)
unfolding step intercept_and_process on_sensor_message_received
IsCalm-reading v q k t b v' q' c short new near varied =
    ground (arith, eq_of_parts q' q, eq_of_parts v' v)

IsCalm-elapse :
    (v q : ℤ) (k t : ℕ) (b : Bench) (dt : ℕ)
    → IsCalm v q k t b
    → dt + t ≤ 20
    → IsCalm v q k (dt + t) (step (elapse (pos dt)) b)
unfolding step tick
IsCalm-elapse v q k t b dt c short = ground (
  arith,
  +ℤ_parts b.ecu.time_since_last_msg_ms (pos dt),
  eq_of_parts (b.ecu.time_since_last_msg_ms +ℤ pos dt) (pos (dt + t)),
)

calm_run :
    (es : List Event) (v q : ℤ) (k t : ℕ) (b : Bench)
    → IsCalm v q k t b
    → t ≤ 20
    → IsHealthy v q k t es
    → (run es b).ecu.state ≡ normal_operation
unfolding run
calm_run [] v q k t b c short h = c.normal
calm_run (reading v' q' ∷ es) v q k t b c short h =
    calm_run es v' q' (if v' ==ℤ v then suc k else 0) 0 (step (reading v' q') b)
      (IsCalm-reading v q k t b v' q' c short h.0 h.1 h.2) (omega arith) h.3
calm_run (elapse (pos dt) ∷ es) v q k t b c short h =
    calm_run es v q k (dt + t) (step (elapse (pos dt)) b) (IsCalm-elapse v q k t b dt c h.0) h.0 h.1
calm_run (elapse (negsuc dt) ∷ es) v q k t b c short h = absurd h

-- There is no false alarm by the limits of the code: with no fault injected, an ECU in normal operation
-- stays there on every healthy stream. Such a stream has at most 20 ms between two readings, no number
-- twice in a row, no jump of more than 30 km/h after the first reading, and no speed more than three
-- times in a row. Three equal speeds raise nothing, though the README asks for a flag at the third.
pub healthy_stream_normal :
    (es : List Event) (t : ℕ) (b : Bench)
    → b.proxy.mode ≡ no_fault
    → b.ecu.state ≡ normal_operation
    → b.ecu.time_since_last_msg_ms ≡ pos t
    → t ≤ 20
    → IsHealthy b.ecu.last_speed b.ecu.last_seq b.ecu.stale_data_counter t es
    → (run es b).ecu.state ≡ normal_operation
healthy_stream_normal es t b m n e short h =
    calm_run es b.ecu.last_speed b.ecu.last_seq b.ecu.stale_data_counter t b calm short h
  where
    calm : IsCalm b.ecu.last_speed b.ecu.last_seq b.ecu.stale_data_counter t b
    calm = record {
      passing = m;
      normal = n;
      at_speed = refl;
      at_seq = refl;
      repeated = omega arith;
      heard = e;
    }
