-- ===== src/FaultInjection/FaultProxy.antt =====
-- subProj 8 ISO26262 Fault Injection/fault_proxy.py: the router that sabotages messages, and the
-- network of the proxy and the safety ECU behind it.
use Prim.Native.String.{String}
use automotive_testing_frame.Prelude.{ℕ, ◌-◌, ◌%◌, Option, none, some, List, [], ◌∷◌, if◌then◌else◌}
use automotive_testing_frame.Prelude.Int.{ℤ, pos, negsuc, ◌+ℤ◌, ◌==ℤ◌}
use automotive_testing_frame.Prelude.Bits.{xor_ℤ, and_mask, or_mask}
use automotive_testing_frame.FaultInjection.SafetyEcu.{
  SafetyEcu, no_seq, on_sensor_message_received, tick,
}

-- `mode` is any string; one that `FaultMode` does not list acts as no fault.
pub data FaultMode : Type 0 where
  no_fault drop_all latency corrupt_payload stale_data corrupt_crc duplicate_frame : FaultMode
  other : String → FaultMode

-- The arguments and the result tuple of `intercept_and_process`.
pub record Frame : Type 0 where
  pub speed_kph : ℤ
  pub sequence_number : ℤ
  pub crc_checksum : ℤ

pub record FaultProxy : Type 0 where
  pub mode : FaultMode
  pub latency_ms : ℤ
  pub stale_speed : Option ℤ
  pub stuck_counter : ℕ
  pub last_sequence_number : ℤ

-- `__init__`
unfoldable pub init : FaultProxy
init = record {
  mode = no_fault;
  latency_ms = pos 0;
  stale_speed = none;
  stuck_counter = 0;
  last_sequence_number = no_seq;
}

enter_mode : FaultMode → FaultProxy → FaultProxy
enter_mode stale_data p = record p { stale_speed = none; stuck_counter = 0 }
enter_mode _ p = p

unfoldable pub set_fault_mode : FaultMode → ℤ → FaultProxy → FaultProxy
unfolding enter_mode
set_fault_mode mode latency_ms p =
    enter_mode mode (record p { mode = mode; latency_ms = latency_ms })

-- `(speed ^ sequence) & 0xFF`
abbrev pub checksum : ℤ → ℤ → ℤ
checksum speed sequence = pos (and_mask (xor_ℤ speed sequence) 255)

-- `a % 256`, which is never negative in Python.
abbrev pub mod_256 : ℤ → ℕ
mod_256 (pos n) = n % 256
mod_256 (negsuc n) = 255 - n % 256

pass_on : Frame → FaultProxy → FaultProxy × Option Frame
pass_on f p = (record p { last_sequence_number = f.sequence_number }, some f)

freeze : Option ℤ → Frame → FaultProxy → FaultProxy × Option Frame
freeze none f p = (
  record p { stale_speed = some f.speed_kph },
  some (record f { crc_checksum = checksum f.speed_kph f.sequence_number }),
)
freeze (some stale_speed) f p = (
  p,
  some
      (record f { speed_kph = stale_speed; crc_checksum = checksum stale_speed f.sequence_number }),
)

duplicate : Frame → FaultProxy → FaultProxy × Option Frame
duplicate f p =
    if p.last_sequence_number ==ℤ no_seq
    then (record p { last_sequence_number = f.sequence_number }, some f)
    else (
      p,
      some (record f {
        sequence_number = p.last_sequence_number;
        crc_checksum = checksum f.speed_kph p.last_sequence_number;
      }),
    )

sabotage : FaultMode → Frame → FaultProxy → FaultProxy × Option Frame
unfolding pass_on freeze duplicate
sabotage drop_all f p = (p, none)
sabotage corrupt_payload f p =
    let corrupted_speed = or_mask f.speed_kph 0x80 in
    (
      p,
      some (record f {
        speed_kph = corrupted_speed;
        crc_checksum = checksum corrupted_speed f.sequence_number;
      }),
    )
sabotage stale_data f p = freeze p.stale_speed f p
sabotage corrupt_crc f p =
    (p, some (record f { crc_checksum = pos (mod_256 (f.crc_checksum +ℤ pos 1)) }))
sabotage duplicate_frame f p = duplicate f p
sabotage _ f p = pass_on f p

unfoldable pub intercept_and_process : Frame → FaultProxy → FaultProxy × Option Frame
unfolding sabotage
intercept_and_process f p = sabotage p.mode f p

-- `FaultProxy.tick`
abbrev pub proxy_tick : ℤ → FaultProxy → FaultProxy
proxy_tick dt_ms p = p

-- The bench of tests/test_iso26262_faults.py: a sensor reading is framed with its checksum and goes
-- through the proxy, and what comes out goes to the ECU.
pub record Bench : Type 0 where
  pub proxy : FaultProxy
  pub ecu : SafetyEcu

abbrev pub receive : Option Frame → SafetyEcu → SafetyEcu
receive none e = e
receive (some f) e = on_sensor_message_received f.speed_kph f.sequence_number f.crc_checksum e

unfoldable pub send_sensor_data : ℤ → ℤ → Bench → Bench
send_sensor_data speed_kph sequence_number b =
    let (proxy', corrupted_payload) =
      intercept_and_process
        (record {
          speed_kph = speed_kph;
          sequence_number = sequence_number;
          crc_checksum = checksum speed_kph sequence_number;
        })
        b.proxy in
    record { proxy = proxy'; ecu = receive corrupted_payload b.ecu }

unfoldable pub tick_all : ℤ → Bench → Bench
tick_all dt_ms b = record { proxy = proxy_tick dt_ms b.proxy; ecu = tick dt_ms b.ecu }

pub data Event : Type 0 where
  reading : ℤ → ℤ → Event
  elapse : ℤ → Event

unfoldable pub step : Event → Bench → Bench
unfolding send_sensor_data tick_all
step (reading speed_kph sequence_number) b = send_sensor_data speed_kph sequence_number b
step (elapse dt_ms) b = tick_all dt_ms b

unfoldable pub run : List Event → Bench → Bench
run [] b = b
run (e ∷ es) b = run es (step e b)
