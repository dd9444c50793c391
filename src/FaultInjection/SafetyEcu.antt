-- ===== src/FaultInjection/SafetyEcu.antt =====
-- subProj 8 ISO26262 Fault Injection/safety_ecu.py: the receiver that degrades when its sensor fails.
use automotive_testing_frame.Prelude.{
  ℕ, ◌+◌, Bool, true, false, not, ◌&&◌, arith, ltb, leb, if◌then◌else◌, ◌≡◌,
}
use automotive_testing_frame.Prelude.Int.{ℤ, pos, negsuc, ◌+ℤ◌, ◌-ℤ◌, abs, ltb_ℤ, leb_ℤ, ◌==ℤ◌}
use automotive_testing_frame.Prelude.Bits.{xor_ℤ, and_mask, and_mask_255-lt}

pub data SafeState : Type 0 where
  normal_operation safe_state_com_loss timing_violation implausible_signal stale_data : SafeState
  e2e_crc_error e2e_seq_duplication : SafeState

pub record SafetyEcu : Type 0 where
  pub state : SafeState
  pub last_speed : ℤ
  pub last_seq : ℤ
  pub time_since_last_msg_ms : ℤ
  pub stale_data_counter : ℕ

-- The safety constraints, which no method changes.
abbrev pub max_timeout_ms : ℤ
max_timeout_ms = pos 50

abbrev pub max_stale_cycles : ℕ
max_stale_cycles = 3

abbrev pub max_deltav_per_cycle : ℕ
max_deltav_per_cycle = 30

-- -1 stands for "no frame yet".
abbrev pub no_seq : ℤ
no_seq = negsuc 0

-- `__init__`
unfoldable pub init : SafetyEcu
init = record {
  state = normal_operation;
  last_speed = pos 0;
  last_seq = no_seq;
  time_since_last_msg_ms = pos 0;
  stale_data_counter = 0;
}

abbrev pub is_com_loss : SafeState → Bool
is_com_loss safe_state_com_loss = true
is_com_loss _ = false

abbrev pub is_normal : SafeState → Bool
is_normal normal_operation = true
is_normal _ = false

-- `(speed_kph ^ sequence_number) & 0xFF`
abbrev pub expected_crc : ℤ → ℤ → ℤ
expected_crc speed_kph sequence_number = pos (and_mask (xor_ℤ speed_kph sequence_number) 255)

-- The checksum of a frame is a byte.
pub expected_crc-byte :
    (speed_kph sequence_number : ℤ)
    → ltb_ℤ (expected_crc speed_kph sequence_number) (pos 256) ≡ true
expected_crc-byte speed_kph sequence_number =
    ground (arith, and_mask_255-lt (xor_ℤ speed_kph sequence_number))

-- The checks 1 to 3 of `on_sensor_message_received`, and its update of the trackers.
check_timing : SafetyEcu → SafetyEcu
check_timing e =
    if ltb_ℤ max_timeout_ms e.time_since_last_msg_ms
    then if is_com_loss e.state then e else record e { state = timing_violation }
    else e

check_plausibility : ℤ → SafetyEcu → SafetyEcu
check_plausibility speed_kph e =
    if ltb max_deltav_per_cycle (abs (speed_kph -ℤ e.last_speed)) && not (e.last_seq ==ℤ no_seq)
    then record e { state = implausible_signal }
    else e

count_stale : SafetyEcu → SafetyEcu
count_stale e = record e {
  stale_data_counter = e.stale_data_counter + 1;
  state = if leb max_stale_cycles (e.stale_data_counter + 1) then stale_data else e.state;
}

check_stale : ℤ → ℤ → SafetyEcu → SafetyEcu
unfolding count_stale
check_stale speed_kph sequence_number e =
    if (speed_kph ==ℤ e.last_speed)
      && (ltb_ℤ e.last_seq sequence_number && not (e.last_seq ==ℤ no_seq))
    then count_stale e
    else record e { stale_data_counter = 0 }

update_trackers : ℤ → ℤ → SafetyEcu → SafetyEcu
update_trackers speed_kph sequence_number e = record e {
  last_speed = speed_kph;
  last_seq = sequence_number;
  time_since_last_msg_ms = pos 0;
}

accept_frame : ℤ → ℤ → SafetyEcu → SafetyEcu
unfolding check_timing check_plausibility check_stale update_trackers
accept_frame speed_kph sequence_number e =
    update_trackers speed_kph sequence_number
      (check_stale speed_kph sequence_number (check_plausibility speed_kph (check_timing e)))

unfoldable pub on_sensor_message_received : ℤ → ℤ → ℤ → SafetyEcu → SafetyEcu
unfolding accept_frame
on_sensor_message_received speed_kph sequence_number crc_checksum e =
    if not (crc_checksum ==ℤ expected_crc speed_kph sequence_number)
    then record e { state = e2e_crc_error }
    else if sequence_number ==ℤ e.last_seq
    then record e { state = e2e_seq_duplication }
    else accept_frame speed_kph sequence_number e

flag_jitter : SafetyEcu → SafetyEcu
flag_jitter e =
    if ltb_ℤ (pos 20) e.time_since_last_msg_ms && leb_ℤ e.time_since_last_msg_ms max_timeout_ms
    then if is_normal e.state then record e { state = timing_violation } else e
    else e

flag_com_loss : SafetyEcu → SafetyEcu
flag_com_loss e =
    if ltb_ℤ max_timeout_ms e.time_since_last_msg_ms
    then record e { state = safe_state_com_loss }
    else e

unfoldable pub tick : ℤ → SafetyEcu → SafetyEcu
unfolding flag_jitter flag_com_loss
tick dt_ms e =
    flag_com_loss
      (flag_jitter (record e { time_since_last_msg_ms = e.time_since_last_msg_ms +ℤ dt_ms }))
