-- ===== src/FaultInjection/Detection.antt =====
-- What the safety ECU makes of each fault that the proxy injects into one frame or two, and of
-- silence.
use automotive_testing_frame.Prelude.{
  false, ℕ, ◌+◌, ◌≤◌, ◌<◌, ◌≡◌, ◌≢◌, refl, true, List, [], ◌∷◌, arith, All, ◌==◌, ==_iff,
}
use Prim.Native.Nat.{bit_or}
use automotive_testing_frame.Prelude.Int.{
  ℤ, pos, negsuc, pos_part, ◌+ℤ◌, ◌-ℤ◌, ◌≤ℤ◌, ◌==ℤ◌, abs, +ℤ_parts, -ℤ_parts, eq_of_parts,
}
use automotive_testing_frame.Prelude.Bits.{
  xor_ℤ, and_mask, or_mask, and_mask_255-lt, holds_up_to, holds_up_to-at,
}
use automotive_testing_frame.FaultInjection.SafetyEcu.{
  SafetyEcu, no_seq, safe_state_com_loss, implausible_signal, e2e_crc_error, e2e_seq_duplication,
  on_sensor_message_received, tick,
}
use automotive_testing_frame.FaultInjection.FaultProxy.{
  checksum, drop_all, corrupt_crc, corrupt_payload, duplicate_frame, mod_256, intercept_and_process,
  Bench, send_sensor_data, Event, reading, elapse, step, run,
}

-- One more than a byte is another byte.
next_byte : (c : ℕ) → c < 256 → pos (mod_256 (pos c +ℤ pos 1)) ≢ pos c
unfolding ◌+ℤ◌
next_byte c h = ground arith

-- Whatever the reading and whatever state the ECU is in, a frame whose checksum the proxy corrupts
-- is dropped: the ECU reports the checksum and takes over neither the speed nor the sequence
-- number, and its timer and its counter run on.
corrupt_crc_dropped :
    (speed_kph sequence_number : ℤ) (b : Bench)
    → b.proxy.mode ≡ corrupt_crc
    → (send_sensor_data speed_kph sequence_number b).ecu ≡ record b.ecu { state = e2e_crc_error }
unfolding send_sensor_data intercept_and_process on_sensor_message_received
corrupt_crc_dropped speed_kph sequence_number b m = ground (
  arith,
  next_byte (and_mask (xor_ℤ speed_kph sequence_number) 255)
      (and_mask_255-lt (xor_ℤ speed_kph sequence_number)),
)

flip_table : holds_up_to (λ x. bit_or x 0x80 == x + 128) 128 ≡ true
unfolding holds_up_to
flip_table = refl

bit_or_128 : (x : ℕ) → x < 128 → bit_or x 0x80 ≡ x + 128
bit_or_128 x h = (==_iff _ _).0 (holds_up_to-at (λ y. bit_or y 0x80 == y + 128) 128 x flip_table h)

-- A jump that no vehicle makes, under a correct checksum.
jump_implausible :
    (v q : ℤ) (e : SafetyEcu)
    → 30 < abs (v -ℤ e.last_speed)
    → (e.last_seq ==ℤ no_seq) ≡ false
    → (q ==ℤ e.last_seq) ≡ false
    → let e' = on_sensor_message_received v q (checksum v q) e in
      (e'.state ≡ implausible_signal) × (e'.last_speed ≡ v)
unfolding on_sensor_message_received
jump_implausible v q e far seen fresh = ground (arith, -ℤ_parts v e.last_speed)

not_same : (a b : ℤ) → a ≢ b → (a ==ℤ b) ≡ false
not_same a b h = ground (arith, eq_of_parts a b)

flipped :
    (speed : ℕ) (q : ℤ) (b : Bench)
    → b.proxy.mode ≡ corrupt_payload
    → speed < 128
    → (send_sensor_data (pos speed) q b).ecu
      ≡ on_sensor_message_received (pos (speed + 128)) q (checksum (pos (speed + 128)) q) b.ecu
unfolding send_sensor_data intercept_and_process or_mask
flipped speed q b m small = ground (arith, bit_or_128 speed)

far_away : (speed : ℕ) (w : ℤ) → abs (pos speed -ℤ w) ≤ 97 → 30 < abs (pos (speed + 128) -ℤ w)
unfolding ◌-ℤ◌
far_away speed w near = ground arith

-- A payload with its high bit flipped passes the checksum, and the ECU sees a jump that no vehicle
-- makes: for a speed below 128 within 97 km/h of the last one, under a new sequence number and
-- after a first frame, it reports an implausible signal. It takes over the corrupted speed all the
-- same.
corrupt_payload_implausible :
    (speed : ℕ) (sequence_number : ℤ) (b : Bench)
    → b.proxy.mode ≡ corrupt_payload
    → speed < 128
    → abs (pos speed -ℤ b.ecu.last_speed) ≤ 97
    → b.ecu.last_seq ≢ no_seq
    → sequence_number ≢ b.ecu.last_seq
    → let e = (send_sensor_data (pos speed) sequence_number b).ecu in
      (e.state ≡ implausible_signal) × (e.last_speed ≡ pos (speed + 128))
corrupt_payload_implausible speed sequence_number b m small near seen fresh =
    rw (flipped speed sequence_number b m small) (
      jump_implausible (pos (speed + 128)) sequence_number b.ecu
        (far_away speed b.ecu.last_speed near) (not_same b.ecu.last_seq no_seq seen)
        (not_same sequence_number b.ecu.last_seq fresh))

duplicate_again :
    (speed sequence_number q : ℤ) (b : Bench)
    → b.proxy.mode ≡ duplicate_frame
    → b.proxy.last_sequence_number ≡ q
    → b.ecu.last_seq ≡ q
    → q ≢ no_seq
    → (send_sensor_data speed sequence_number b).ecu ≡ record b.ecu { state = e2e_seq_duplication }
unfolding send_sensor_data intercept_and_process on_sensor_message_received
duplicate_again speed sequence_number q b m known same real = ground (arith, eq_of_parts q no_seq)

-- The milliseconds that pass in a sequence of events, none of which turns the time back.
abbrev pub elapsed_ms : List Event → ℕ
elapsed_ms [] = 0
elapsed_ms (reading speed_kph sequence_number ∷ es) = elapsed_ms es
elapsed_ms (elapse dt_ms ∷ es) = pos_part dt_ms + elapsed_ms es

abbrev pub IsForward : Event → Type 0
IsForward (reading speed_kph sequence_number) = Unit
IsForward (elapse dt_ms) = pos 0 ≤ℤ dt_ms

-- While the proxy drops everything, the ECU's timer runs, and it knows when it has run out.
record IsDark (t : ℕ) (b : Bench) : Type 0 where
  dropping : b.proxy.mode ≡ drop_all
  timed : b.ecu.time_since_last_msg_ms ≡ pos t
  noticed : 50 < t → b.ecu.state ≡ safe_state_com_loss

IsDark-reading :
    (speed_kph sequence_number : ℤ) (t : ℕ) (b : Bench)
    → IsDark t b
    → IsDark t (step (reading speed_kph sequence_number) b)
unfolding step intercept_and_process
IsDark-reading speed_kph sequence_number t b h = ground arith

IsDark-elapse : (dt t : ℕ) (b : Bench) → IsDark t b → IsDark (dt + t) (step (elapse (pos dt)) b)
unfolding step tick
IsDark-elapse dt t b h = ground (
  arith,
  +ℤ_parts b.ecu.time_since_last_msg_ms (pos dt),
  eq_of_parts (b.ecu.time_since_last_msg_ms +ℤ pos dt) (pos (dt + t)),
)

dark_run :
    (es : List Event) (t : ℕ) (b : Bench)
    → IsDark t b
    → All IsForward es
    → 50 < elapsed_ms es + t
    → (run es b).ecu.state ≡ safe_state_com_loss
unfolding run
dark_run [] t b h f late = h.noticed (omega arith)
dark_run (reading v s ∷ es) t b h f late =
    dark_run es t (step (reading v s) b) (IsDark-reading v s t b h) f.1 late
dark_run (elapse (pos dt) ∷ es) t b h f late =
    dark_run es (dt + t) (step (elapse (pos dt)) b) (IsDark-elapse dt t b h) f.1 (omega arith)
dark_run (elapse (negsuc dt) ∷ es) t b h f late = absurd (omega (arith, f.0))

-- With every frame dropped, an ECU that has heard something in the last 50 ms reports the loss of
-- communication once more than 50 ms have passed since, however the time is cut into ticks and
-- whatever the sensor reads meanwhile.
pub outage_reported :
    (es : List Event) (t : ℕ) (b : Bench)
    → b.proxy.mode ≡ drop_all
    → b.ecu.time_since_last_msg_ms ≡ pos t
    → t ≤ 50
    → All IsForward es
    → 50 < elapsed_ms es + t
    → (run es b).ecu.state ≡ safe_state_com_loss
outage_reported es t b m h heard f late = dark_run es t b dark f late
  where
    dark : IsDark t b
    dark = record { dropping = m; timed = h; noticed = λ over. absurd (omega arith) }
