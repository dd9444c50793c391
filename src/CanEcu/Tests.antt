-- ===== src/CanEcu/Tests.antt =====
-- The virtual ECU at concrete inputs.
use automotive_testing_frame.CanEcu.Threads.{
  tx_rpm, ls_head, started, System, new, Turn, transmit, listen, calls_start, calls_stop, turns,
  turn, tx_turn, ls_turn, program_turn, fresh_turn, go_on, stopped,
}
use automotive_testing_frame.CanEcu.Threads.Quiet.{under_way, frames_after_sleep}
use automotive_testing_frame.CanEcu.Threads.Returns.{stop_returns}
use automotive_testing_frame.CanEcu.Beat.{Clock, beats, beats_catch_up, Round}
use automotive_testing_frame.Prelude.{
  ◌≤◌, ◌+◌, ℕ, ◌/◌, ◌%◌, ◌<◌, ◌≡◌, refl, true, none, [], ◌∷◌, ◌++◌, arith, take, All,
}
use automotive_testing_frame.Prelude.Int.{pos}
use automotive_testing_frame.CanEcu.{
  init, false, some, length, List, MockEcu, normal, sleep, Message, nm_listen, nm_listener,
  engine_status, clamp, xor_all,
}
use automotive_testing_frame.CanEcu.Frames.{IsClamped, frame_of, engine_status-reads}

abbrev fast : MockEcu
fast = record { speed = pos 300; rpm = pos 4500; nm_state = normal }

frame_of-fast : frame_of fast ≡ 250 ∷ 0x11 ∷ 0x94 ∷ 0 ∷ 0 ∷ 0 ∷ 0 ∷ 0x7f ∷ []
unfolding engine_status clamp xor_all
frame_of-fast = refl

abbrev sleep_msg : Message
sleep_msg = record { arbitration_id = 0x600; data_bytes = 0x00 ∷ []; is_extended_id = true }

abbrev wake_msg : Message
wake_msg = record { arbitration_id = 0x600; data_bytes = 0x01 ∷ []; is_extended_id = true }

abbrev empty_msg : Message
empty_msg = record { arbitration_id = 0x600; data_bytes = []; is_extended_id = true }

abbrev other_msg : Message
other_msg = record { arbitration_id = 0x200; data_bytes = 0x01 ∷ []; is_extended_id = true }

engine_status-reads_example :
    (s r c : ℕ) × (frame_of fast ≡ s ∷ r / 256 ∷ r % 256 ∷ 0 ∷ 0 ∷ 0 ∷ 0 ∷ c ∷ [])
    × IsClamped 250 (pos 300) s
    × IsClamped 8000 (pos 4500) r
    × (c ≡ xor_all 0 (take 7 (frame_of fast)))
    × All (λ b. b < 256) (frame_of fast)
engine_status-reads_example = engine_status-reads fast

-- A wake command after the sleep command, and the same after an empty message.
woken : (nm_listener (sleep_msg ∷ wake_msg ∷ []) fast).nm_state ≡ normal
unfolding nm_listener nm_listen
woken = refl

-- start(), a frame and the head of both loops, with the sleep command received.
abbrev started_turns : List Turn
started_turns =
    calls_start
    ∷ calls_start
    ∷ calls_start
    ∷ listen none
    ∷ transmit true
    ∷ transmit true
    ∷ transmit true
    ∷ transmit true
    ∷ transmit true
    ∷ listen (some sleep_msg)
    ∷ []

started_turns-sent : length (turns started_turns new).sent ≡ 1
unfolding turns turn tx_turn ls_turn program_turn fresh_turn go_on nm_listen init
started_turns-sent = refl

-- The frame under way when the ECU falls asleep is sent.
abbrev asleep_midway : System
asleep_midway = record {
  ecu = record { speed = pos 3; rpm = pos 800; nm_state = sleep };
  running = true;
  transmitter = tx_rpm (pos 3);
  listener = ls_head;
  program = started;
  sent = [];
}

frames_after_sleep_example :
    let after =
      turns (transmit true ∷ transmit true ∷ listen none ∷ transmit true ∷ []) asleep_midway in
    (after.ecu.nm_state ≡ sleep) × (length after.sent + under_way after.transmitter ≤ 0 + 1)
frames_after_sleep_example =
    frames_after_sleep (transmit true ∷ transmit true ∷ listen none ∷ transmit true ∷ [])
      asleep_midway refl (tt, (tt, (tt, (tt, tt))))

asleep_midway-sent : length (turns (transmit true ∷ transmit true ∷ []) asleep_midway).sent ≡ 1
unfolding turns turn tx_turn
asleep_midway-sent = refl

-- The turns of the threads while the program already waits, and the turns of the joins.
abbrev closing_turns : List Turn
closing_turns =
    calls_stop
    ∷ transmit true
    ∷ transmit false
    ∷ listen (some wake_msg)
    ∷ transmit true
    ∷ calls_stop
    ∷ transmit true
    ∷ listen none
    ∷ transmit true
    ∷ transmit true
    ∷ []

abbrev joining_turns : List Turn
joining_turns = calls_stop ∷ transmit true ∷ calls_stop ∷ []

stop_returns_example :
    let over = turns (calls_stop ∷ closing_turns ++ joining_turns) (turns started_turns new) in
    (over.program ≡ stopped)
    × (turns (transmit true ∷ listen (some wake_msg) ∷ calls_start ∷ []) over ≡ over)
unfolding turns turn tx_turn ls_turn program_turn fresh_turn go_on nm_listen init
stop_returns_example =
    stop_returns started_turns closing_turns joining_turns
      (transmit true ∷ listen (some wake_msg) ∷ calls_start ∷ []) refl (omega arith) (omega arith)
      (omega arith)

-- One late round, and three that catch up, at times in microseconds.
abbrev late_clock : Clock
late_clock = record { now = 1030000; next_send_time = 1000000 }

abbrev four_rounds : List Round
four_rounds =
    record { work = 2000; late = 300 }
    ∷ record { work = 8000; late = 0 }
    ∷ record { work = 100; late = 500 }
    ∷ record { work = 0; late = 0 }
    ∷ []

beats_catch_up_example :
    let after = beats four_rounds late_clock in
    (after.next_send_time ≤ after.now) × (after.now ≤ after.next_send_time + 500)
beats_catch_up_example =
    beats_catch_up 8000 500 29500 four_rounds late_clock (omega arith)
      (
        (omega arith, omega arith),
        (
          (omega arith, omega arith),
          ((omega arith, omega arith), ((omega arith, omega arith), tt)),
        ),
      )
      (omega arith) (omega arith) (omega arith)
