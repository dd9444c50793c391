-- ===== src/CanEcu/Threads/Stop.antt =====
-- The threads of the ECU after stop().
use automotive_testing_frame.CanEcu.Threads.Steps.{tx_stage, ls_stage}
use automotive_testing_frame.CanEcu.Threads.Phases.{IsPhased, tx_low, ls_low}
use automotive_testing_frame.CanEcu.{Message}
use automotive_testing_frame.CanEcu.Threads.{
  Transmitter, tx_unstarted, tx_head, tx_test, tx_speed, tx_rpm, tx_send, tx_pause, tx_ended,
  Listener, ls_unstarted, ls_head, ls_receive, ls_ended, ls_died, Program, stopped, System, Turn,
  transmit, listen, calls_start, calls_stop, sets_speed, sets_rpm, tx_turn, ls_turn, is_ls_ended,
  go_on, program_turn, turn, turns,
}
use automotive_testing_frame.Prelude.{
  ◌≤◌, ◌≡◌, refl, ap, ◌∙◌, Bool, true, Option, List, [], ◌∷◌, arith,
}

-- Once both threads have ended and the program has stopped, no turn changes anything.
record IsOver (s : System) : Type 0 where
  transmitter : s.transmitter ≡ tx_ended
  listener : is_ls_ended s.listener ≡ true
  program : s.program ≡ stopped

tx_stage-ended : (t : Transmitter) → 2 ≤ tx_stage t → t ≡ tx_ended
tx_stage-ended tx_ended h = refl
tx_stage-ended tx_unstarted h = ground (arith, h)
tx_stage-ended tx_head h = ground (arith, h)
tx_stage-ended tx_test h = ground (arith, h)
tx_stage-ended tx_speed h = ground (arith, h)
tx_stage-ended (tx_rpm x) h = ground (arith, h)
tx_stage-ended (tx_send m) h = ground (arith, h)
tx_stage-ended tx_pause h = ground (arith, h)

ls_stage-ended : (l : Listener) → 2 ≤ ls_stage l → is_ls_ended l ≡ true
ls_stage-ended ls_ended h = refl
ls_stage-ended ls_died h = refl
ls_stage-ended ls_unstarted h = ground (arith, h)
ls_stage-ended ls_head h = ground (arith, h)
ls_stage-ended ls_receive h = ground (arith, h)

IsPhased-IsOver : (s : System) → s.program ≡ stopped → IsPhased s → IsOver s
IsPhased-IsOver s e p = record {
  transmitter = tx_stage-ended s.transmitter (omega (arith, p.tx, ap tx_low e));
  listener = ls_stage-ended s.listener (omega (arith, p.ls, ap ls_low e));
  program = e;
}

tx_turn-ended :
    (is_sent : Bool) (t : Transmitter) (s : System) → t ≡ tx_ended → tx_turn is_sent t s ≡ s
unfolding tx_turn
tx_turn-ended is_sent t s e = rw (e)

ls_turn-ended :
    (received : Option Message) (l : Listener) (s : System)
    → is_ls_ended l ≡ true
    → ls_turn received l s ≡ s
unfolding ls_turn
ls_turn-ended received ls_ended s e = refl
ls_turn-ended received ls_died s e = refl
ls_turn-ended received ls_unstarted s e = cc
ls_turn-ended received ls_head s e = cc
ls_turn-ended received ls_receive s e = cc

program_turn-stopped : (t : Turn) (p : Program) (s : System) → p ≡ stopped → program_turn t p s ≡ s
unfolding program_turn go_on
program_turn-stopped t p s e = rw (e)

turn-over : (t : Turn) (s : System) → IsOver s → turn t s ≡ s
unfolding turn
turn-over (transmit is_sent) s o = tx_turn-ended is_sent s.transmitter s o.transmitter
turn-over (listen received) s o = ls_turn-ended received s.listener s o.listener
turn-over calls_start s o = program_turn-stopped calls_start s.program s o.program
turn-over calls_stop s o = program_turn-stopped calls_stop s.program s o.program
turn-over (sets_speed x) s o = program_turn-stopped (sets_speed x) s.program s o.program
turn-over (sets_rpm x) s o = program_turn-stopped (sets_rpm x) s.program s o.program

turns-over : (ts : List Turn) (s : System) → IsOver s → turns ts s ≡ s
unfolding turns
turns-over [] s o = refl
turns-over (t ∷ ts) s o = ap (turns ts) (turn-over t s o) ∙ turns-over ts s o

-- After stop() has returned no turn changes anything.
pub silent_after_stop :
    (s : System) (later : List Turn) → s.program ≡ stopped → IsPhased s → turns later s ≡ s
silent_after_stop s later e p = turns-over later s (IsPhased-IsOver s e p)
