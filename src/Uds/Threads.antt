-- ===== src/Uds/Threads.antt =====
-- The thread of `_run` and the program that starts and stops the diagnostic ECU, one turn at a time.
-- Only the thread uses the state of the ECU and the stack while it runs.
pub mod Stop
use automotive_testing_frame.Prelude.{
  ◌≡◌, refl, sym, ap, ◌∙◌, ◌⊎◌, inl, inr, Bool, true, false, List, [], ◌∷◌, if◌then◌else◌, if-both,
}
use automotive_testing_frame.Uds.{MockUdsEcu, init}
use automotive_testing_frame.Uds.Loop.{CanStack, iterate}

-- Where _run stands: at the head of its loop, in a turn, and in its sleep.
pub data Runner : Type 0 where
  unstarted head work pause ended : Runner

-- Where the program stands: before start(), in it, after it, and in and after stop().
pub data Program : Type 0 where
  fresh spawning started joining stopped : Program

pub record System (S : Type 0) : Type 0 where
  pub running : Bool
  pub ecu : MockUdsEcu
  pub stack : S
  pub runner : Runner
  pub program : Program

-- A turn of the thread, where `false` is an error of the stack, of the program, which starts the ECU
-- once, and of its join, where `true` is that the two seconds are over.
pub data Turn : Type 0 where
  runs : Bool → Turn
  calls_start calls_stop : Turn
  joins : Bool → Turn

abbrev pub is_ended : Runner → Bool
is_ended ended = true
is_ended r = false

module _ {S : Type 0} (can_stack : CanStack S) (shutdown : S → S) where
  -- `__init__`
  abbrev pub new : S → System S
  new stack = record {
    running = false;
    ecu = init;
    stack = stack;
    runner = unstarted;
    program = fresh;
  }

  unfoldable pub run_turn : Bool → Runner → System S → System S
  run_turn is_good unstarted s = s
  run_turn is_good head s =
      if s.running then record s { runner = work } else record s { runner = ended }
  run_turn false work s = record s { runner = ended }
  run_turn true work s =
      let (stack, ecu) = iterate can_stack s.stack s.ecu in
      record s { stack = stack; ecu = ecu; runner = pause }
  run_turn is_good pause s = record s { runner = head }
  run_turn is_good ended s = s

  -- `self.bus.shutdown()`, after the join or without a thread
  abbrev pub finish : System S → System S
  finish s = record s { stack = shutdown s.stack; program = stopped }

  abbrev pub join : Bool → Bool → System S → System S
  join true is_over s = finish s
  join false true s = finish s
  join false false s = s

  unfoldable pub program_turn : Turn → Program → System S → System S
  program_turn calls_start fresh s = record s { running = true; program = spawning }
  program_turn t spawning s = record s { runner = head; program = started }
  program_turn calls_stop fresh s = finish (record s { running = false })
  program_turn calls_stop started s = record s { running = false; program = joining }
  program_turn (joins is_over) joining s = join (is_ended s.runner) is_over s
  program_turn t p s = s

  unfoldable pub turn : Turn → System S → System S
  turn (runs is_good) s = run_turn is_good s.runner s
  turn t s = program_turn t s.program s

  unfoldable pub turns : List Turn → System S → System S
  turns [] s = s
  turns (t ∷ ts) s = turns ts (turn t s)
