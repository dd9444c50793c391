-- ===== src/CanEcu/Threads.antt =====
-- The two threads of the ECU and the program that starts and stops it, one access to shared state at a
-- time, in any order.
pub mod Phases
pub mod Quiet
pub mod Steps
pub mod Closing
pub mod Joins
pub mod Returns
pub mod Stop
use automotive_testing_frame.CanEcu.{
  NmState, normal, sleep, MockEcu, init, Message, IndexError, nm_listen, engine_status,
}
use automotive_testing_frame.Prelude.{
  ℕ, zero, suc, ◌+◌, ◌-◌, ◌*◌, ◌/◌, ◌%◌, ◌^◌, ◌≤◌, ◌<◌, ◌≡◌, refl, sym, ap, ◌∙◌, ◌≢◌, ◌↔◌, ◌⊎◌, inl,
  inr, Bool, true, false, not, ◌&&◌, ◌||◌, Option, none, some, List, [], ◌∷◌, ◌++◌, map, arith, ltb,
  leb, ◌==◌, if◌then◌else◌, length, take, drop, All, Result, ok, err, ◌>>=◌, Bool-cases,
  Option-cases, get_or, length-append,
}
use automotive_testing_frame.Prelude.Int.{ℤ}
use automotive_testing_frame.Prelude.Texts.{
  Text, codes, is_space, strip, split_on, is_in, join, show_ℕ, starts_with,
}

-- Where _run stands: before start, at the head of its loop, at the test of nm_state, before it reads
-- speed, and rpm, at the send, before its sleep, and after its end.
pub data Transmitter : Type 0 where
  tx_unstarted tx_head tx_test tx_speed : Transmitter
  tx_rpm : ℤ → Transmitter
  tx_send : Message → Transmitter
  tx_pause tx_ended : Transmitter

-- Where _nm_listener stands; `ls_died` is after an IndexError.
pub data Listener : Type 0 where
  ls_unstarted ls_head ls_receive ls_ended ls_died : Listener

-- Where the program stands: before start(), in it, after it, in the two joins of stop(), after it, and
-- after the AttributeError of stop() without start().
pub data Program : Type 0 where
  fresh spawning_tx spawning_nm started joining_tx joining_nm stopped failed : Program

pub record System : Type 0 where
  pub ecu : MockEcu
  pub running : Bool
  pub transmitter : Transmitter
  pub listener : Listener
  pub program : Program
  pub sent : List Message

-- `__init__`
abbrev pub new : System
new = record {
  ecu = init;
  running = false;
  transmitter = tx_unstarted;
  listener = ls_unstarted;
  program = fresh;
  sent = [];
}

-- A turn of the transmitter, whose send may raise a CanError, of the listener, for what recv returns,
-- and of the program: it starts or stops the ECU, or sets a signal.
pub data Turn : Type 0 where
  transmit : Bool → Turn
  listen : Option Message → Turn
  calls_start calls_stop : Turn
  sets_speed sets_rpm : ℤ → Turn

abbrev pub enter : Transmitter → System → System
enter t s = record s { transmitter = t }

abbrev pub finish_send : Bool → Message → System → System
finish_send true m s = record s { transmitter = tx_pause; sent = m ∷ s.sent }
finish_send false m s = enter tx_pause s

abbrev pub test_state : NmState → System → System
test_state sleep s = enter tx_pause s
test_state normal s = enter tx_speed s

unfoldable pub tx_turn : Bool → Transmitter → System → System
tx_turn is_sent tx_unstarted s = s
tx_turn is_sent tx_head s = if s.running then enter tx_test s else enter tx_ended s
tx_turn is_sent tx_test s = test_state s.ecu.nm_state s
tx_turn is_sent tx_speed s = enter (tx_rpm s.ecu.speed) s
tx_turn is_sent (tx_rpm speed) s =
    enter (tx_send (engine_status (record s.ecu { speed = speed }))) s
tx_turn is_sent (tx_send m) s = finish_send is_sent m s
tx_turn is_sent tx_pause s = enter tx_head s
tx_turn is_sent tx_ended s = s

abbrev pub heard : Result IndexError MockEcu → System → System
heard (ok e) s = record s { ecu = e; listener = ls_head }
heard (err x) s = record s { listener = ls_died }

abbrev pub receive : Option Message → System → System
receive none s = record s { listener = ls_head }
receive (some m) s = heard (nm_listen m s.ecu) s

unfoldable pub ls_turn : Option Message → Listener → System → System
ls_turn received ls_unstarted s = s
ls_turn received ls_head s =
    if s.running then record s { listener = ls_receive } else record s { listener = ls_ended }
ls_turn received ls_receive s = receive received s
ls_turn received ls_ended s = s
ls_turn received ls_died s = s

abbrev pub is_tx_ended : Transmitter → Bool
is_tx_ended tx_ended = true
is_tx_ended t = false

abbrev pub is_ls_ended : Listener → Bool
is_ls_ended ls_ended = true
is_ls_ended ls_died = true
is_ls_ended l = false

-- What start() and stop() have left to do, once they are begun: a join waits for its thread.
unfoldable pub go_on : Program → System → System
go_on spawning_tx s = record s { transmitter = tx_head; program = spawning_nm }
go_on spawning_nm s = record s { listener = ls_head; program = started }
go_on joining_tx s = if is_tx_ended s.transmitter then record s { program = joining_nm } else s
go_on joining_nm s = if is_ls_ended s.listener then record s { program = stopped } else s
go_on p s = s

-- What the program does before start(), which is the first call of start() or a call of stop() that
-- raises, and between start() and stop(). It starts the ECU once.
unfoldable pub fresh_turn : Turn → System → System
fresh_turn calls_start s = record s { running = true; program = spawning_tx }
fresh_turn calls_stop s = record s { running = false; program = failed }
fresh_turn (sets_speed x) s = record s { ecu = record s.ecu { speed = x } }
fresh_turn (sets_rpm x) s = record s { ecu = record s.ecu { rpm = x } }
fresh_turn t s = s

unfoldable pub started_turn : Turn → System → System
started_turn calls_stop s = record s { running = false; program = joining_tx }
started_turn (sets_speed x) s = record s { ecu = record s.ecu { speed = x } }
started_turn (sets_rpm x) s = record s { ecu = record s.ecu { rpm = x } }
started_turn t s = s

unfoldable pub program_turn : Turn → Program → System → System
program_turn t fresh s = fresh_turn t s
program_turn t started s = started_turn t s
program_turn t p s = go_on p s

unfoldable pub turn : Turn → System → System
turn (transmit is_sent) s = tx_turn is_sent s.transmitter s
turn (listen received) s = ls_turn received s.listener s
turn t s = program_turn t s.program s

unfoldable pub turns : List Turn → System → System
turns [] s = s
turns (t ∷ ts) s = turns ts (turn t s)

pub program_turn-cases {ℓ} :
    (P : System → Type ℓ) (t : Turn) (p : Program) (s : System)
    → (p ≡ fresh → P (fresh_turn t s))
    → (p ≡ started → P (started_turn t s))
    → P (go_on p s)
    → P (program_turn t p s)
unfolding program_turn
program_turn-cases P t fresh s f st g = f refl
program_turn-cases P t started s f st g = st refl
program_turn-cases P t spawning_tx s f st g = g
program_turn-cases P t spawning_nm s f st g = g
program_turn-cases P t joining_tx s f st g = g
program_turn-cases P t joining_nm s f st g = g
program_turn-cases P t stopped s f st g = g
program_turn-cases P t failed s f st g = g
