-- ===== src/CanEcu/Threads/Closing.antt =====
-- What the threads of the ECU have left to do while it stops.
use automotive_testing_frame.CanEcu.{
  NmState, normal, sleep, MockEcu, Message, IndexError, nm_listen,
}
use automotive_testing_frame.CanEcu.Threads.{
  Transmitter, tx_unstarted, tx_head, tx_test, tx_speed, tx_rpm, tx_send, tx_pause, tx_ended,
  Listener, ls_unstarted, ls_head, ls_receive, ls_ended, ls_died, Program, joining_tx, joining_nm,
  stopped, System, test_state, enter, tx_turn, heard, ls_turn,
}
use automotive_testing_frame.Prelude.{
  ℕ, ◌-◌, ◌≤◌, ◌<◌, ◌≡◌, ap, Bool, true, false, Option, none, some, arith, if◌then◌else◌, Result,
  ok, err,
}

-- The turns that a thread has left, once it is started and `running` is False.
abbrev pub tx_left : Transmitter → ℕ
tx_left tx_ended = 0
tx_left tx_head = 1
tx_left tx_pause = 2
tx_left (tx_send m) = 3
tx_left (tx_rpm x) = 4
tx_left tx_speed = 5
tx_left tx_test = 6
tx_left tx_unstarted = 7

abbrev pub ls_left : Listener → ℕ
ls_left ls_ended = 0
ls_left ls_died = 0
ls_left ls_head = 1
ls_left ls_receive = 2
ls_left ls_unstarted = 3

abbrev pub program_left : Program → ℕ
program_left stopped = 0
program_left joining_nm = 1
program_left joining_tx = 2
program_left p = 3

-- In stop(), with at most so many turns of each left.
pub record IsClosing (a b c : ℕ) (s : System) : Type 0 where
  pub off : s.running ≡ false
  pub tx : tx_left s.transmitter ≤ a
  pub ls : ls_left s.listener ≤ b
  pub program : program_left s.program ≤ c

entered-IsClosing :
    (a b c : ℕ) (t : Transmitter) (s : System)
    → tx_left t < tx_left s.transmitter
    → IsClosing a b c s
    → IsClosing (a - 1) b c (enter t s)
entered-IsClosing a b c t s lt p = record {
  off = p.off;
  tx = omega (arith, p.tx, lt);
  ls = p.ls;
  program = p.program;
}

test_state-IsClosing :
    (a b c : ℕ) (n : NmState) (s : System)
    → s.transmitter ≡ tx_test
    → IsClosing a b c s
    → IsClosing (a - 1) b c (test_state n s)
test_state-IsClosing a b c sleep s e p =
    entered-IsClosing a b c tx_pause s (omega (arith, ap tx_left e)) p
test_state-IsClosing a b c normal s e p =
    entered-IsClosing a b c tx_speed s (omega (arith, ap tx_left e)) p

tx_head-IsClosing :
    (a b c : ℕ) (running : Bool) (s : System)
    → running ≡ false
    → s.transmitter ≡ tx_head
    → IsClosing a b c s
    → IsClosing (a - 1) b c (if running then enter tx_test s else enter tx_ended s)
tx_head-IsClosing a b c false s h e p =
    entered-IsClosing a b c tx_ended s (omega (arith, ap tx_left e)) p
tx_head-IsClosing a b c true s h e p = cc

pub tx_turn-IsClosing :
    (a b c : ℕ) (is_sent : Bool) (t : Transmitter) (s : System)
    → s.transmitter ≡ t
    → a ≤ 6
    → IsClosing a b c s
    → IsClosing (a - 1) b c (tx_turn is_sent t s)
unfolding tx_turn
tx_turn-IsClosing a b c is_sent tx_unstarted s e le p = record {
  off = p.off;
  tx = omega (arith, p.tx, le, ap tx_left e);
  ls = p.ls;
  program = p.program;
}
tx_turn-IsClosing a b c is_sent tx_head s e le p = tx_head-IsClosing a b c s.running s p.off e p
tx_turn-IsClosing a b c is_sent tx_test s e le p = test_state-IsClosing a b c s.ecu.nm_state s e p
tx_turn-IsClosing a b c is_sent tx_speed s e le p =
    entered-IsClosing a b c _ s (omega (arith, ap tx_left e)) p
tx_turn-IsClosing a b c is_sent (tx_rpm x) s e le p =
    entered-IsClosing a b c _ s (omega (arith, ap tx_left e)) p
tx_turn-IsClosing a b c true (tx_send m) s e le p = record {
  off = p.off;
  tx = omega (arith, p.tx, ap tx_left e);
  ls = p.ls;
  program = p.program;
}
tx_turn-IsClosing a b c false (tx_send m) s e le p =
    entered-IsClosing a b c tx_pause s (omega (arith, ap tx_left e)) p
tx_turn-IsClosing a b c is_sent tx_pause s e le p =
    entered-IsClosing a b c tx_head s (omega (arith, ap tx_left e)) p
tx_turn-IsClosing a b c is_sent tx_ended s e le p = record {
  off = p.off;
  tx = omega (arith, ap tx_left e);
  ls = p.ls;
  program = p.program;
}

heard-IsClosing :
    (a b c : ℕ) (r : Result IndexError MockEcu) (s : System)
    → s.listener ≡ ls_receive
    → IsClosing a b c s
    → IsClosing a (b - 1) c (heard r s)
heard-IsClosing a b c (ok x) s e p = record {
  off = p.off;
  tx = p.tx;
  ls = omega (arith, p.ls, ap ls_left e);
  program = p.program;
}
heard-IsClosing a b c (err x) s e p = record {
  off = p.off;
  tx = p.tx;
  ls = omega arith;
  program = p.program;
}

ls_head-IsClosing :
    (a b c : ℕ) (running : Bool) (s : System)
    → running ≡ false
    → IsClosing a b c s
    → IsClosing a
        (b - 1)
        c
        (if running then record s { listener = ls_receive } else record s { listener = ls_ended })
ls_head-IsClosing a b c false s h p = record {
  off = p.off;
  tx = p.tx;
  ls = omega arith;
  program = p.program;
}
ls_head-IsClosing a b c true s h p = cc

pub ls_turn-IsClosing :
    (a b c : ℕ) (received : Option Message) (l : Listener) (s : System)
    → s.listener ≡ l
    → b ≤ 2
    → IsClosing a b c s
    → IsClosing a (b - 1) c (ls_turn received l s)
unfolding ls_turn
ls_turn-IsClosing a b c received ls_unstarted s e le p = record {
  off = p.off;
  tx = p.tx;
  ls = omega (arith, p.ls, le, ap ls_left e);
  program = p.program;
}
ls_turn-IsClosing a b c received ls_head s e le p = ls_head-IsClosing a b c s.running s p.off p
ls_turn-IsClosing a b c none ls_receive s e le p = record {
  off = p.off;
  tx = p.tx;
  ls = omega (arith, p.ls, ap ls_left e);
  program = p.program;
}
ls_turn-IsClosing a b c (some m) ls_receive s e le p =
    heard-IsClosing a b c (nm_listen m s.ecu) s e p
ls_turn-IsClosing a b c received ls_ended s e le p = record {
  off = p.off;
  tx = p.tx;
  ls = omega (arith, ap ls_left e);
  program = p.program;
}
ls_turn-IsClosing a b c received ls_died s e le p = record {
  off = p.off;
  tx = p.tx;
  ls = omega (arith, ap ls_left e);
  program = p.program;
}
