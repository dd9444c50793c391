-- ===== src/CanEcu/Threads/Steps.antt =====
-- What one turn of a thread of the ECU leaves as it was.
use automotive_testing_frame.CanEcu.{
  NmState, normal, sleep, MockEcu, Message, IndexError, nm_listen,
}
use automotive_testing_frame.CanEcu.Threads.{
  Transmitter, tx_unstarted, tx_head, tx_test, tx_speed, tx_rpm, tx_send, tx_pause, tx_ended,
  Listener, ls_unstarted, ls_head, ls_receive, ls_ended, ls_died, System, test_state, enter,
  tx_turn, heard, ls_turn, is_tx_ended, is_ls_ended,
}
use automotive_testing_frame.Prelude.{
  if-both, ℕ, ◌≤◌, ◌≡◌, refl, ap, Bool, true, false, Option, none, some, arith, Result, ok, err,
}

-- How far a thread is: not started, in its loop, at its end.
abbrev pub tx_stage : Transmitter → ℕ
tx_stage tx_unstarted = 0
tx_stage tx_ended = 2
tx_stage t = 1

abbrev pub ls_stage : Listener → ℕ
ls_stage ls_unstarted = 0
ls_stage ls_ended = 2
ls_stage ls_died = 2
ls_stage l = 1

-- A turn of one thread: it changes neither the other thread nor the program, and goes no stage back.
pub record IsTxStep (s after : System) : Type 0 where
  pub listener : after.listener ≡ s.listener
  pub program : after.program ≡ s.program
  pub running : after.running ≡ s.running
  pub onward : tx_stage s.transmitter ≤ tx_stage after.transmitter

pub record IsLsStep (s after : System) : Type 0 where
  pub transmitter : after.transmitter ≡ s.transmitter
  pub program : after.program ≡ s.program
  pub running : after.running ≡ s.running
  pub onward : ls_stage s.listener ≤ ls_stage after.listener

entered-IsTxStep :
    (t : Transmitter) (s : System) → tx_stage s.transmitter ≤ tx_stage t → IsTxStep s (enter t s)
entered-IsTxStep t s le = record { listener = refl; program = refl; running = refl; onward = le }

test_state-IsTxStep :
    (n : NmState) (s : System) → tx_stage s.transmitter ≤ 1 → IsTxStep s (test_state n s)
test_state-IsTxStep sleep s le = entered-IsTxStep tx_pause s le
test_state-IsTxStep normal s le = entered-IsTxStep tx_speed s le

pub tx_turn-IsTxStep :
    (is_sent : Bool) (t : Transmitter) (s : System)
    → s.transmitter ≡ t
    → IsTxStep s (tx_turn is_sent t s)
unfolding tx_turn
tx_turn-IsTxStep is_sent tx_unstarted s e = record {
  listener = refl;
  program = refl;
  running = refl;
  onward = omega arith;
}
tx_turn-IsTxStep is_sent tx_head s e =
    if-both (IsTxStep s) s.running _ _ (entered-IsTxStep tx_test s (omega (arith, ap tx_stage e)))
      (entered-IsTxStep tx_ended s (omega (arith, ap tx_stage e)))
tx_turn-IsTxStep is_sent tx_test s e =
    test_state-IsTxStep s.ecu.nm_state s (omega (arith, ap tx_stage e))
tx_turn-IsTxStep is_sent tx_speed s e = entered-IsTxStep _ s (omega (arith, ap tx_stage e))
tx_turn-IsTxStep is_sent (tx_rpm x) s e = entered-IsTxStep _ s (omega (arith, ap tx_stage e))
tx_turn-IsTxStep true (tx_send m) s e = record {
  listener = refl;
  program = refl;
  running = refl;
  onward = omega (arith, ap tx_stage e);
}
tx_turn-IsTxStep false (tx_send m) s e = entered-IsTxStep _ s (omega (arith, ap tx_stage e))
tx_turn-IsTxStep is_sent tx_pause s e = entered-IsTxStep _ s (omega (arith, ap tx_stage e))
tx_turn-IsTxStep is_sent tx_ended s e = record {
  listener = refl;
  program = refl;
  running = refl;
  onward = omega arith;
}

heard-IsLsStep :
    (r : Result IndexError MockEcu) (s : System) → ls_stage s.listener ≤ 1 → IsLsStep s (heard r s)
heard-IsLsStep (ok e) s le = record {
  transmitter = refl;
  program = refl;
  running = refl;
  onward = le;
}
heard-IsLsStep (err x) s le = record {
  transmitter = refl;
  program = refl;
  running = refl;
  onward = omega (arith, le);
}

pub ls_turn-IsLsStep :
    (received : Option Message) (l : Listener) (s : System)
    → s.listener ≡ l
    → IsLsStep s (ls_turn received l s)
unfolding ls_turn
ls_turn-IsLsStep received ls_unstarted s e = record {
  transmitter = refl;
  program = refl;
  running = refl;
  onward = omega arith;
}
ls_turn-IsLsStep received ls_head s e =
    if-both (IsLsStep s) s.running _ _
      (record {
        transmitter = refl;
        program = refl;
        running = refl;
        onward = omega (arith, ap ls_stage e);
      })
      (record {
        transmitter = refl;
        program = refl;
        running = refl;
        onward = omega (arith, ap ls_stage e);
      })
ls_turn-IsLsStep none ls_receive s e = record {
  transmitter = refl;
  program = refl;
  running = refl;
  onward = omega (arith, ap ls_stage e);
}
ls_turn-IsLsStep (some m) ls_receive s e =
    heard-IsLsStep (nm_listen m s.ecu) s (omega (arith, ap ls_stage e))
ls_turn-IsLsStep received ls_ended s e = record {
  transmitter = refl;
  program = refl;
  running = refl;
  onward = omega arith;
}
ls_turn-IsLsStep received ls_died s e = record {
  transmitter = refl;
  program = refl;
  running = refl;
  onward = omega arith;
}

pub is_tx_ended-stage : (t : Transmitter) → is_tx_ended t ≡ true → 2 ≤ tx_stage t
is_tx_ended-stage tx_ended e = omega arith
is_tx_ended-stage tx_unstarted e = cc
is_tx_ended-stage tx_head e = cc
is_tx_ended-stage tx_test e = cc
is_tx_ended-stage tx_speed e = cc
is_tx_ended-stage (tx_rpm x) e = cc
is_tx_ended-stage (tx_send m) e = cc
is_tx_ended-stage tx_pause e = cc

pub is_ls_ended-stage : (l : Listener) → is_ls_ended l ≡ true → 2 ≤ ls_stage l
is_ls_ended-stage ls_ended e = omega arith
is_ls_ended-stage ls_died e = omega arith
is_ls_ended-stage ls_unstarted e = cc
is_ls_ended-stage ls_head e = cc
is_ls_ended-stage ls_receive e = cc
