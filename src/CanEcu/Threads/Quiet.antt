-- ===== src/CanEcu/Threads/Quiet.antt =====
-- How soon the ECU is silent after the sleep command.
use automotive_testing_frame.CanEcu.{
  NmState, normal, sleep, MockEcu, Message, IndexError, nm_listen,
}
use automotive_testing_frame.CanEcu.Sleep.{IsCommand, listen-asleep}
use automotive_testing_frame.CanEcu.Threads.{
  Transmitter, tx_unstarted, tx_head, tx_test, tx_speed, tx_rpm, tx_send, tx_pause, tx_ended,
  Listener, ls_unstarted, ls_head, ls_receive, ls_ended, ls_died, Program, fresh, spawning_tx,
  spawning_nm, started, joining_tx, joining_nm, stopped, failed, System, Turn, transmit, listen,
  calls_start, calls_stop, sets_speed, sets_rpm, test_state, enter, tx_turn, heard, ls_turn,
  is_tx_ended, is_ls_ended, go_on, fresh_turn, started_turn, program_turn, program_turn-cases, turn,
  turns,
}
use automotive_testing_frame.Prelude.{
  if-both, ℕ, ◌+◌, ◌≤◌, ◌≡◌, refl, ap, Bool, true, false, Option, none, some, List, [], ◌∷◌, arith,
  length, All, Result, ok, err,
}

-- A frame under way: the test of nm_state is passed, the send is not done.
abbrev pub under_way : Transmitter → ℕ
under_way tx_speed = 1
under_way (tx_rpm x) = 1
under_way (tx_send m) = 1
under_way t = 0

-- No wake command arrives in the turn.
abbrev pub IsNoWake : Turn → Type 0
IsNoWake (listen (some m)) = IsCommand 0x01 m → ⊥
IsNoWake t = Unit

-- Asleep, with so many frames sent and under way.
pub record IsQuiet (bound : ℕ) (s : System) : Type 0 where
  pub asleep : s.ecu.nm_state ≡ sleep
  pub frames : length s.sent + under_way s.transmitter ≤ bound

-- The step of a thread that adds no frame.
entered-IsQuiet :
    (bound : ℕ) (t u : Transmitter) (s : System)
    → s.transmitter ≡ t
    → under_way u ≤ under_way t
    → IsQuiet bound s
    → IsQuiet bound (enter u s)
entered-IsQuiet bound t u s e fewer q = record {
  asleep = q.asleep;
  frames = omega (arith, q.frames, ap under_way e, fewer);
}

test_state-IsQuiet :
    (bound : ℕ) (n : NmState) (s : System)
    → s.transmitter ≡ tx_test
    → n ≡ sleep
    → IsQuiet bound s
    → IsQuiet bound (test_state n s)
test_state-IsQuiet bound sleep s e h q = entered-IsQuiet bound tx_test tx_pause s e (omega arith) q
test_state-IsQuiet bound normal s e h q = cc

tx_turn-IsQuiet :
    (bound : ℕ) (is_sent : Bool) (t : Transmitter) (s : System)
    → s.transmitter ≡ t
    → IsQuiet bound s
    → IsQuiet bound (tx_turn is_sent t s)
unfolding tx_turn
tx_turn-IsQuiet bound is_sent tx_unstarted s e q = q
tx_turn-IsQuiet bound is_sent tx_head s e q =
    if-both (IsQuiet bound) s.running _ _
      (entered-IsQuiet bound tx_head tx_test s e (omega arith) q)
      (entered-IsQuiet bound tx_head tx_ended s e (omega arith) q)
tx_turn-IsQuiet bound is_sent tx_test s e q = test_state-IsQuiet bound s.ecu.nm_state s e q.asleep q
tx_turn-IsQuiet bound is_sent tx_speed s e q = entered-IsQuiet bound tx_speed _ s e (omega arith) q
tx_turn-IsQuiet bound is_sent (tx_rpm x) s e q =
    entered-IsQuiet bound (tx_rpm x) _ s e (omega arith) q
tx_turn-IsQuiet bound true (tx_send m) s e q = record {
  asleep = q.asleep;
  frames = omega (arith, q.frames, ap under_way e);
}
tx_turn-IsQuiet bound false (tx_send m) s e q =
    entered-IsQuiet bound (tx_send m) tx_pause s e (omega arith) q
tx_turn-IsQuiet bound is_sent tx_pause s e q =
    entered-IsQuiet bound tx_pause tx_head s e (omega arith) q
tx_turn-IsQuiet bound is_sent tx_ended s e q = q

heard-IsQuiet :
    (bound : ℕ) (m : Message) (r : Result IndexError MockEcu) (s : System)
    → (IsCommand 0x01 m → ⊥)
    → nm_listen m s.ecu ≡ r
    → IsQuiet bound s
    → IsQuiet bound (heard r s)
heard-IsQuiet bound m (ok e) s h r q = record {
  asleep = listen-asleep m s.ecu e q.asleep h r;
  frames = q.frames;
}
heard-IsQuiet bound m (err x) s h r q = record { asleep = q.asleep; frames = q.frames }

ls_turn-IsQuiet :
    (bound : ℕ) (received : Option Message) (l : Listener) (s : System)
    → IsNoWake (listen received)
    → IsQuiet bound s
    → IsQuiet bound (ls_turn received l s)
unfolding ls_turn
ls_turn-IsQuiet bound received ls_unstarted s h q = q
ls_turn-IsQuiet bound received ls_head s h q = record {
  asleep = ground (arith, q.asleep);
  frames = ground (arith, q.frames);
}
ls_turn-IsQuiet bound none ls_receive s h q = record { asleep = q.asleep; frames = q.frames }
ls_turn-IsQuiet bound (some m) ls_receive s h q =
    heard-IsQuiet bound m (nm_listen m s.ecu) s h refl q
ls_turn-IsQuiet bound received ls_ended s h q = q
ls_turn-IsQuiet bound received ls_died s h q = q

-- The program changes neither nm_state nor the frames, and starts no frame.
go_on-IsQuiet : (bound : ℕ) (p : Program) (s : System) → IsQuiet bound s → IsQuiet bound (go_on p s)
unfolding go_on
go_on-IsQuiet bound spawning_tx s q = record { asleep = q.asleep; frames = omega (arith, q.frames) }
go_on-IsQuiet bound spawning_nm s q = record { asleep = q.asleep; frames = q.frames }
go_on-IsQuiet bound joining_tx s q =
    if-both (IsQuiet bound) (is_tx_ended s.transmitter) _ _
      (record { asleep = q.asleep; frames = q.frames }) q
go_on-IsQuiet bound joining_nm s q =
    if-both (IsQuiet bound) (is_ls_ended s.listener) _ _
      (record { asleep = q.asleep; frames = q.frames }) q
go_on-IsQuiet bound fresh s q = q
go_on-IsQuiet bound started s q = q
go_on-IsQuiet bound stopped s q = q
go_on-IsQuiet bound failed s q = q

fresh_turn-IsQuiet :
    (bound : ℕ) (t : Turn) (s : System) → IsQuiet bound s → IsQuiet bound (fresh_turn t s)
unfolding fresh_turn
fresh_turn-IsQuiet bound calls_start s q = record { asleep = q.asleep; frames = q.frames }
fresh_turn-IsQuiet bound calls_stop s q = record { asleep = q.asleep; frames = q.frames }
fresh_turn-IsQuiet bound (sets_speed x) s q = record { asleep = q.asleep; frames = q.frames }
fresh_turn-IsQuiet bound (sets_rpm x) s q = record { asleep = q.asleep; frames = q.frames }
fresh_turn-IsQuiet bound (transmit x) s q = q
fresh_turn-IsQuiet bound (listen x) s q = q

started_turn-IsQuiet :
    (bound : ℕ) (t : Turn) (s : System) → IsQuiet bound s → IsQuiet bound (started_turn t s)
unfolding started_turn
started_turn-IsQuiet bound calls_start s q = q
started_turn-IsQuiet bound calls_stop s q = record { asleep = q.asleep; frames = q.frames }
started_turn-IsQuiet bound (sets_speed x) s q = record { asleep = q.asleep; frames = q.frames }
started_turn-IsQuiet bound (sets_rpm x) s q = record { asleep = q.asleep; frames = q.frames }
started_turn-IsQuiet bound (transmit x) s q = q
started_turn-IsQuiet bound (listen x) s q = q

program_turn-IsQuiet :
    (bound : ℕ) (t : Turn) (s : System)
    → IsQuiet bound s
    → IsQuiet bound (program_turn t s.program s)
program_turn-IsQuiet bound t s q =
    program_turn-cases (IsQuiet bound) t s.program s (λ e. fresh_turn-IsQuiet bound t s q)
      (λ e. started_turn-IsQuiet bound t s q) (go_on-IsQuiet bound s.program s q)

turn-IsQuiet :
    (bound : ℕ) (t : Turn) (s : System) → IsNoWake t → IsQuiet bound s → IsQuiet bound (turn t s)
unfolding turn
turn-IsQuiet bound (transmit is_sent) s h q = tx_turn-IsQuiet bound is_sent s.transmitter s refl q
turn-IsQuiet bound (listen received) s h q = ls_turn-IsQuiet bound received s.listener s h q
turn-IsQuiet bound calls_start s h q = program_turn-IsQuiet bound calls_start s q
turn-IsQuiet bound calls_stop s h q = program_turn-IsQuiet bound calls_stop s q
turn-IsQuiet bound (sets_speed x) s h q = program_turn-IsQuiet bound (sets_speed x) s q
turn-IsQuiet bound (sets_rpm x) s h q = program_turn-IsQuiet bound (sets_rpm x) s q

turns-IsQuiet :
    (bound : ℕ) (ts : List Turn) (s : System)
    → All IsNoWake ts
    → IsQuiet bound s
    → IsQuiet bound (turns ts s)
unfolding turns
turns-IsQuiet bound [] s h q = q
turns-IsQuiet bound (t ∷ ts) s h q =
    turns-IsQuiet bound ts (turn t s) h.1 (turn-IsQuiet bound t s h.0 q)

-- However the threads and the program take their turns, an ECU that is asleep sends at most the one
-- frame that was under way, until a wake command arrives.
pub frames_after_sleep :
    (ts : List Turn) (s : System)
    → s.ecu.nm_state ≡ sleep
    → All IsNoWake ts
    → let after = turns ts s in
      (after.ecu.nm_state ≡ sleep)
      × (length after.sent + under_way after.transmitter ≤ length s.sent + under_way s.transmitter)
frames_after_sleep ts s asleep quiet =
    let kept =
      turns-IsQuiet (length s.sent + under_way s.transmitter) ts s quiet
        (record { asleep = asleep; frames = omega arith }) in
    (kept.asleep, kept.frames)
