-- ===== src/CanEcu/Threads/Returns.antt =====
-- stop() returns once its threads, and then the program, have had their turns, in any order.
use automotive_testing_frame.CanEcu.Threads.Joins.{
  go_on-IsClosing, go_on-joined, program_turn-stopping,
}
use automotive_testing_frame.CanEcu.Threads.Stop.{silent_after_stop}
use automotive_testing_frame.CanEcu.Threads.Closing.{
  tx_left, ls_left, program_left, IsClosing, tx_turn-IsClosing, ls_turn-IsClosing,
}
use automotive_testing_frame.CanEcu.Threads.Phases.{
  IsPhased, turns-IsPhased, new-IsPhased, tx_low, ls_low,
}
use automotive_testing_frame.CanEcu.Threads.Steps.{tx_stage, ls_stage}
use automotive_testing_frame.CanEcu.Threads.{
  sets_rpm, sets_speed, Transmitter, tx_unstarted, tx_head, tx_test, tx_speed, tx_rpm, tx_send,
  tx_pause, tx_ended, Listener, ls_unstarted, ls_head, ls_receive, ls_ended, ls_died, Program,
  fresh, spawning_tx, spawning_nm, started, joining_tx, joining_nm, stopped, failed, System, new,
  Turn, transmit, listen, calls_start, calls_stop, sets_speed, sets_rpm, started_turn, program_turn,
  turn, turns,
}
use automotive_testing_frame.Prelude.{ℕ, suc, ◌-◌, ◌≤◌, ◌≡◌, refl, ap, List, [], ◌∷◌, ◌++◌, arith}

-- How many turns of a list are the transmitter's, the listener's and the program's.
abbrev pub transmits : List Turn → ℕ
transmits [] = 0
transmits (transmit x ∷ ts) = suc (transmits ts)
transmits (t ∷ ts) = transmits ts

abbrev pub listens : List Turn → ℕ
listens [] = 0
listens (listen x ∷ ts) = suc (listens ts)
listens (t ∷ ts) = listens ts

abbrev pub programs : List Turn → ℕ
programs [] = 0
programs (transmit x ∷ ts) = programs ts
programs (listen x ∷ ts) = programs ts
programs (t ∷ ts) = suc (programs ts)

-- What a turn of the program leaves, while it is in stop().
program-IsClosing :
    (a b : ℕ) (t : Turn) (s : System)
    → IsClosing a b 2 s
    → IsClosing a b 2 (program_turn t s.program s)
program-IsClosing a b t s q =
    rw (program_turn-stopping t s.program s q.program)
      (go_on-IsClosing a b 2 s.program s refl (omega arith) q)

program-joined :
    (c : ℕ) (t : Turn) (s : System)
    → c ≤ 2
    → IsClosing 0 0 c s
    → IsClosing 0 0 (c - 1) (program_turn t s.program s)
program-joined c t s le q =
    rw (program_turn-stopping t s.program s (omega (arith, q.program, le)))
      (go_on-joined c s.program s refl le q)

-- With enough turns, both threads come to their ends, whatever the program does in between.
threads_end :
    (a b : ℕ) (ts : List Turn) (s : System)
    → a ≤ 6
    → b ≤ 2
    → a ≤ transmits ts
    → b ≤ listens ts
    → IsClosing a b 2 s
    → IsClosing 0 0 2 (turns ts s)
unfolding turns turn
threads_end a b [] s le_a le_b ha hb q = record {
  off = q.off;
  tx = omega (arith, q.tx, ha);
  ls = omega (arith, q.ls, hb);
  program = q.program;
}
threads_end a b (transmit x ∷ ts) s le_a le_b ha hb q =
    threads_end (a - 1) b ts (turn (transmit x) s) (omega (arith, le_a)) le_b (omega (arith, ha)) hb
      (tx_turn-IsClosing a b 2 x s.transmitter s refl le_a q)
threads_end a b (listen x ∷ ts) s le_a le_b ha hb q =
    threads_end a (b - 1) ts (turn (listen x) s) le_a (omega (arith, le_b)) ha (omega (arith, hb))
      (ls_turn-IsClosing a b 2 x s.listener s refl le_b q)
threads_end a b (calls_start ∷ ts) s le_a le_b ha hb q =
    threads_end a b ts _ le_a le_b ha hb (program-IsClosing a b calls_start s q)
threads_end a b (calls_stop ∷ ts) s le_a le_b ha hb q =
    threads_end a b ts _ le_a le_b ha hb (program-IsClosing a b calls_stop s q)
threads_end a b (sets_speed v ∷ ts) s le_a le_b ha hb q =
    threads_end a b ts _ le_a le_b ha hb (program-IsClosing a b (sets_speed v) s q)
threads_end a b (sets_rpm v ∷ ts) s le_a le_b ha hb q =
    threads_end a b ts _ le_a le_b ha hb (program-IsClosing a b (sets_rpm v) s q)

program_left-stopped : (p : Program) → program_left p ≤ 0 → p ≡ stopped
program_left-stopped stopped h = refl
program_left-stopped joining_nm h = ground (arith, h)
program_left-stopped joining_tx h = ground (arith, h)
program_left-stopped fresh h = ground (arith, h)
program_left-stopped spawning_tx h = ground (arith, h)
program_left-stopped spawning_nm h = ground (arith, h)
program_left-stopped started h = ground (arith, h)
program_left-stopped failed h = ground (arith, h)

-- With enough turns of the program, both joins return, whatever the ended threads do in between.
joins_return :
    (c : ℕ) (ts : List Turn) (s : System)
    → c ≤ 2
    → c ≤ programs ts
    → IsClosing 0 0 c s
    → (turns ts s).program ≡ stopped
unfolding turns turn
joins_return c [] s le enough q = program_left-stopped s.program (omega (arith, q.program, enough))
joins_return c (transmit x ∷ ts) s le enough q =
    joins_return c ts (turn (transmit x) s) le enough
      (tx_turn-IsClosing 0 0 c x s.transmitter s refl (omega arith) q)
joins_return c (listen x ∷ ts) s le enough q =
    joins_return c ts (turn (listen x) s) le enough
      (ls_turn-IsClosing 0 0 c x s.listener s refl (omega arith) q)
joins_return c (calls_start ∷ ts) s le enough q =
    joins_return (c - 1) ts _ (omega (arith, le)) (omega (arith, enough))
      (program-joined c calls_start s le q)
joins_return c (calls_stop ∷ ts) s le enough q =
    joins_return (c - 1) ts _ (omega (arith, le)) (omega (arith, enough))
      (program-joined c calls_stop s le q)
joins_return c (sets_speed v ∷ ts) s le enough q =
    joins_return (c - 1) ts _ (omega (arith, le)) (omega (arith, enough))
      (program-joined c (sets_speed v) s le q)
joins_return c (sets_rpm v ∷ ts) s le enough q =
    joins_return (c - 1) ts _ (omega (arith, le)) (omega (arith, enough))
      (program-joined c (sets_rpm v) s le q)

tx_stage-left : (t : Transmitter) → 1 ≤ tx_stage t → tx_left t ≤ 6
tx_stage-left tx_unstarted h = ground (arith, h)
tx_stage-left tx_head h = omega arith
tx_stage-left tx_test h = omega arith
tx_stage-left tx_speed h = omega arith
tx_stage-left (tx_rpm x) h = omega arith
tx_stage-left (tx_send m) h = omega arith
tx_stage-left tx_pause h = omega arith
tx_stage-left tx_ended h = omega arith

ls_stage-left : (l : Listener) → 1 ≤ ls_stage l → ls_left l ≤ 2
ls_stage-left ls_unstarted h = ground (arith, h)
ls_stage-left ls_head h = omega arith
ls_stage-left ls_receive h = omega arith
ls_stage-left ls_ended h = omega arith
ls_stage-left ls_died h = omega arith

calls_stop-IsClosing :
    (s : System) → s.program ≡ started → IsPhased s → IsClosing 6 2 2 (started_turn calls_stop s)
unfolding started_turn
calls_stop-IsClosing s e p = record {
  off = refl;
  tx = tx_stage-left s.transmitter (omega (arith, p.tx, ap tx_low e));
  ls = ls_stage-left s.listener (omega (arith, p.ls, ap ls_low e));
  program = omega arith;
}

begun-stop :
    (ts : List Turn) (s : System)
    → s.program ≡ started
    → turns (calls_stop ∷ ts) s ≡ turns ts (started_turn calls_stop s)
unfolding turns turn program_turn
begun-stop ts s e = rw (e)

turns-append : (ts us : List Turn) (s : System) → turns (ts ++ us) s ≡ turns us (turns ts s)
unfolding turns
turns-append [] us s = refl
turns-append (t ∷ ts) us s = turns-append ts us (turn t s)

stop_ends :
    (s : System) (ts us : List Turn)
    → s.program ≡ started
    → 6 ≤ transmits ts
    → 2 ≤ listens ts
    → 2 ≤ programs us
    → IsPhased s
    → (turns (calls_stop ∷ ts ++ us) s).program ≡ stopped
stop_ends s ts us e six two joins p =
    rw (begun-stop (ts ++ us) s e, turns-append ts us (started_turn calls_stop s))
      (joins_return 2 us _ (omega arith) joins (
        threads_end 6 2 ts (started_turn calls_stop s) (omega arith) (omega arith) six two
          (calls_stop-IsClosing s e p)))

-- Wherever the threads stand when the program calls stop() after start(), the call returns once the
-- transmitter has had six turns and the listener two, and the program two after all of these. The
-- order of the turns is free otherwise, any further turns may come in between, and bus.send and
-- bus.recv may give anything. From then on no turn changes anything: no frame is sent, and no thread
-- is left.
pub stop_returns :
    (before ts us later : List Turn)
    → (turns before new).program ≡ started
    → 6 ≤ transmits ts
    → 2 ≤ listens ts
    → 2 ≤ programs us
    → let over = turns (calls_stop ∷ ts ++ us) (turns before new) in
      (over.program ≡ stopped) × (turns later over ≡ over)
stop_returns before ts us later e six two joins =
    let s = turns before new in
    let phased = turns-IsPhased before new new-IsPhased in
    let ends = stop_ends s ts us e six two joins phased in
    (
      ends,
      silent_after_stop (turns (calls_stop ∷ ts ++ us) s) later ends
          (turns-IsPhased (calls_stop ∷ ts ++ us) s phased),
    )
