-- ===== src/CanEcu/Threads/Joins.antt =====
-- The joins of stop(), once the threads of the ECU have ended.
use automotive_testing_frame.CanEcu.Threads.Closing.{tx_left, ls_left, program_left, IsClosing}
use automotive_testing_frame.CanEcu.Threads.{
  Transmitter, tx_unstarted, tx_head, tx_test, tx_speed, tx_rpm, tx_send, tx_pause, tx_ended,
  Listener, ls_unstarted, ls_head, ls_receive, ls_ended, ls_died, Program, fresh, spawning_tx,
  spawning_nm, started, joining_tx, joining_nm, stopped, failed, System, Turn, is_tx_ended,
  is_ls_ended, go_on, program_turn,
}
use automotive_testing_frame.Prelude.{
  ℕ, ◌-◌, ◌≤◌, ◌≡◌, refl, ap, Bool, true, false, arith, if◌then◌else◌,
}

join-IsClosing :
    (a b c : ℕ) (is_over : Bool) (p : Program) (s : System)
    → program_left p ≤ c
    → IsClosing a b c s
    → IsClosing a b c (if is_over then record s { program = p } else s)
join-IsClosing a b c true p s le q = record { off = q.off; tx = q.tx; ls = q.ls; program = le }
join-IsClosing a b c false p s le q = q

pub go_on-IsClosing :
    (a b c : ℕ) (p : Program) (s : System)
    → s.program ≡ p
    → c ≤ 2
    → IsClosing a b c s
    → IsClosing a b c (go_on p s)
unfolding go_on
go_on-IsClosing a b c joining_tx s e le q =
    join-IsClosing a b c (is_tx_ended s.transmitter) joining_nm s
      (omega (arith, q.program, ap program_left e)) q
go_on-IsClosing a b c joining_nm s e le q =
    join-IsClosing a b c (is_ls_ended s.listener) stopped s (omega arith) q
go_on-IsClosing a b c stopped s e le q = q
go_on-IsClosing a b c failed s e le q = q
go_on-IsClosing a b c fresh s e le q = q
go_on-IsClosing a b c started s e le q = q
go_on-IsClosing a b c spawning_tx s e le q =
    absurd (omega (arith, q.program, ap program_left e, le))
go_on-IsClosing a b c spawning_nm s e le q =
    absurd (omega (arith, q.program, ap program_left e, le))

tx_left-ended : (t : Transmitter) → tx_left t ≤ 0 → is_tx_ended t ≡ true
tx_left-ended tx_ended h = refl
tx_left-ended tx_unstarted h = ground (arith, h)
tx_left-ended tx_head h = ground (arith, h)
tx_left-ended tx_test h = ground (arith, h)
tx_left-ended tx_speed h = ground (arith, h)
tx_left-ended (tx_rpm x) h = ground (arith, h)
tx_left-ended (tx_send m) h = ground (arith, h)
tx_left-ended tx_pause h = ground (arith, h)

ls_left-ended : (l : Listener) → ls_left l ≤ 0 → is_ls_ended l ≡ true
ls_left-ended ls_ended h = refl
ls_left-ended ls_died h = refl
ls_left-ended ls_unstarted h = ground (arith, h)
ls_left-ended ls_head h = ground (arith, h)
ls_left-ended ls_receive h = ground (arith, h)

-- A join of a thread that has ended returns.
joined-IsClosing :
    (c : ℕ) (is_over : Bool) (p : Program) (s : System)
    → is_over ≡ true
    → program_left p ≤ c - 1
    → IsClosing 0 0 c s
    → IsClosing 0 0 (c - 1) (if is_over then record s { program = p } else s)
joined-IsClosing c true p s h le q = record { off = q.off; tx = q.tx; ls = q.ls; program = le }
joined-IsClosing c false p s h le q = cc

pub go_on-joined :
    (c : ℕ) (p : Program) (s : System)
    → s.program ≡ p
    → c ≤ 2
    → IsClosing 0 0 c s
    → IsClosing 0 0 (c - 1) (go_on p s)
unfolding go_on
go_on-joined c joining_tx s e le q =
    joined-IsClosing c (is_tx_ended s.transmitter) joining_nm s (tx_left-ended s.transmitter q.tx)
      (omega (arith, q.program, ap program_left e)) q
go_on-joined c joining_nm s e le q =
    joined-IsClosing c (is_ls_ended s.listener) stopped s (ls_left-ended s.listener q.ls)
      (omega arith) q
go_on-joined c stopped s e le q = record {
  off = q.off;
  tx = q.tx;
  ls = q.ls;
  program = omega (arith, ap program_left e);
}
go_on-joined c failed s e le q = absurd (omega (arith, q.program, ap program_left e, le))
go_on-joined c fresh s e le q = absurd (omega (arith, q.program, ap program_left e, le))
go_on-joined c started s e le q = absurd (omega (arith, q.program, ap program_left e, le))
go_on-joined c spawning_tx s e le q = absurd (omega (arith, q.program, ap program_left e, le))
go_on-joined c spawning_nm s e le q = absurd (omega (arith, q.program, ap program_left e, le))

pub program_turn-stopping :
    (t : Turn) (p : Program) (s : System) → program_left p ≤ 2 → program_turn t p s ≡ go_on p s
unfolding program_turn
program_turn-stopping t joining_tx s le = refl
program_turn-stopping t joining_nm s le = refl
program_turn-stopping t stopped s le = refl
program_turn-stopping t failed s le = refl
program_turn-stopping t spawning_tx s le = refl
program_turn-stopping t spawning_nm s le = refl
program_turn-stopping t fresh s le = ground (arith, le)
program_turn-stopping t started s le = ground (arith, le)
