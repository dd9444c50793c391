-- ===== src/Uds/Threads/Stop.antt =====
-- What the thread of the diagnostic ECU still does after stop().
use automotive_testing_frame.Uds.Threads.{
  Runner, unstarted, head, work, pause, ended, Program, fresh, spawning, started, joining, stopped,
  System, Turn, runs, calls_start, calls_stop, joins, is_ended, new, run_turn, finish, join,
  program_turn, turn, turns,
}
use automotive_testing_frame.Prelude.{
  ◌≡◌, refl, sym, ap, ◌∙◌, ◌⊎◌, inl, inr, Bool, true, false, List, [], ◌∷◌, if◌then◌else◌, if-both,
}
use automotive_testing_frame.Uds.{MockUdsEcu}
use automotive_testing_frame.Uds.Loop.{CanStack, iterate}

-- The program is in stop(), or after it.
abbrev pub is_stopping : Program → Bool
is_stopping joining = true
is_stopping stopped = true
is_stopping p = false

module _ {S : Type 0} (can_stack : CanStack S) (shutdown : S → S) where
  -- In stop() or after it `running` is False, and at most the turn of the loop that had begun changes
  -- the ECU, from `e` on.
  record IsLast (e : MockUdsEcu) (s : System S) : Type 0 where
    off : s.running ≡ false
    stopping : is_stopping s.program ≡ true
    begun : s.runner ≡ work → s.ecu ≡ e
    once : (s.ecu ≡ e) ⊎ ((stack : S) × (s.ecu ≡ (iterate can_stack stack e).1))

  head-IsLast :
      (e : MockUdsEcu) (running : Bool) (s : System S)
      → running ≡ false
      → IsLast e s
      → IsLast e (if running then record s { runner = work } else record s { runner = ended })
  head-IsLast e true s h q = cc
  head-IsLast e false s h q = record {
    off = q.off;
    stopping = q.stopping;
    begun = λ x. cc;
    once = q.once;
  }

  run_turn-IsLast :
      (e : MockUdsEcu) (is_good : Bool) (r : Runner) (s : System S)
      → s.runner ≡ r
      → IsLast e s
      → IsLast e (run_turn can_stack shutdown is_good r s)
  unfolding run_turn
  run_turn-IsLast e is_good unstarted s h q = q
  run_turn-IsLast e is_good head s h q = head-IsLast e s.running s q.off q
  run_turn-IsLast e false work s h q = record {
    off = q.off;
    stopping = q.stopping;
    begun = λ x. cc;
    once = q.once;
  }
  run_turn-IsLast e true work s h q = record {
    off = q.off;
    stopping = q.stopping;
    begun = λ x. cc;
    once = inr (s.stack, ap (λ x. (iterate can_stack s.stack x).1) (q.begun h));
  }
  run_turn-IsLast e is_good pause s h q = record {
    off = q.off;
    stopping = q.stopping;
    begun = λ x. cc;
    once = q.once;
  }
  run_turn-IsLast e is_good ended s h q = q

  finish-IsLast :
      (e : MockUdsEcu) (s : System S) → IsLast e s → IsLast e (finish can_stack shutdown s)
  finish-IsLast e s q = record { off = q.off; stopping = refl; begun = q.begun; once = q.once }

  join-IsLast :
      (e : MockUdsEcu) (is_over is_late : Bool) (s : System S)
      → IsLast e s
      → IsLast e (join can_stack shutdown is_over is_late s)
  join-IsLast e true is_late s q = finish-IsLast e s q
  join-IsLast e false true s q = finish-IsLast e s q
  join-IsLast e false false s q = q

  program_turn-IsLast :
      (e : MockUdsEcu) (t : Turn) (p : Program) (s : System S)
      → s.program ≡ p
      → IsLast e s
      → IsLast e (program_turn can_stack shutdown t p s)
  unfolding program_turn
  program_turn-IsLast e (joins is_late) joining s h q =
      join-IsLast e (is_ended s.runner) is_late s q
  program_turn-IsLast e (runs is_good) joining s h q = q
  program_turn-IsLast e calls_start joining s h q = q
  program_turn-IsLast e calls_stop joining s h q = q
  program_turn-IsLast e (runs is_good) stopped s h q = q
  program_turn-IsLast e calls_start stopped s h q = q
  program_turn-IsLast e calls_stop stopped s h q = q
  program_turn-IsLast e (joins is_late) stopped s h q = q
  program_turn-IsLast e t fresh s h q = let never = ap is_stopping h in cc
  program_turn-IsLast e t spawning s h q = let never = ap is_stopping h in cc
  program_turn-IsLast e t started s h q = let never = ap is_stopping h in cc

  turn-IsLast :
      (e : MockUdsEcu) (t : Turn) (s : System S)
      → IsLast e s
      → IsLast e (turn can_stack shutdown t s)
  unfolding turn
  turn-IsLast e (runs is_good) s q = run_turn-IsLast e is_good s.runner s refl q
  turn-IsLast e calls_start s q = program_turn-IsLast e calls_start s.program s refl q
  turn-IsLast e calls_stop s q = program_turn-IsLast e calls_stop s.program s refl q
  turn-IsLast e (joins is_late) s q = program_turn-IsLast e (joins is_late) s.program s refl q

  turns-IsLast :
      (e : MockUdsEcu) (ts : List Turn) (s : System S)
      → IsLast e s
      → IsLast e (turns can_stack shutdown ts s)
  unfolding turns
  turns-IsLast e [] s q = q
  turns-IsLast e (t ∷ ts) s q =
      turns-IsLast e ts (turn can_stack shutdown t s) (turn-IsLast e t s q)

  -- `running` is False in stop() and after it.
  abbrev IsPhased : System S → Type 0
  IsPhased s = is_stopping s.program ≡ true → s.running ≡ false

  run_turn-running :
      (is_good : Bool) (r : Runner) (s : System S)
      → ((run_turn can_stack shutdown is_good r s).running ≡ s.running)
        × ((run_turn can_stack shutdown is_good r s).program ≡ s.program)
  unfolding run_turn
  run_turn-running is_good unstarted s = (refl, refl)
  run_turn-running is_good head s =
      if-both (λ (t : System S). (t.running ≡ s.running) × (t.program ≡ s.program)) s.running _ _
        (refl, refl) (refl, refl)
  run_turn-running false work s = (refl, refl)
  run_turn-running true work s = (refl, refl)
  run_turn-running is_good pause s = (refl, refl)
  run_turn-running is_good ended s = (refl, refl)

  join-running :
      (is_over is_late : Bool) (s : System S)
      → (join can_stack shutdown is_over is_late s).running ≡ s.running
  join-running true is_late s = refl
  join-running false true s = refl
  join-running false false s = refl

  program_turn-IsPhased :
      (t : Turn) (p : Program) (s : System S)
      → s.program ≡ p
      → IsPhased s
      → IsPhased (program_turn can_stack shutdown t p s)
  unfolding program_turn
  program_turn-IsPhased calls_start fresh s h q x = cc
  program_turn-IsPhased calls_stop fresh s h q x = refl
  program_turn-IsPhased calls_stop started s h q x = refl
  program_turn-IsPhased (joins is_late) joining s h q x =
      join-running (is_ended s.runner) is_late s ∙ q (ap is_stopping h)
  program_turn-IsPhased t spawning s h q x = cc
  program_turn-IsPhased t p s h q x = q x

  turn-IsPhased : (t : Turn) (s : System S) → IsPhased s → IsPhased (turn can_stack shutdown t s)
  unfolding turn
  turn-IsPhased (runs is_good) s q x =
      let (running, program) = run_turn-running is_good s.runner s in
      running ∙ q (sym (ap is_stopping program) ∙ x)
  turn-IsPhased calls_start s q x = program_turn-IsPhased calls_start s.program s refl q x
  turn-IsPhased calls_stop s q x = program_turn-IsPhased calls_stop s.program s refl q x
  turn-IsPhased (joins is_late) s q x = program_turn-IsPhased (joins is_late) s.program s refl q x

  turns-IsPhased :
      (ts : List Turn) (s : System S) → IsPhased s → IsPhased (turns can_stack shutdown ts s)
  unfolding turns
  turns-IsPhased [] s q = q
  turns-IsPhased (t ∷ ts) s q =
      turns-IsPhased ts (turn can_stack shutdown t s) (turn-IsPhased t s q)

  -- Once stop() has begun, also where its join gives up after two seconds, the thread changes the
  -- state of the ECU at most by the one turn of its loop that had begun.
  last_turn_after_stop :
      (before after : List Turn) (stack : S)
      → is_stopping (turns can_stack shutdown before (new can_stack shutdown stack)).program ≡ true
      → let now = turns can_stack shutdown before (new can_stack shutdown stack) in
        let later = turns can_stack shutdown after now in
        (later.ecu ≡ now.ecu)
        ⊎ ((at_turn : S) × (later.ecu ≡ (iterate can_stack at_turn now.ecu).1))
  last_turn_after_stop before after stack h =
      let now = turns can_stack shutdown before (new can_stack shutdown stack) in
      let phased = turns-IsPhased before (new can_stack shutdown stack) (λ x. refl) in
      (turns-IsLast now.ecu after now
        (record { off = phased h; stopping = h; begun = λ x. refl; once = inl refl })).once
