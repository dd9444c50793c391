-- ===== src/CanEcu/Threads/Phases.antt =====
-- The points that the two threads and the program of the ECU can be at together.
use automotive_testing_frame.CanEcu.Threads.Steps.{
  tx_stage, ls_stage, IsTxStep, IsLsStep, tx_turn-IsTxStep, ls_turn-IsLsStep, is_tx_ended-stage,
  is_ls_ended-stage,
}
use automotive_testing_frame.CanEcu.Threads.{
  Program, fresh, spawning_tx, spawning_nm, started, joining_tx, joining_nm, stopped, failed,
  System, new, Turn, transmit, listen, calls_start, calls_stop, sets_speed, sets_rpm, is_tx_ended,
  is_ls_ended, go_on, fresh_turn, started_turn, program_turn, program_turn-cases, turn, turns,
}
use automotive_testing_frame.Prelude.{
  ℕ, ◌≤◌, ◌≡◌, refl, sym, ap, ◌∙◌, Bool, true, false, List, [], ◌∷◌, arith, if◌then◌else◌,
}

-- How far the threads must be, and may be at most, at each point of the program.
abbrev pub tx_low : Program → ℕ
tx_low spawning_nm = 1
tx_low started = 1
tx_low joining_tx = 1
tx_low joining_nm = 2
tx_low stopped = 2
tx_low p = 0

abbrev pub ls_low : Program → ℕ
ls_low started = 1
ls_low joining_tx = 1
ls_low joining_nm = 1
ls_low stopped = 2
ls_low p = 0

-- The program is in stop(), or after it.
abbrev pub is_stopping : Program → Bool
is_stopping joining_tx = true
is_stopping joining_nm = true
is_stopping stopped = true
is_stopping p = false

pub record IsPhased (s : System) : Type 0 where
  pub tx : tx_low s.program ≤ tx_stage s.transmitter
  pub ls : ls_low s.program ≤ ls_stage s.listener
  pub off : is_stopping s.program ≡ true → s.running ≡ false

-- The program's turns.
joined_tx-IsPhased :
    (b : Bool) (s : System)
    → is_tx_ended s.transmitter ≡ b
    → s.program ≡ joining_tx
    → IsPhased s
    → IsPhased (if b then record s { program = joining_nm } else s)
joined_tx-IsPhased true s h e p = record {
  tx = is_tx_ended-stage s.transmitter h;
  ls = omega (arith, p.ls, ap ls_low e);
  off = λ x. p.off (ap is_stopping e);
}
joined_tx-IsPhased false s h e p = p

joined_nm-IsPhased :
    (b : Bool) (s : System)
    → is_ls_ended s.listener ≡ b
    → s.program ≡ joining_nm
    → IsPhased s
    → IsPhased (if b then record s { program = stopped } else s)
joined_nm-IsPhased true s h e p = record {
  tx = omega (arith, p.tx, ap tx_low e);
  ls = is_ls_ended-stage s.listener h;
  off = λ x. p.off (ap is_stopping e);
}
joined_nm-IsPhased false s h e p = p

go_on-IsPhased : (p : Program) (s : System) → s.program ≡ p → IsPhased s → IsPhased (go_on p s)
unfolding go_on
go_on-IsPhased fresh s e p = p
go_on-IsPhased spawning_tx s e p = record { tx = omega arith; ls = omega arith; off = λ x. cc }
go_on-IsPhased spawning_nm s e p = record {
  tx = omega (arith, p.tx, ap tx_low e);
  ls = omega arith;
  off = λ x. cc;
}
go_on-IsPhased started s e p = p
go_on-IsPhased joining_tx s e p = joined_tx-IsPhased (is_tx_ended s.transmitter) s refl e p
go_on-IsPhased joining_nm s e p = joined_nm-IsPhased (is_ls_ended s.listener) s refl e p
go_on-IsPhased stopped s e p = p
go_on-IsPhased failed s e p = p

fresh_turn-IsPhased :
    (t : Turn) (s : System) → s.program ≡ fresh → IsPhased s → IsPhased (fresh_turn t s)
unfolding fresh_turn
fresh_turn-IsPhased calls_start s e p = record { tx = omega arith; ls = omega arith; off = λ x. cc }
fresh_turn-IsPhased calls_stop s e p = record { tx = omega arith; ls = omega arith; off = λ x. cc }
fresh_turn-IsPhased (sets_speed x) s e p = record { tx = p.tx; ls = p.ls; off = p.off }
fresh_turn-IsPhased (sets_rpm x) s e p = record { tx = p.tx; ls = p.ls; off = p.off }
fresh_turn-IsPhased (transmit x) s e p = p
fresh_turn-IsPhased (listen x) s e p = p

started_turn-IsPhased :
    (t : Turn) (s : System) → s.program ≡ started → IsPhased s → IsPhased (started_turn t s)
unfolding started_turn
started_turn-IsPhased calls_start s e p = p
started_turn-IsPhased calls_stop s e p = record {
  tx = omega (arith, p.tx, ap tx_low e);
  ls = omega (arith, p.ls, ap ls_low e);
  off = λ x. refl;
}
started_turn-IsPhased (sets_speed x) s e p = record { tx = p.tx; ls = p.ls; off = p.off }
started_turn-IsPhased (sets_rpm x) s e p = record { tx = p.tx; ls = p.ls; off = p.off }
started_turn-IsPhased (transmit x) s e p = p
started_turn-IsPhased (listen x) s e p = p

program_turn-IsPhased : (t : Turn) (s : System) → IsPhased s → IsPhased (program_turn t s.program s)
program_turn-IsPhased t s p =
    program_turn-cases IsPhased t s.program s (λ e. fresh_turn-IsPhased t s e p)
      (λ e. started_turn-IsPhased t s e p) (go_on-IsPhased s.program s refl p)

tx_turn-IsPhased : (s after : System) → IsTxStep s after → IsPhased s → IsPhased after
tx_turn-IsPhased s after step p = record {
  tx = omega (arith, p.tx, step.onward, ap tx_low step.program);
  ls = omega (arith, p.ls, ap ls_low step.program, ap ls_stage step.listener);
  off = λ x. step.running ∙ p.off (sym (ap is_stopping step.program) ∙ x);
}

ls_turn-IsPhased : (s after : System) → IsLsStep s after → IsPhased s → IsPhased after
ls_turn-IsPhased s after step p = record {
  tx = omega (arith, p.tx, ap tx_low step.program, ap tx_stage step.transmitter);
  ls = omega (arith, p.ls, step.onward, ap ls_low step.program);
  off = λ x. step.running ∙ p.off (sym (ap is_stopping step.program) ∙ x);
}

turn-IsPhased : (t : Turn) (s : System) → IsPhased s → IsPhased (turn t s)
unfolding turn
turn-IsPhased (transmit is_sent) s p =
    tx_turn-IsPhased s _ (tx_turn-IsTxStep is_sent s.transmitter s refl) p
turn-IsPhased (listen received) s p =
    ls_turn-IsPhased s _ (ls_turn-IsLsStep received s.listener s refl) p
turn-IsPhased calls_start s p = program_turn-IsPhased calls_start s p
turn-IsPhased calls_stop s p = program_turn-IsPhased calls_stop s p
turn-IsPhased (sets_speed x) s p = program_turn-IsPhased (sets_speed x) s p
turn-IsPhased (sets_rpm x) s p = program_turn-IsPhased (sets_rpm x) s p

pub turns-IsPhased : (ts : List Turn) (s : System) → IsPhased s → IsPhased (turns ts s)
unfolding turns
turns-IsPhased [] s p = p
turns-IsPhased (t ∷ ts) s p = turns-IsPhased ts (turn t s) (turn-IsPhased t s p)

pub new-IsPhased : IsPhased new
new-IsPhased = record { tx = omega arith; ls = omega arith; off = λ x. refl }
