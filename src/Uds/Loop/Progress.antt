-- ===== src/Uds/Loop/Progress.antt =====
-- The loop over the ISO-TP stack answers all that waits.
use mathlib.Core.List.{append-nil}
use automotive_testing_frame.Prelude.{
  ℕ, zero, suc, ◌-◌, ◌≤◌, ◌≡◌, refl, sym, ap, ◌∙◌, List, [], ◌∷◌, ◌++◌, arith, length,
  length-append,
}
use automotive_testing_frame.Prelude.Bytes.{Bytes}
use automotive_testing_frame.Uds.{MockUdsEcu, serve}
use automotive_testing_frame.Uds.Loop.{CanStack, IsOrdered, iterate, run}
use automotive_testing_frame.Uds.Loop.Refinement.{arrived, run-serve, iterate-idle, iterate-waiting}

length_zero : {A : Type 0} (xs : List A) → length xs ≤ 0 → xs ≡ []
length_zero [] h = refl
length_zero (x ∷ xs) h = absurd (omega (arith, h))

module _ {S : Type 0} (stack : CanStack S) (ordered : IsOrdered stack) where
  turn_serves :
      (s : S) (e : MockUdsEcu) (w : List Bytes)
      → ordered.waiting (stack.process s) ≡ w
      → length (ordered.waiting (iterate stack s e).0) ≤ length w - 1
  turn_serves s e [] h = rw (iterate-idle stack ordered s e h) (rw (h) (omega arith))
  turn_serves s e (p ∷ ps) h = rw (iterate-waiting stack ordered p ps s e h) (omega arith)

  run_shortens :
      (turns : ℕ) (s : S) (e : MockUdsEcu)
      → length (arrived stack ordered turns s e) ≤ 0
      → length (ordered.waiting (run stack turns s e).0) ≤ length (ordered.waiting s) - turns
  unfolding run arrived
  run_shortens zero s e none_comes = omega arith
  run_shortens (suc turns) s e none_comes =
      let (s', e') = iterate stack s e in
      let split = length-append (ordered.arrivals s) (arrived stack ordered turns s' e') in
      let rest = run_shortens turns s' e' (omega (arith, split, none_comes)) in
      let first = turn_serves s e (ordered.waiting (stack.process s)) refl in
      let came =
        ap length (ordered.process-waiting s)
        ∙ length-append (ordered.waiting s) (ordered.arrivals s) in
      omega (arith, rest, first, came, split, none_comes)

  -- Where no further payload arrives, the loop has answered all that waited once it has made as many
  -- turns: the answers of `serve` are handed to the stack, in order, and nothing waits any more.
  pub run_answers_all :
      (turns : ℕ) (s : S) (e : MockUdsEcu)
      → length (arrived stack ordered turns s e) ≡ 0
      → length (ordered.waiting s) ≤ turns
      → let after = run stack turns s e in
        (ordered.outgoing after.0 ≡ ordered.outgoing s ++ (serve (ordered.waiting s) e).0)
        × (after.1 ≡ (serve (ordered.waiting s) e).1)
        × (ordered.waiting after.0 ≡ [])
  run_answers_all turns s e none_comes enough =
      let after = run stack turns s e in
      let done =
        length_zero (ordered.waiting after.0)
          (omega (arith, run_shortens turns s e (omega (arith, none_comes)), enough)) in
      let none = length_zero (arrived stack ordered turns s e) (omega (arith, none_comes)) in
      let (payloads, same, served) = run-serve stack ordered turns s e in
      let all =
        sym (append-nil payloads)
        ∙ ap (λ x. payloads ++ x) (sym done)
        ∙ sym same
        ∙ ap (λ x. ordered.waiting s ++ x) none
        ∙ append-nil (ordered.waiting s) in
      (
        served.outgoing ∙ ap (λ x. ordered.outgoing s ++ (serve x e).0) all,
        served.ecu ∙ ap (λ x. (serve x e).1) all,
        done,
      )
