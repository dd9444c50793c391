-- ===== src/Nm/Tests.antt =====
-- Runs of the network management node at concrete inputs.
use automotive_testing_frame.Prelude.{◌≡◌, refl, true, [], ◌∷◌, arith}
use automotive_testing_frame.Prelude.Int.{pos, ◌-ℤ◌}
use automotive_testing_frame.Nm.{
  bus_sleep, AutosarNmNode, request, receive, elapse, init, step, run,
}
use automotive_testing_frame.Nm.Invariant.{IsValid, run-IsValid}
use automotive_testing_frame.Nm.Sleep.{silence, silence_sleeps}
use automotive_testing_frame.Nm.Wakeup.{relevant, run-relevant}

abbrev node : AutosarNmNode
node = init (pos 1) (pos 1)

-- Woken by its application and still waiting for 2 ms of silence.
abbrev drowsy : AutosarNmNode
drowsy =
    run (receive (pos 1) true ∷ elapse (pos 2000) ∷ elapse (pos 1000) ∷ elapse (pos 1498) ∷ []) node

abbrev online : AutosarNmNode
online = run (request ∷ elapse (pos 2000) ∷ []) node

run-IsValid_example : IsValid (run (request ∷ elapse (pos 30) ∷ []) (init (pos 4) (pos 1)))
run-IsValid_example = run-IsValid (pos 4) (pos 1) (request ∷ elapse (pos 30) ∷ [])

silence_sleeps_example : (run (silence (1 ∷ 1 ∷ [])) drowsy).state ≡ bus_sleep
unfolding run step init ◌-ℤ◌
silence_sleeps_example =
    silence_sleeps (1 ∷ 1 ∷ []) drowsy
      (run-IsValid (pos 1) (pos 1)
        (receive (pos 1) true ∷ elapse (pos 2000) ∷ elapse (pos 1000) ∷ elapse (pos 1498) ∷ []))
      (omega arith) (omega arith)

run-relevant_example :
    run (relevant node.pn_cluster (receive (pos 2) true ∷ request ∷ [])) node
    ≡ run (receive (pos 2) true ∷ request ∷ []) node
run-relevant_example = run-relevant (receive (pos 2) true ∷ request ∷ []) node

woken_by_request : (step request node).active_wakeup ≡ true
unfolding step init
woken_by_request = refl
