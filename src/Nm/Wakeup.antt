-- ===== src/Nm/Wakeup.antt =====
-- Partial networking.
use automotive_testing_frame.Prelude.{
  ◌≡◌, refl, ◌∙◌, Bool, true, false, List, [], ◌∷◌, arith, if◌then◌else◌, Bool-cases, inl, inr,
}
use automotive_testing_frame.Prelude.Int.{ℤ, ◌==ℤ◌}
use automotive_testing_frame.Nm.{AutosarNmNode, Event, receive, step, run}

abbrev pub is_for : ℤ → Event → Bool
is_for cluster (receive target cbv) = target ==ℤ cluster
is_for cluster _ = true

-- The calls without the messages for other clusters.
abbrev pub relevant : ℤ → List Event → List Event
relevant cluster [] = []
relevant cluster (e ∷ es) =
    let rest = relevant cluster es in if is_for cluster e then e ∷ rest else rest

step-pn_cluster : (e : Event) (n : AutosarNmNode) → (step e n).pn_cluster ≡ n.pn_cluster
unfolding step
step-pn_cluster e n = ground arith

step_foreign :
    (cluster : ℤ) (e : Event) (n : AutosarNmNode)
    → n.pn_cluster ≡ cluster
    → is_for cluster e ≡ false
    → step e n ≡ n
unfolding step
step_foreign cluster e n c h = ground arith

run-relevant_from :
    (cluster : ℤ) (es : List Event) (n : AutosarNmNode)
    → n.pn_cluster ≡ cluster
    → run (relevant cluster es) n ≡ run es n
unfolding run
run-relevant_from cluster [] n h = refl
run-relevant_from cluster (e ∷ es) n h = elim (Bool-cases (is_for cluster e)) [
  | inl mine ↦ rw mine (run-relevant_from cluster es (step e n) (step-pn_cluster e n ∙ h))
  | inr foreign ↦
      rw (foreign, step_foreign cluster e n h foreign) (run-relevant_from cluster es n h)
]

-- Messages for other clusters make no difference: a run is the run without them.
pub run-relevant :
    (es : List Event) (n : AutosarNmNode) → run (relevant n.pn_cluster es) n ≡ run es n
run-relevant es n = run-relevant_from n.pn_cluster es n refl
