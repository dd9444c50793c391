-- ===== src/Nm/Invariant.antt =====
-- What holds of a network management node between two calls.
use automotive_testing_frame.Prelude.{◌≡◌, true, false, List, [], ◌∷◌, arith}
use automotive_testing_frame.Prelude.Int.{ℤ, pos, ◌<ℤ◌}
use automotive_testing_frame.Nm.{
  prepare_bus_sleep, repeat_message, normal_operation, ready_sleep, AutosarNmNode, Event, request,
  release, receive, elapse, init, step, run, tick,
}

-- The local request decides between Normal-Operation and Ready-Sleep, and the timer that the
-- state waits on has time left.
pub record IsValid (n : AutosarNmNode) : Type 0 where
  pub normal_requested : n.state ≡ normal_operation → n.network_requested_locally ≡ true
  pub ready_released : n.state ≡ ready_sleep → n.network_requested_locally ≡ false
  pub repeat_running : n.state ≡ repeat_message → pos 0 <ℤ n.timer_repeat_message
  pub normal_running : n.state ≡ normal_operation → pos 0 <ℤ n.timer_nm_timeout
  pub ready_running : n.state ≡ ready_sleep → pos 0 <ℤ n.timer_nm_timeout
  pub wait_running : n.state ≡ prepare_bus_sleep → pos 0 <ℤ n.timer_wait_bus_sleep

pub init-IsValid : (node_id pn_cluster : ℤ) → IsValid (init node_id pn_cluster)
unfolding init
init-IsValid node_id pn_cluster = ground arith

tick-IsValid : (dt_ms : ℤ) (n : AutosarNmNode) → IsValid n → IsValid (tick dt_ms n)
unfolding tick
tick-IsValid dt_ms n v = ground arith

-- Every call keeps the invariant, whatever the time step.
pub step-IsValid : (e : Event) (n : AutosarNmNode) → IsValid n → IsValid (step e n)
unfolding step
step-IsValid request n v = ground arith
step-IsValid release n v = ground arith
step-IsValid (receive target cbv) n v = ground arith
step-IsValid (elapse dt_ms) n v = tick-IsValid dt_ms n v

run_from-IsValid : (es : List Event) (n : AutosarNmNode) → IsValid n → IsValid (run es n)
unfolding run
run_from-IsValid [] n v = v
run_from-IsValid (e ∷ es) n v = run_from-IsValid es (step e n) (step-IsValid e n v)

-- After any sequence of calls on a new node the invariant holds: the node runs in Normal-Operation
-- only with a local request and in Ready-Sleep only without one, and the timer that its state
-- waits on has not run out.
pub run-IsValid :
    (node_id pn_cluster : ℤ) (es : List Event) → IsValid (run es (init node_id pn_cluster))
run-IsValid node_id pn_cluster es =
    run_from-IsValid es (init node_id pn_cluster) (init-IsValid node_id pn_cluster)
