-- ===== src/Nm/Graph.antt =====
-- The transition diagram of the network management node, with the timers left out.
use automotive_testing_frame.Prelude.{arith}
use automotive_testing_frame.Nm.{
  NmState, bus_sleep, prepare_bus_sleep, repeat_message, normal_operation, ready_sleep,
  AutosarNmNode, Event, step,
}

infix 40 ◌⟶◌
pub data ◌⟶◌ : NmState → NmState → Type 0 where
  stay : {s : NmState} → s ⟶ s
  wake : bus_sleep ⟶ repeat_message
  rewake : prepare_bus_sleep ⟶ repeat_message
  announced : repeat_message ⟶ normal_operation
  unwanted : repeat_message ⟶ ready_sleep
  let_go : normal_operation ⟶ ready_sleep
  want_again : ready_sleep ⟶ normal_operation
  silent : normal_operation ⟶ prepare_bus_sleep
  silent_ready : ready_sleep ⟶ prepare_bus_sleep
  asleep : prepare_bus_sleep ⟶ bus_sleep

ruleset edges =
    (stay, wake, rewake, announced, unwanted, let_go, want_again, silent, silent_ready, asleep)

-- Every call, in every state, follows an edge of the diagram or stays: the bus is left for sleep
-- only through Prepare-Bus-Sleep, and a sleeping node wakes only into Repeat-Message.
step-⟶ : (e : Event) (n : AutosarNmNode) → n.state ⟶ (step e n).state
unfolding step
step-⟶ e n = grind (arith, edges)
