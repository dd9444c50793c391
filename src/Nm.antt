-- ===== src/Nm.antt =====
-- subProj 7 OSEK AUTOSAR NM/autosar_nm_node.py: the AUTOSAR network management node.
-- A method that mutates `self` returns the new record. Python's ints are the integers `ℤ`.
pub mod Graph
pub mod Invariant
pub mod Sleep
pub mod Wakeup
mod Tests
use automotive_testing_frame.Prelude.{ℕ, Bool, true, false, not, List, [], ◌∷◌, if◌then◌else◌}
use automotive_testing_frame.Prelude.Int.{ℤ, pos, ◌-ℤ◌, leb_ℤ, ◌==ℤ◌}

pub data NmState : Type 0 where
  bus_sleep prepare_bus_sleep repeat_message normal_operation ready_sleep : NmState

pub record AutosarNmNode : Type 0 where
  pub node_id : ℤ
  pub pn_cluster : ℤ
  pub state : NmState
  pub network_requested_locally : Bool
  pub active_wakeup : Bool
  pub timer_repeat_message : ℤ
  pub timer_nm_timeout : ℤ
  pub timer_wait_bus_sleep : ℤ

-- The configuration constants `T_…`, which no method changes.
abbrev pub t_repeat_message : ℤ
t_repeat_message = pos 2000

abbrev pub t_nm_timeout : ℤ
t_nm_timeout = pos 1000

abbrev pub t_wait_bus_sleep : ℤ
t_wait_bus_sleep = pos 1500

-- `__init__`
unfoldable pub init : ℤ → ℤ → AutosarNmNode
init node_id pn_cluster = record {
  node_id = node_id;
  pn_cluster = pn_cluster;
  state = bus_sleep;
  network_requested_locally = false;
  active_wakeup = false;
  timer_repeat_message = pos 0;
  timer_nm_timeout = pos 0;
  timer_wait_bus_sleep = pos 0;
}

unfoldable pub restart_nm_timeout : AutosarNmNode → AutosarNmNode
restart_nm_timeout n = record n { timer_nm_timeout = t_nm_timeout }

-- The entry actions of `transition_to`, run in the node whose state is already the new one.
entry_action : NmState → AutosarNmNode → AutosarNmNode
unfolding restart_nm_timeout
entry_action repeat_message n =
    restart_nm_timeout (record n { timer_repeat_message = t_repeat_message })
entry_action normal_operation n = restart_nm_timeout n
entry_action ready_sleep n = restart_nm_timeout n
entry_action prepare_bus_sleep n = record n { timer_wait_bus_sleep = t_wait_bus_sleep }
entry_action bus_sleep n = n

unfoldable pub transition_to : NmState → AutosarNmNode → AutosarNmNode
unfolding entry_action
transition_to new_state n = entry_action new_state (record n { state = new_state })

request_in : NmState → AutosarNmNode → AutosarNmNode
unfolding transition_to
request_in bus_sleep n = transition_to repeat_message (record n { active_wakeup = true })
request_in prepare_bus_sleep n = transition_to repeat_message (record n { active_wakeup = true })
request_in ready_sleep n = transition_to normal_operation n
request_in _ n = n

unfoldable pub request_network : AutosarNmNode → AutosarNmNode
unfolding request_in
request_network n = request_in n.state (record n { network_requested_locally = true })

release_in : NmState → AutosarNmNode → AutosarNmNode
unfolding transition_to
release_in normal_operation n = transition_to ready_sleep n
release_in _ n = n

unfoldable pub release_network : AutosarNmNode → AutosarNmNode
unfolding release_in
release_network n = release_in n.state (record n { network_requested_locally = false })

receive_in : NmState → AutosarNmNode → AutosarNmNode
unfolding transition_to restart_nm_timeout
receive_in bus_sleep n = transition_to repeat_message (record n { active_wakeup = false })
receive_in prepare_bus_sleep n = transition_to repeat_message (record n { active_wakeup = false })
receive_in _ n = restart_nm_timeout n

-- The second argument, `cbv_active_wakeup_bit`, is not read.
unfoldable pub on_nm_message_received : ℤ → Bool → AutosarNmNode → AutosarNmNode
unfolding receive_in
on_nm_message_received target_pn_cluster cbv_active_wakeup_bit n =
    if not (target_pn_cluster ==ℤ n.pn_cluster) then n else receive_in n.state n

-- The rest of each branch of `tick`, after the timer has been lowered.
repeat_message_elapsed : AutosarNmNode → AutosarNmNode
unfolding transition_to
repeat_message_elapsed n =
    if leb_ℤ n.timer_repeat_message (pos 0)
    then if n.network_requested_locally
      then transition_to normal_operation n
      else transition_to ready_sleep n
    else n

nm_timeout_elapsed : AutosarNmNode → AutosarNmNode
unfolding transition_to
nm_timeout_elapsed n =
    if leb_ℤ n.timer_nm_timeout (pos 0) then transition_to prepare_bus_sleep n else n

wait_bus_sleep_elapsed : AutosarNmNode → AutosarNmNode
unfolding transition_to
wait_bus_sleep_elapsed n =
    if leb_ℤ n.timer_wait_bus_sleep (pos 0) then transition_to bus_sleep n else n

tick_in : NmState → ℤ → AutosarNmNode → AutosarNmNode
unfolding repeat_message_elapsed nm_timeout_elapsed wait_bus_sleep_elapsed
tick_in repeat_message dt_ms n =
    repeat_message_elapsed (record n { timer_repeat_message = n.timer_repeat_message -ℤ dt_ms })
tick_in normal_operation dt_ms n =
    nm_timeout_elapsed (record n { timer_nm_timeout = n.timer_nm_timeout -ℤ dt_ms })
tick_in ready_sleep dt_ms n =
    nm_timeout_elapsed (record n { timer_nm_timeout = n.timer_nm_timeout -ℤ dt_ms })
tick_in prepare_bus_sleep dt_ms n =
    wait_bus_sleep_elapsed (record n { timer_wait_bus_sleep = n.timer_wait_bus_sleep -ℤ dt_ms })
tick_in bus_sleep dt_ms n = n

unfoldable pub tick : ℤ → AutosarNmNode → AutosarNmNode
unfolding tick_in
tick dt_ms n = tick_in n.state dt_ms n

-- The calls that the application, the bus and the scheduler make.
pub data Event : Type 0 where
  request release : Event
  receive : ℤ → Bool → Event
  elapse : ℤ → Event

unfoldable pub step : Event → AutosarNmNode → AutosarNmNode
unfolding request_network release_network on_nm_message_received tick
step request n = request_network n
step release n = release_network n
step (receive target cbv) n = on_nm_message_received target cbv n
step (elapse dt_ms) n = tick dt_ms n

unfoldable pub run : List Event → AutosarNmNode → AutosarNmNode
run [] n = n
run (e ∷ es) n = run es (step e n)
