-- ===== src/Nm/Sleep.antt =====
-- How long a silent bus keeps a network management node awake, and what keeps it awake.
use automotive_testing_frame.Prelude.{
  ℕ, ◌+◌, ◌≤◌, ◌<◌, ◌≡◌, ◌≢◌, refl, true, List, [], ◌∷◌, map, arith, All, length, sum, ◌⊎◌,
}
use automotive_testing_frame.Prelude.Int.{ℤ, pos, pos_part, -ℤ_parts}
use automotive_testing_frame.Nm.{
  NmState, bus_sleep, prepare_bus_sleep, repeat_message, normal_operation, ready_sleep,
  AutosarNmNode, Event, receive, elapse, step, run, t_nm_timeout, tick,
}
use automotive_testing_frame.Nm.Invariant.{IsValid, step-IsValid}

-- The milliseconds of silence that a node still waits before it sleeps.
abbrev remaining_in : NmState → AutosarNmNode → ℕ
remaining_in bus_sleep n = 0
remaining_in prepare_bus_sleep n = pos_part n.timer_wait_bus_sleep
remaining_in repeat_message n = pos_part n.timer_repeat_message + 2500
remaining_in normal_operation n = pos_part n.timer_nm_timeout + 1500
remaining_in ready_sleep n = pos_part n.timer_nm_timeout + 1500

abbrev pub remaining : AutosarNmNode → ℕ
remaining n = remaining_in n.state n

-- Silence: the scheduler's ticks, and no other call.
abbrev pub silence : List ℕ → List Event
silence = map (λ d. elapse (pos d))

tick-remaining-lt :
    (d : ℕ) (n : AutosarNmNode)
    → IsValid n
    → 0 < d
    → (remaining n ≡ 0) ⊎ (remaining (tick (pos d) n) < remaining n)
unfolding tick
tick-remaining-lt d n v h = ground (
  arith,
  -ℤ_parts n.timer_repeat_message (pos d),
  -ℤ_parts n.timer_nm_timeout (pos d),
  -ℤ_parts n.timer_wait_bus_sleep (pos d),
)

tick-remaining-ge :
    (d : ℕ) (n : AutosarNmNode) → IsValid n → remaining n ≤ remaining (tick (pos d) n) + d
unfolding tick
tick-remaining-ge d n v = ground (
  arith,
  -ℤ_parts n.timer_repeat_message (pos d),
  -ℤ_parts n.timer_nm_timeout (pos d),
  -ℤ_parts n.timer_wait_bus_sleep (pos d),
)

tick-asleep :
    (d : ℕ) (n : AutosarNmNode) → remaining n ≡ 0 → IsValid n → remaining (tick (pos d) n) ≡ 0
unfolding tick
tick-asleep d n e v = ground arith

remaining-zero : (n : AutosarNmNode) → IsValid n → remaining n ≡ 0 → n.state ≡ bus_sleep
remaining-zero n v e = ground arith

-- On a silent bus a node sleeps after as many ticks as it has milliseconds left to wait, if each
-- tick lasts at least one millisecond.
pub silence_sleeps :
    (ds : List ℕ) (n : AutosarNmNode)
    → IsValid n
    → All (λ d. 0 < d) ds
    → remaining n ≤ length ds
    → (run (silence ds) n).state ≡ bus_sleep
unfolding run
silence_sleeps [] n v h r = remaining-zero n v (omega arith)
silence_sleeps (d ∷ ds) n v h r =
    silence_sleeps ds (step (elapse (pos d)) n) (step-IsValid (elapse (pos d)) n v) h.1 shorter
  where
    shorter : remaining (step (elapse (pos d)) n) ≤ length ds
    shorter = unfold step in grind (arith, tick-remaining-lt d n v h.0, tick-asleep d n)

-- A node does not sleep before its waiting time is over, however the time is cut into ticks.
awake_until :
    (ds : List ℕ) (n : AutosarNmNode)
    → IsValid n
    → sum ds < remaining n
    → (run (silence ds) n).state ≢ bus_sleep
unfolding run
awake_until [] n v h = ground arith
awake_until (d ∷ ds) n v h =
    awake_until ds (step (elapse (pos d)) n) (step-IsValid (elapse (pos d)) n v) later
  where
    later : sum ds < remaining (step (elapse (pos d)) n)
    later = unfold step in omega (arith, tick-remaining-ge d n v)

-- A message of the node's own cluster after each wait.
abbrev pub chatter : ℤ → List ℕ → List Event
chatter cluster [] = []
chatter cluster (d ∷ ds) = elapse (pos d) ∷ receive cluster true ∷ chatter cluster ds

abbrev pub IsOnline : NmState → Type 0
IsOnline s = (s ≡ normal_operation) ⊎ (s ≡ ready_sleep)

-- One wait shorter than the timeout, and a message.
chatter_round :
    (cluster : ℤ) (s : NmState) (d : ℕ) (n : AutosarNmNode)
    → n.pn_cluster ≡ cluster
    → n.state ≡ s
    → IsOnline s
    → n.timer_nm_timeout ≡ t_nm_timeout
    → d < 1000
    → let n' = step (receive cluster true) (step (elapse (pos d)) n) in
      (n'.pn_cluster ≡ cluster) × (n'.state ≡ s) × (n'.timer_nm_timeout ≡ t_nm_timeout)
unfolding step
chatter_round cluster s d n c e o t h = ground (arith, -ℤ_parts n.timer_nm_timeout (pos d))

chatter_from :
    (cluster : ℤ) (s : NmState) (ds : List ℕ) (n : AutosarNmNode)
    → n.pn_cluster ≡ cluster
    → n.state ≡ s
    → IsOnline s
    → n.timer_nm_timeout ≡ t_nm_timeout
    → All (λ d. d < 1000) ds
    → (run (chatter cluster ds) n).state ≡ s
unfolding run
chatter_from cluster s [] n c e o t h = e
chatter_from cluster s (d ∷ ds) n c e o t h =
    let (c', e', t') = chatter_round cluster s d n c e o t h.0 in
    chatter_from cluster s ds (step (receive cluster true) (step (elapse (pos d)) n)) c' e' o t' h.1

-- A node in Normal-Operation or Ready-Sleep whose timeout has just been restarted stays in its
-- state for as long as its cluster talks within less than a timeout each time.
chatter_keeps_awake :
    (ds : List ℕ) (n : AutosarNmNode)
    → IsOnline n.state
    → n.timer_nm_timeout ≡ t_nm_timeout
    → All (λ d. d < 1000) ds
    → (run (chatter n.pn_cluster ds) n).state ≡ n.state
chatter_keeps_awake ds n o t h = chatter_from n.pn_cluster n.state ds n refl refl o t h
