-- ===== src/Uds/Tests.antt =====
-- Requests to the diagnostic ECU at concrete inputs.
use automotive_testing_frame.Uds.Loop.{CanStack, IsOrdered, run, iterate, handle, respond}
use automotive_testing_frame.Uds.Loop.Progress.{run_answers_all}
use automotive_testing_frame.Uds.Loop.Refinement.{arrived, IsServed, run-serve}
use automotive_testing_frame.Uds.Threads.{
  Turn, calls_start, runs, calls_stop, joins, turns, new, turn, program_turn, run_turn,
}
use automotive_testing_frame.Prelude.{
  length, arith, ◌≡◌, ◌⊎◌, ◌++◌, Bool, Option, some, false, refl, true, none, List, [], ◌∷◌,
}
use automotive_testing_frame.Prelude.Bytes.{Bytes, bytes_eq}
use automotive_testing_frame.Uds.{MockUdsEcu, init, process_request, serve, expected_key}
use automotive_testing_frame.Uds.Answers.{IsAnswer, suppressed, process_request-answers}
use automotive_testing_frame.Uds.Security.{
  seed_request, key_request, HasSeedThenKey, unlock_needs_seed_and_key,
}

abbrev unlocking : List Bytes
unlocking = seed_request ∷ (0x3e ∷ 0x00 ∷ []) ∷ key_request expected_key ∷ []

unlocking_works : (serve unlocking init).1.security_unlocked ≡ true
unfolding serve process_request init bytes_eq
unlocking_works = refl

process_request-answers_example :
    let r = (process_request (0x99 ∷ 1 ∷ []) init).0 in
    IsAnswer 0x99 r ⊎ ((r ≡ none) × (0x99 ∷ 1 ∷ [] ≡ suppressed))
process_request-answers_example = process_request-answers 0x99 (1 ∷ []) init

unlock_needs_seed_and_key_example : HasSeedThenKey unlocking
unlock_needs_seed_and_key_example = unlock_needs_seed_and_key unlocking unlocking_works

abbrev seeded : MockUdsEcu
seeded = record init { seed_requested = true }

-- A stack with what the bus will bring at each call of process, what waits, and what was sent.
record Queues : Type 0 where
  coming : List (List Bytes)
  waiting : List Bytes
  sent : List Bytes

abbrev next : List (List Bytes) → List Bytes
next [] = []
next (ps ∷ pss) = ps

abbrev later : List (List Bytes) → List (List Bytes)
later [] = []
later (ps ∷ pss) = pss

abbrev is_waiting : List Bytes → Bool
is_waiting [] = false
is_waiting (p ∷ ps) = true

abbrev take_first : List Bytes → Queues → Option Bytes × Queues
take_first [] q = (none, q)
take_first (p ∷ ps) q = (some p, record q { waiting = ps })

abbrev queue_stack : CanStack Queues
queue_stack = record {
  process = λ q. record q { coming = later q.coming; waiting = q.waiting ++ next q.coming };
  available = λ q. is_waiting q.waiting;
  recv = λ q. take_first q.waiting q;
  send = λ r q. record q { sent = q.sent ++ r ∷ [] };
}

take_first-sent : (ps : List Bytes) (q : Queues) → (take_first ps q).1.sent ≡ q.sent
take_first-sent [] q = refl
take_first-sent (p ∷ ps) q = refl

abbrev queue_ordered : IsOrdered queue_stack
queue_ordered = record {
  waiting = λ q. q.waiting;
  arrivals = λ q. next q.coming;
  outgoing = λ q. q.sent;
  process-waiting = λ q. refl;
  process-outgoing = λ q. refl;
  available-none = λ q h. rw (h) refl;
  available-some = λ q p ps h. rw (h) refl;
  recv-payload = λ q p ps h. rw (h) refl;
  recv-waiting = λ q p ps h. rw (h) refl;
  recv-outgoing = λ q. take_first-sent q.waiting q;
  send-waiting = λ r q. refl;
  send-outgoing = λ r q. refl;
}

abbrev busy : Queues
busy = record {
  coming = (seed_request ∷ []) ∷ [] ∷ [];
  waiting = (0x3e ∷ 0x80 ∷ []) ∷ [];
  sent = [];
}

run-serve_example :
    let after = run queue_stack 2 busy init in
    (payloads : List Bytes) × (busy.waiting ++ arrived queue_stack queue_ordered 2 busy init
      ≡ payloads ++ after.0.waiting)
    × IsServed queue_stack queue_ordered payloads busy init after
run-serve_example = run-serve queue_stack queue_ordered 2 busy init

abbrev full : Queues
full = record { coming = []; waiting = unlocking; sent = [] }

none_arrives : length (arrived queue_stack queue_ordered 3 full init) ≡ 0
unfolding arrived iterate handle respond process_request init bytes_eq
none_arrives = refl

run_answers_all_example :
    let after = run queue_stack 3 full init in
    (after.0.sent ≡ full.sent ++ (serve unlocking init).0)
    × (after.1 ≡ (serve unlocking init).1)
    × (after.0.waiting ≡ [])
run_answers_all_example =
    run_answers_all queue_stack queue_ordered 3 full init none_arrives (omega arith)

answers_sent :
    (run queue_stack 3 full init).0.sent
    ≡ (0x67 ∷ 0x01 ∷ 0xaa ∷ 0xbb ∷ 0xcc ∷ 0xdd ∷ []) ∷ (0x7e ∷ 0x00 ∷ []) ∷ (0x67 ∷ 0x02 ∷ []) ∷ []
unfolding run iterate handle respond process_request init bytes_eq
answers_sent = refl

-- stop() while a turn of the loop is under way, and its join gives up.
abbrev stopping : List Turn
stopping = calls_start ∷ calls_start ∷ runs true ∷ calls_stop ∷ joins true ∷ []

late_turn :
    (turns queue_stack
      (λ q. q)
      (stopping ++ runs true ∷ runs true ∷ runs true ∷ [])
      (new queue_stack (λ q. q) full)).ecu.seed_requested
    ≡ true
unfolding turns turn program_turn run_turn iterate handle respond process_request
late_turn = refl
