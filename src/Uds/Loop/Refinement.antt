-- ===== src/Uds/Loop/Refinement.antt =====
-- The loop over the ISO-TP stack against the list of the payloads that it serves.
use automotive_testing_frame.Prelude.{
  ℕ, zero, suc, ◌≡◌, refl, sym, ap, ◌∙◌, inl, inr, ◌⊎◌, Option, none, some, List, [], ◌∷◌, ◌++◌,
  arith,
}
use automotive_testing_frame.Prelude.Bytes.{Bytes}
use automotive_testing_frame.Uds.{MockUdsEcu, process_request, send, serve}
use mathlib.Core.List.{append-nil, append_assoc}
use automotive_testing_frame.Uds.Answers.{IsAnswer, process_request-answers}
use automotive_testing_frame.Uds.Loop.{CanStack, IsOrdered, respond, handle, iterate, run}

send-append : (r : Option Bytes) (sent : List Bytes) → send r sent ≡ send r [] ++ sent
send-append none sent = refl
send-append (some b) sent = refl

-- An answer is never an empty list of bytes.
not_empty :
    (sid : ℕ) (r : Option Bytes) (P : Type 0) → IsAnswer sid r ⊎ ((r ≡ none) × P) → r ≡ some [] → ⊥
not_empty sid none P a h = cc
not_empty sid (some (b ∷ bs)) P a h = ground (arith, h)
not_empty sid (some []) P (inl (inl x)) h = x
not_empty sid (some []) P (inl (inr x)) h = x
not_empty sid (some []) P (inr x) h = ground (arith, x.0)

answer_not_empty : (p : Bytes) (e : MockUdsEcu) → (process_request p e).0 ≡ some [] → ⊥
unfolding process_request
answer_not_empty [] e h = ground (arith, h)
answer_not_empty (sid ∷ rest) e h = not_empty sid _ _ (process_request-answers sid rest e) h

module _ {S : Type 0} (stack : CanStack S) (ordered : IsOrdered stack) where
  respond-outgoing :
      (r : Option Bytes) (s : S)
      → (r ≡ some [] → ⊥)
      → ordered.outgoing (respond stack r s) ≡ ordered.outgoing s ++ send r []
  unfolding respond
  respond-outgoing none s h = sym (append-nil (ordered.outgoing s))
  respond-outgoing (some []) s h = absurd (h refl)
  respond-outgoing (some (b ∷ r)) s h = ordered.send-outgoing (b ∷ r) s

  respond-waiting :
      (r : Option Bytes) (s : S) → ordered.waiting (respond stack r s) ≡ ordered.waiting s
  unfolding respond
  respond-waiting none s = refl
  respond-waiting (some []) s = refl
  respond-waiting (some (b ∷ r)) s = ordered.send-waiting (b ∷ r) s

  handle-outgoing :
      (p : Bytes) (s : S) (e : MockUdsEcu)
      → ordered.outgoing (handle stack (some p) s e).0
        ≡ ordered.outgoing s ++ send (process_request p e).0 []
  unfolding handle process_request
  handle-outgoing [] s e = sym (append-nil (ordered.outgoing s))
  handle-outgoing (b ∷ p) s e =
      respond-outgoing (process_request (b ∷ p) e).0 s (answer_not_empty (b ∷ p) e)

  handle-waiting :
      (p : Bytes) (s : S) (e : MockUdsEcu)
      → ordered.waiting (handle stack (some p) s e).0 ≡ ordered.waiting s
  unfolding handle
  handle-waiting [] s e = refl
  handle-waiting (b ∷ p) s e = respond-waiting (process_request (b ∷ p) e).0 s

  handle-ecu :
      (p : Bytes) (s : S) (e : MockUdsEcu) → (handle stack (some p) s e).1 ≡ (process_request p e).1
  unfolding handle process_request
  handle-ecu [] s e = refl
  handle-ecu (b ∷ p) s e = refl

  pub iterate-idle :
      (s : S) (e : MockUdsEcu)
      → ordered.waiting (stack.process s) ≡ []
      → iterate stack s e ≡ (stack.process s, e)
  unfolding iterate
  iterate-idle s e h = rw (ordered.available-none (stack.process s) h) refl

  iterate-busy :
      (p : Bytes) (ps : List Bytes) (s : S) (e : MockUdsEcu)
      → ordered.waiting (stack.process s) ≡ p ∷ ps
      → iterate stack s e ≡ handle stack (some p) (stack.recv (stack.process s)).1 e
  unfolding iterate
  iterate-busy p ps s e h =
      rw (ordered.available-some (stack.process s) p ps h)
        (rw (ordered.recv-payload (stack.process s) p ps h) refl)

  -- What has been served, from one state of the stack and the ECU to another.
  pub record IsServed (payloads : List Bytes) (s : S) (e : MockUdsEcu) (after : S × MockUdsEcu)
      : Type 0 where
    pub outgoing : ordered.outgoing after.0 ≡ ordered.outgoing s ++ (serve payloads e).0
    pub ecu : after.1 ≡ (serve payloads e).1

  iterate-ecu :
      (p : Bytes) (ps : List Bytes) (s : S) (e : MockUdsEcu)
      → ordered.waiting (stack.process s) ≡ p ∷ ps
      → (iterate stack s e).1 ≡ (process_request p e).1
  iterate-ecu p ps s e h =
      ap (λ x. x.1) (iterate-busy p ps s e h) ∙ handle-ecu p (stack.recv (stack.process s)).1 e

  iterate-outgoing :
      (p : Bytes) (ps : List Bytes) (s : S) (e : MockUdsEcu)
      → ordered.waiting (stack.process s) ≡ p ∷ ps
      → ordered.outgoing (iterate stack s e).0
        ≡ ordered.outgoing s ++ send (process_request p e).0 []
  iterate-outgoing p ps s e h =
      ap (λ x. ordered.outgoing x.0) (iterate-busy p ps s e h)
      ∙ handle-outgoing p (stack.recv (stack.process s)).1 e
      ∙ ap (λ x. x ++ send (process_request p e).0 [])
          (ordered.recv-outgoing (stack.process s) ∙ ordered.process-outgoing s)

  pub iterate-waiting :
      (p : Bytes) (ps : List Bytes) (s : S) (e : MockUdsEcu)
      → ordered.waiting (stack.process s) ≡ p ∷ ps
      → ordered.waiting (iterate stack s e).0 ≡ ps
  iterate-waiting p ps s e h =
      ap (λ x. ordered.waiting x.0) (iterate-busy p ps s e h)
      ∙ handle-waiting p (stack.recv (stack.process s)).1 e
      ∙ ordered.recv-waiting (stack.process s) p ps h

  answered_one :
      (p : Bytes) (ps payloads : List Bytes) (s : S) (e : MockUdsEcu) (after : S × MockUdsEcu)
      → ordered.waiting (stack.process s) ≡ p ∷ ps
      → IsServed payloads (iterate stack s e).0 (iterate stack s e).1 after
      → IsServed (p ∷ payloads) s e after
  unfolding serve
  answered_one p ps payloads s e after h rest =
      let r = (process_request p e).0 in
      let next = iterate-ecu p ps s e h in
      record {
        outgoing =
            rest.outgoing
            ∙ ap (λ x. x ++ (serve payloads (iterate stack s e).1).0) (iterate-outgoing p ps s e h)
            ∙ ap (λ e'. (ordered.outgoing s ++ send r []) ++ (serve payloads e').0) next
            ∙ append_assoc (ordered.outgoing s) (send r [])
                (serve payloads (process_request p e).1).0
            ∙ ap (λ x. ordered.outgoing s ++ x)
                (sym (send-append r (serve payloads (process_request p e).1).0));
        ecu = rest.ecu ∙ ap (λ e'. (serve payloads e').1) next;
      }

  answered_none :
      (payloads : List Bytes) (s : S) (e : MockUdsEcu) (after : S × MockUdsEcu)
      → ordered.waiting (stack.process s) ≡ []
      → IsServed payloads (iterate stack s e).0 (iterate stack s e).1 after
      → IsServed payloads s e after
  answered_none payloads s e after h rest =
      let next = ap (λ x. x.1) (iterate-idle s e h) in
      record {
        outgoing =
            rest.outgoing
            ∙ ap (λ x. x ++ (serve payloads (iterate stack s e).1).0)
                (ap (λ x. ordered.outgoing x.0) (iterate-idle s e h) ∙ ordered.process-outgoing s)
            ∙ ap (λ e'. ordered.outgoing s ++ (serve payloads e').0) next;
        ecu = rest.ecu ∙ ap (λ e'. (serve payloads e').1) next;
      }

  -- The payloads that the stack completes in some turns of the loop.
  unfoldable pub arrived : ℕ → S → MockUdsEcu → List Bytes
  arrived zero s e = []
  arrived (suc turns) s e =
      let (s', e') = iterate stack s e in ordered.arrivals s ++ arrived turns s' e'

  -- All that was there and has arrived is served, in its order, or still there.
  abbrev pub IsAccounted : ℕ → S → MockUdsEcu → S × MockUdsEcu → Type 0
  IsAccounted turns s e after =
      (payloads : List Bytes) × (ordered.waiting s ++ arrived turns s e
        ≡ payloads ++ ordered.waiting after.0)
      × IsServed payloads s e after

  queued :
      (s : S) (w xs : List Bytes)
      → ordered.waiting (stack.process s) ≡ w
      → ordered.waiting s ++ (ordered.arrivals s ++ xs) ≡ w ++ xs
  queued s w xs h =
      sym (append_assoc (ordered.waiting s) (ordered.arrivals s) xs)
      ∙ ap (λ x. x ++ xs) (sym (ordered.process-waiting s) ∙ h)

  turn-IsAccounted :
      (turns : ℕ) (s : S) (e : MockUdsEcu) (w : List Bytes) (after : S × MockUdsEcu)
      → ordered.waiting (stack.process s) ≡ w
      → IsAccounted turns (iterate stack s e).0 (iterate stack s e).1 after
      → IsAccounted (suc turns) s e after
  unfolding arrived
  turn-IsAccounted turns s e [] after h (payloads, same, served) = (
    payloads,
    queued s [] (arrived turns (iterate stack s e).0 (iterate stack s e).1) h
        ∙ sym (
            ap (λ x. x ++ arrived turns (iterate stack s e).0 (iterate stack s e).1)
              (ap (λ x. ordered.waiting x.0) (iterate-idle s e h) ∙ h))
        ∙ same,
    answered_none payloads s e after h served,
  )
  turn-IsAccounted turns s e (p ∷ ps) after h (payloads, same, served) = (
    p ∷ payloads,
    queued s (p ∷ ps) (arrived turns (iterate stack s e).0 (iterate stack s e).1) h
        ∙ ap (λ x. p ∷ x)
            (sym (
                ap (λ x. x ++ arrived turns (iterate stack s e).0 (iterate stack s e).1)
                  (iterate-waiting p ps s e h))
              ∙ same),
    answered_one p ps payloads s e after h served,
  )

  -- Over a stack that keeps the order of what it receives and sends, the loop answers the payloads
  -- one after the other as `serve` does: after any number of turns, of all that was there and has
  -- arrived since a first part is served, whose answers are handed to the stack in order, and the
  -- rest is still there.
  pub run-serve :
      (turns : ℕ) (s : S) (e : MockUdsEcu)
      → let after = run stack turns s e in
        (payloads : List Bytes) × (ordered.waiting s ++ arrived turns s e
          ≡ payloads ++ ordered.waiting after.0)
        × IsServed payloads s e after
  unfolding run arrived serve
  run-serve zero s e = (
    [],
    append-nil (ordered.waiting s),
    record { outgoing = sym (append-nil (ordered.outgoing s)); ecu = refl },
  )
  run-serve (suc turns) s e =
      turn-IsAccounted turns s e (ordered.waiting (stack.process s)) _ refl
        (run-serve turns (iterate stack s e).0 (iterate stack s e).1)
