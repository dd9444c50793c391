-- ===== src/Uds/Loop.antt =====
-- The loop of `_run` over the ISO-TP stack, which is a parameter: what the loop uses of it, and what
-- it relies on.
pub mod Refinement
pub mod Progress
use automotive_testing_frame.Prelude.{
  ℕ, zero, suc, ◌≤◌, ◌≡◌, refl, sym, ap, ◌∙◌, Bool, true, false, Option, none, some, List, [], ◌∷◌,
  ◌++◌, arith, length, if◌then◌else◌,
}
use automotive_testing_frame.Prelude.Bytes.{Bytes}
use automotive_testing_frame.Uds.{MockUdsEcu, process_request, send, serve}

-- `isotp.CanStack`, on its bus: `process` exchanges frames with the bus.
pub record CanStack (S : Type 0) : Type 0 where
  pub process : S → S
  pub available : S → Bool
  pub recv : S → Option Bytes × S
  pub send : Bytes → S → S

module _ {S : Type 0} (stack : CanStack S) where
  -- `if response: self.stack.send(response)`; every response has bytes.
  unfoldable pub respond : Option Bytes → S → S
  respond none s = s
  respond (some []) s = s
  respond (some (b ∷ response)) s = stack.send (b ∷ response) s

  -- `if payload:`
  unfoldable pub handle : Option Bytes → S → MockUdsEcu → S × MockUdsEcu
  handle none s e = (s, e)
  handle (some []) s e = (s, e)
  handle (some (b ∷ payload)) s e =
      let (response, e') = process_request (b ∷ payload) e in (respond response s, e')

  -- One turn of the loop, its head and its sleep apart.
  unfoldable pub iterate : S → MockUdsEcu → S × MockUdsEcu
  iterate s e =
      let s' = stack.process s in
      if stack.available s'
      then (let (payload, s'') = stack.recv s' in handle payload s'' e)
      else (s', e)

  unfoldable pub run : ℕ → S → MockUdsEcu → S × MockUdsEcu
  run zero s e = (s, e)
  run (suc turns) s e = let (s', e') = iterate s e in run turns s' e'

-- What the stack is documented to do: it keeps the payloads that it has put together in their order
-- until recv takes them, and sends what it is given in its order. `arrivals` are the payloads that a
-- call of process completes; none is empty.
pub record IsOrdered {S : Type 0} (stack : CanStack S) : Type 0 where
  pub waiting : S → List Bytes
  pub arrivals : S → List Bytes
  pub outgoing : S → List Bytes
  pub process-waiting : (s : S) → waiting (stack.process s) ≡ waiting s ++ arrivals s
  pub process-outgoing : (s : S) → outgoing (stack.process s) ≡ outgoing s
  pub available-none : (s : S) → waiting s ≡ [] → stack.available s ≡ false
  pub available-some :
      (s : S) (p : Bytes) (ps : List Bytes) → waiting s ≡ p ∷ ps → stack.available s ≡ true
  pub recv-payload :
      (s : S) (p : Bytes) (ps : List Bytes) → waiting s ≡ p ∷ ps → (stack.recv s).0 ≡ some p
  pub recv-waiting :
      (s : S) (p : Bytes) (ps : List Bytes) → waiting s ≡ p ∷ ps → waiting (stack.recv s).1 ≡ ps
  pub recv-outgoing : (s : S) → outgoing (stack.recv s).1 ≡ outgoing s
  pub send-waiting : (r : Bytes) (s : S) → waiting (stack.send r s) ≡ waiting s
  pub send-outgoing : (r : Bytes) (s : S) → outgoing (stack.send r s) ≡ outgoing s ++ r ∷ []
