-- ===== src/CanEcu/Sleep.antt =====
-- When the ECU is silent.
use automotive_testing_frame.Prelude.{
  get_elem?, ℕ, ◌≡◌, refl, inl, inr, none, some, List, [], ◌∷◌, ◌++◌, arith, All, Result-cases,
}
use automotive_testing_frame.CanEcu.{
  index_error, IndexError, err, ok, MockEcu, sleep, Message, nm_listen, nm_listener, broadcast,
}

abbrev pub IsEmptyCommand : Message → Type 0
IsEmptyCommand m = (m.arbitration_id ≡ 0x600) × (m.data_bytes ≡ [])

abbrev pub IsCommand : ℕ → Message → Type 0
IsCommand code m = (m.arbitration_id ≡ 0x600) × (get_elem? m.data_bytes 0 ≡ some code)

listen-err : (m : Message) (e : MockEcu) (x : IndexError) → nm_listen m e ≡ err x → IsEmptyCommand m
unfolding nm_listen
listen-err m e x h = ground arith

listen-empty : (m : Message) (e : MockEcu) → IsEmptyCommand m → nm_listen m e ≡ err index_error
unfolding nm_listen
listen-empty m e empty = rw (empty.0, empty.1) refl

pub listen-asleep :
    (m : Message) (e e' : MockEcu)
    → e.nm_state ≡ sleep
    → (IsCommand 0x01 m → ⊥)
    → nm_listen m e ≡ ok e'
    → e'.nm_state ≡ sleep
unfolding nm_listen
listen-asleep m e e' h quiet heard = ground arith

listen-sleep :
    (m : Message) (e : MockEcu)
    → IsCommand 0x00 m
    → nm_listen m e ≡ ok (record e { nm_state = sleep })
unfolding nm_listen
listen-sleep m e command = ground arith

asleep :
    (after : List Message) (e : MockEcu)
    → e.nm_state ≡ sleep
    → All (λ m. IsCommand 0x01 m → ⊥) after
    → (nm_listener after e).nm_state ≡ sleep
unfolding nm_listener
asleep [] e h quiet = h
asleep (m ∷ after) e h quiet = elim (Result-cases (nm_listen m e)) [
  | inl (e', heard) ↦
      rw (nm_listener, heard) (asleep after e' (listen-asleep m e e' h quiet.0 heard) quiet.1)
  | inr (x, raised) ↦ rw (nm_listener, raised) h
]

-- A Go-To-Sleep command, met by a listener that has seen no empty command before, silences the ECU
-- as long as no wake command arrives, whatever else does.
sleep_until_wake :
    (before after : List Message) (m : Message) (e : MockEcu)
    → All (λ b. IsEmptyCommand b → ⊥) before
    → IsCommand 0x00 m
    → All (λ a. IsCommand 0x01 a → ⊥) after
    → broadcast (nm_listener (before ++ m ∷ after) e) ≡ none
unfolding nm_listener broadcast
sleep_until_wake [] after m e full command quiet =
    let e' = record e { nm_state = sleep } in
    rw (nm_listener, listen-sleep m e command) (rw (broadcast, asleep after e' refl quiet) refl)
sleep_until_wake (b ∷ before) after m e full command quiet = elim (Result-cases (nm_listen b e)) [
  | inl (e', heard) ↦
      rw (nm_listener, heard) (sleep_until_wake before after m e' full.1 command quiet)
  | inr (x, raised) ↦ absurd (full.0 (listen-err b e x raised))
]

-- An empty message with the identifier of the commands ends the listener: whatever arrives after it
-- changes nothing.
empty_command_deafens :
    (before after : List Message) (m : Message) (e : MockEcu)
    → IsEmptyCommand m
    → nm_listener (before ++ m ∷ after) e ≡ nm_listener before e
unfolding nm_listener
empty_command_deafens [] after m e empty = rw (nm_listener, listen-empty m e empty) refl
empty_command_deafens (b ∷ before) after m e empty = elim (Result-cases (nm_listen b e)) [
  | inl (e', heard) ↦ rw (nm_listener, heard) (empty_command_deafens before after m e' empty)
  | inr (x, raised) ↦ rw (nm_listener, raised) refl
]
