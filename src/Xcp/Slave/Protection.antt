-- ===== src/Xcp/Slave/Protection.antt =====
-- Who may write what in the slave's memory.
use automotive_testing_frame.Prelude.{
  refl, ◌∙◌, [], ◌∷◌, true, false, inl, inr, Result-cases, take, drop, All, Bool-cases, ◌⊎◌, List,
  ℕ, ◌≡◌, arith, Result, ok,
}
use automotive_testing_frame.Prelude.Dict.{lookup-insert}
use automotive_testing_frame.Xcp.Frames.{XcpFault, Message, byte_at}
use automotive_testing_frame.Xcp.Slave.{
  lookup, expected_key, dummy_seed, process_all, word_at, is_protected, XcpSlaveNode, process_cro,
}

abbrev pub pid_of : Message → Result XcpFault ℕ
pid_of m = byte_at m.data_bytes 0

-- The message is an UNLOCK command with one of the two keys that a node may expect: that for the
-- seed which it gives out, or that for the seed 0, with which it starts.
abbrev pub IsKey : Message → Type 0
IsKey m =
    (pid_of m ≡ ok 0xf7)
    × ((word_at m.data_bytes 2 ≡ ok (expected_key dummy_seed))
        ⊎ (word_at m.data_bytes 2 ≡ ok (expected_key 0)))

abbrev pub IsSeed : ℕ → Type 0
IsSeed seed = (seed ≡ 0) ⊎ (seed ≡ dummy_seed)

-- A node that has not been unlocked.
record IsLocked (n : XcpSlaveNode) : Type 0 where
  locked : n.is_unlocked ≡ false
  seeded : IsSeed n.current_seed

step-IsSeed :
    (m : Message) (n : XcpSlaveNode)
    → IsSeed n.current_seed
    → IsSeed (process_cro m n).1.current_seed
unfolding process_cro
step-IsSeed m n h = ground arith

step-locked :
    (m : Message) (n : XcpSlaveNode) → IsLocked n → (process_cro m n).1.is_unlocked ≡ true → IsKey m
unfolding process_cro
step-locked m n h u = ground arith

step-IsLocked :
    (m : Message) (n : XcpSlaveNode) → IsLocked n → ¬ (IsKey m) → IsLocked (process_cro m n).1
step-IsLocked m n h no_key = record {
  locked = elim (Bool-cases (process_cro m n).1.is_unlocked) [
    | inl open_now ↦ absurd (no_key (step-locked m n h open_now))
    | inr still ↦ still
  ];
  seeded = step-IsSeed m n h.seeded;
}

step-protected :
    (a : ℕ) (m : Message) (n : XcpSlaveNode)
    → is_protected a ≡ true
    → n.is_unlocked ≡ false
    → lookup a (process_cro m n).1.memory ≡ lookup a n.memory
unfolding process_cro
step-protected a m n p locked = elim (Result-cases (byte_at m.data_bytes 1)) [
  | inl (k, e) ↦ ground (arith, lookup-insert n.mta a (take k (drop 2 m.data_bytes)) n.memory)
  | inr (x, e) ↦ ground arith
]

kept_protected :
    (a : ℕ) (ms : List Message) (n : XcpSlaveNode)
    → is_protected a ≡ true
    → IsLocked n
    → All (λ m. ¬ (IsKey m)) ms
    → lookup a (process_all ms n).memory ≡ lookup a n.memory
unfolding process_all
kept_protected a [] n p h keyless = refl
kept_protected a (m ∷ ms) n p h keyless =
    kept_protected a ms (process_cro m n).1 p (step-IsLocked m n h keyless.0) keyless.1
    ∙ step-protected a m n p h.locked

-- The braking gain at 0x1004 and the speed limit of the engine at 0x1008 stay as they are through
-- every sequence of messages to a locked node that holds no key.
pub protected_without_key :
    (a : ℕ) (ms : List Message) (n : XcpSlaveNode)
    → is_protected a ≡ true
    → n.is_unlocked ≡ false
    → IsSeed n.current_seed
    → All (λ m. ¬ (IsKey m)) ms
    → lookup a (process_all ms n).memory ≡ lookup a n.memory
protected_without_key a ms n p l seed keyless =
    kept_protected a ms n p (record { locked = l; seeded = seed }) keyless
