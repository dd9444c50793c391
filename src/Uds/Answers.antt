-- ===== src/Uds/Answers.antt =====
-- The form of every answer of the diagnostic ECU.
use automotive_testing_frame.Prelude.{ℕ, ◌+◌, ◌≡◌, ◌⊎◌, Option, none, some, [], ◌∷◌, arith}
use automotive_testing_frame.Prelude.Bytes.{Bytes}
use automotive_testing_frame.Uds.{
  ecu_reset, process_request, tester_present, read_data, security_access, clear_diagnostics,
  MockUdsEcu, session_control,
}

-- The first byte of an answer, and the whole of a negative one.
abbrev pub IsPositive : ℕ → Option Bytes → Type 0
IsPositive sid none = ⊥
IsPositive sid (some []) = ⊥
IsPositive sid (some (b ∷ bs)) = b ≡ sid + 0x40

abbrev pub IsNrc : ℕ → Type 0
IsNrc nrc = (nrc ≡ 0x11) ⊎ (nrc ≡ 0x12) ⊎ (nrc ≡ 0x13) ⊎ (nrc ≡ 0x24) ⊎ (nrc ≡ 0x31) ⊎ (nrc ≡ 0x33)

abbrev pub IsNegative : ℕ → Option Bytes → Type 0
IsNegative sid (some (a ∷ b ∷ nrc ∷ [])) = (a ≡ 0x7f) × (b ≡ sid) × IsNrc nrc
IsNegative sid _ = ⊥

abbrev pub IsAnswer : ℕ → Option Bytes → Type 0
IsAnswer sid response = IsPositive sid response ⊎ IsNegative sid response

-- The one request that is not answered: Tester Present with the answer suppressed.
abbrev pub suppressed : Bytes
suppressed = 0x3e ∷ 0x80 ∷ []

IsAnswer-0x10 : (rest : Bytes) (e : MockUdsEcu) → IsAnswer 0x10 (session_control (0x10 ∷ rest) e).0
unfolding session_control
IsAnswer-0x10 rest e = ground arith

IsAnswer-0x11 : (rest : Bytes) (e : MockUdsEcu) → IsAnswer 0x11 (ecu_reset (0x11 ∷ rest) e).0
unfolding ecu_reset
IsAnswer-0x11 rest e = ground arith

IsAnswer-0x14 :
    (rest : Bytes) (e : MockUdsEcu) → IsAnswer 0x14 (clear_diagnostics (0x14 ∷ rest) e).0
unfolding clear_diagnostics
IsAnswer-0x14 rest e = ground arith

IsAnswer-0x22 : (rest : Bytes) (e : MockUdsEcu) → IsAnswer 0x22 (read_data (0x22 ∷ rest) e).0
unfolding read_data
IsAnswer-0x22 rest e = ground arith

IsAnswer-0x27 : (rest : Bytes) (e : MockUdsEcu) → IsAnswer 0x27 (security_access (0x27 ∷ rest) e).0
unfolding security_access
IsAnswer-0x27 rest e = ground arith

IsAnswer-0x3e :
    (rest : Bytes) (e : MockUdsEcu)
    → let r = (tester_present (0x3e ∷ rest) e).0 in
      IsAnswer 0x3e r ⊎ ((r ≡ none) × (rest ≡ 0x80 ∷ []))
unfolding tester_present
IsAnswer-0x3e [] e = ground arith
IsAnswer-0x3e (b ∷ []) e = ground arith
IsAnswer-0x3e (b ∷ c ∷ rest) e = ground arith

-- Every request that is not empty is answered: with a response whose first byte is the service's
-- number plus 0x40, or with 0x7F, the service's number and one of the six response codes; but for
-- the one request that asks for no answer.
pub process_request-answers :
    (sid : ℕ) (rest : Bytes) (e : MockUdsEcu)
    → let r = (process_request (sid ∷ rest) e).0 in
      IsAnswer sid r ⊎ ((r ≡ none) × (sid ∷ rest ≡ suppressed))
unfolding process_request
process_request-answers sid rest e = ground (
  arith,
  IsAnswer-0x10 rest e,
  IsAnswer-0x11 rest e,
  IsAnswer-0x14 rest e,
  IsAnswer-0x22 rest e,
  IsAnswer-0x27 rest e,
  IsAnswer-0x3e rest e,
)
