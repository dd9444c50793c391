-- ===== src/Uds.antt =====
-- subProj 3 UDS Diagnostic Tester/uds_ecu.py: the diagnostic ECU, its state and its services.
pub mod Answers
pub mod Loop
pub mod Security
pub mod Sessions
pub mod Threads
mod Tests
use Prim.Native.Nat.{bit_or}
use automotive_testing_frame.Prelude.{
  ℕ, ◌*◌, ◌^◌, Bool, true, false, not, Option, none, some, List, [], ◌∷◌, ◌++◌, ◌||◌, if◌then◌else◌,
  ltb, ◌==◌, length, get_or, drop,
}
use automotive_testing_frame.Prelude.Bytes.{Bytes, bytes_eq}

-- The state variables of the ECU; `vin` is not written after `__init__`.
pub record MockUdsEcu : Type 0 where
  pub current_session : ℕ
  pub seed_requested : Bool
  pub security_unlocked : Bool
  pub vin : Bytes

-- "WBA00000000000000"
abbrev pub default_vin : Bytes
default_vin =
    b'W' ∷ b'B' ∷ b'A' ∷ b'0' ∷ b'0' ∷ b'0' ∷ b'0' ∷ b'0' ∷ b'0' ∷ b'0' ∷ b'0' ∷ b'0' ∷ b'0' ∷ b'0'
    ∷ b'0' ∷ b'0' ∷ b'0' ∷ []

-- `__init__`
unfoldable pub init : MockUdsEcu
init = record {
  current_session = 1;
  seed_requested = false;
  security_unlocked = false;
  vin = default_vin;
}

-- `payload[i]`, which the code reads only after it has looked at the length.
abbrev pub at : Bytes → ℕ → ℕ
at payload i = get_or payload i 0

-- `x in [0x01, 0x02, 0x03]`
abbrev pub is_1_2_3 : ℕ → Bool
is_1_2_3 x = x == 1 || (x == 2 || x == 3)

-- `[0x7F, SID, NRC]`
abbrev pub negative : ℕ → ℕ → Option Bytes
negative sid nrc = some (0x7f ∷ sid ∷ nrc ∷ [])

abbrev pub incorrect_length : ℕ
incorrect_length = 0x13

abbrev pub sub_function_not_supported : ℕ
sub_function_not_supported = 0x12

abbrev pub out_of_range : ℕ
out_of_range = 0x31

abbrev pub sequence_error : ℕ
sequence_error = 0x24

abbrev pub access_denied : ℕ
access_denied = 0x33

abbrev pub service_not_supported : ℕ
service_not_supported = 0x11

-- 0x10
session_control : Bytes → MockUdsEcu → Option Bytes × MockUdsEcu
session_control payload e =
    if not (length payload == 2)
    then (negative 0x10 incorrect_length, e)
    else if is_1_2_3 (at payload 1)
    then (
      some (0x50 ∷ at payload 1 ∷ 0x00 ∷ 0x32 ∷ 0x01 ∷ 0xf4 ∷ []),
      record e { current_session = at payload 1 },
    )
    else (negative 0x10 sub_function_not_supported, e)

-- 0x11
ecu_reset : Bytes → MockUdsEcu → Option Bytes × MockUdsEcu
ecu_reset payload e =
    if not (length payload == 2)
    then (negative 0x11 incorrect_length, e)
    else if is_1_2_3 (at payload 1)
    then (some (0x51 ∷ at payload 1 ∷ []), e)
    else (negative 0x11 sub_function_not_supported, e)

-- 0x14
clear_diagnostics : Bytes → MockUdsEcu → Option Bytes × MockUdsEcu
clear_diagnostics payload e =
    if not (length payload == 4) then (negative 0x14 incorrect_length, e) else (some (0x54 ∷ []), e)

-- 0x22; the identifier is `(payload[1] << 8) | payload[2]`.
read_data : Bytes → MockUdsEcu → Option Bytes × MockUdsEcu
read_data payload e =
    if not (length payload == 3)
    then (negative 0x22 incorrect_length, e)
    else if bit_or (at payload 1 * 2 ^ 8) (at payload 2) == 0xf190
    then (some (0x62 ∷ 0xf1 ∷ 0x90 ∷ e.vin), e)
    else (negative 0x22 out_of_range, e)

abbrev pub expected_key : Bytes
expected_key = 0x55 ∷ 0x44 ∷ 0x33 ∷ 0x22 ∷ []

-- 0x27, sub-function 0x01
request_seed : Bytes → MockUdsEcu → Option Bytes × MockUdsEcu
request_seed payload e =
    if not (length payload == 2)
    then (negative 0x27 incorrect_length, e)
    else (some (0x67 ∷ 0x01 ∷ 0xaa ∷ 0xbb ∷ 0xcc ∷ 0xdd ∷ []), record e { seed_requested = true })

-- 0x27, sub-function 0x02
send_key : Bytes → MockUdsEcu → Option Bytes × MockUdsEcu
send_key payload e =
    if not e.seed_requested
    then (negative 0x27 sequence_error, e)
    else if not (length payload == 6)
    then (negative 0x27 incorrect_length, e)
    else if bytes_eq (drop 2 payload) expected_key
    then (some (0x67 ∷ 0x02 ∷ []), record e { security_unlocked = true; seed_requested = false })
    else (negative 0x27 access_denied, record e { seed_requested = false })

-- 0x27
security_access : Bytes → MockUdsEcu → Option Bytes × MockUdsEcu
unfolding request_seed send_key
security_access payload e =
    if ltb (length payload) 2
    then (negative 0x27 incorrect_length, e)
    else if at payload 1 == 0x01
    then request_seed payload e
    else if at payload 1 == 0x02
    then send_key payload e
    else (negative 0x27 sub_function_not_supported, e)

-- 0x3E; with 0x80 the positive response is suppressed.
tester_present : Bytes → MockUdsEcu → Option Bytes × MockUdsEcu
tester_present payload e =
    if not (length payload == 2)
    then (negative 0x3e incorrect_length, e)
    else if at payload 1 == 0x00
    then (some (0x7e ∷ 0x00 ∷ []), e)
    else if at payload 1 == 0x80
    then (none, e)
    else (negative 0x3e sub_function_not_supported, e)

-- The response, or `None`, and the ECU afterwards.
unfoldable pub process_request : Bytes → MockUdsEcu → Option Bytes × MockUdsEcu
unfolding session_control ecu_reset clear_diagnostics read_data security_access tester_present
process_request [] e = (none, e)
process_request (sid ∷ rest) e =
    if sid == 0x10
    then session_control (sid ∷ rest) e
    else if sid == 0x11
    then ecu_reset (sid ∷ rest) e
    else if sid == 0x14
    then clear_diagnostics (sid ∷ rest) e
    else if sid == 0x22
    then read_data (sid ∷ rest) e
    else if sid == 0x27
    then security_access (sid ∷ rest) e
    else if sid == 0x3e
    then tester_present (sid ∷ rest) e
    else (negative sid service_not_supported, e)

abbrev pub send : Option Bytes → List Bytes → List Bytes
send none sent = sent
send (some response) sent = response ∷ sent

-- The loop of `_run`, over the payloads that the transport delivers: the responses that it sends,
-- and the ECU afterwards.
unfoldable pub serve : List Bytes → MockUdsEcu → List Bytes × MockUdsEcu
serve [] e = ([], e)
serve (payload ∷ payloads) e =
    let (response, e') = process_request payload e in
    let (sent, e'') = serve payloads e' in (send response sent, e'')
