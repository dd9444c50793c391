-- ===== src/CanEcu.antt =====
-- subProj 1 Virtual CAN Bus Framework/mock_ecu.py: what the ECU sends and how it sleeps.
use automotive_testing_frame.Prelude.{
  ℕ, zero, suc, ◌+◌, ◌-◌, ◌*◌, ◌/◌, ◌%◌, ◌^◌, ◌≤◌, ◌<◌, ◌≡◌, refl, sym, ap, ◌∙◌, ◌≢◌, ◌↔◌, ◌⊎◌, inl,
  inr, Bool, true, false, not, ◌&&◌, ◌||◌, Option, none, some, List, [], ◌∷◌, ◌++◌, map, arith, ltb,
  leb, ◌==◌, if◌then◌else◌, length, take, drop, All, Result, ok, err, Bool-cases, Option-cases,
  get_or, length-append,
}
use automotive_testing_frame.Prelude.Bytes.{Bytes}
use automotive_testing_frame.Prelude.Int.{ℤ, pos, negsuc, ◌≤ℤ◌, ◌<ℤ◌}
use Prim.Native.Nat.{bit_and, bit_xor, min}
pub mod Frames
pub mod Sleep
pub mod Beat
pub mod Ramp
pub mod Threads
mod Tests

-- The two strings that nm_state takes.
pub data NmState : Type 0 where
  normal sleep : NmState

-- The signals are numbers that a test sets; `int` of them is taken on the way out.
pub record MockEcu : Type 0 where
  pub speed : ℤ
  pub rpm : ℤ
  pub nm_state : NmState

unfoldable pub init : MockEcu
init = record { speed = pos 0; rpm = pos 800; nm_state = normal }

pub record Message : Type 0 where
  pub arbitration_id : ℕ
  pub data_bytes : Bytes
  pub is_extended_id : Bool

-- `msg.data[0]` of an empty message
pub data IndexError : Type 0 where
  index_error : IndexError

-- One round of _nm_listener, with a message that recv returned. It catches no IndexError.
unfoldable pub nm_listen : Message → MockEcu → Result IndexError MockEcu
nm_listen m e =
    if m.arbitration_id == 0x600
    then elim (m.data_bytes) [
      | [] ↦ err index_error
      | b ∷ bs ↦
          if b == 0x00
          then ok (record e { nm_state = sleep })
          else if b == 0x01
          then ok (record e { nm_state = normal })
          else ok e
    ]
    else ok e

-- The thread of _nm_listener over the messages that arrive: an exception ends it.
unfoldable pub nm_listener : List Message → MockEcu → MockEcu
nm_listener [] e = e
nm_listener (m ∷ ms) e = elim (nm_listen m e) [ ok e' ↦ nm_listener ms e' | err x ↦ e ]

-- `max(0, min(x, high))`
unfoldable pub clamp : ℕ → ℤ → ℕ
clamp high (pos n) = min n high
clamp high (negsuc n) = 0

-- `for i in range(7): checksum ^= data[i]`
unfoldable pub xor_all : ℕ → Bytes → ℕ
xor_all checksum [] = checksum
xor_all checksum (b ∷ bs) = xor_all (bit_xor checksum b) bs

abbrev pub payload : ℕ → ℕ → Bytes
payload safe_speed safe_rpm =
    bit_and safe_speed 0xff
    ∷ bit_and (safe_rpm / 2 ^ 8) 0xff
    ∷ bit_and safe_rpm 0xff
    ∷ 0
    ∷ 0
    ∷ 0
    ∷ 0
    ∷ []

unfoldable pub engine_status : MockEcu → Message
engine_status e =
    let body = payload (clamp 250 e.speed) (clamp 8000 e.rpm) in
    record {
      arbitration_id = 0x100;
      data_bytes = body ++ xor_all 0 body ∷ [];
      is_extended_id = false;
    }

-- One round of _run: what is sent, if anything.
unfoldable pub broadcast : MockEcu → Option Message
broadcast e = elim (e.nm_state) [ sleep ↦ none | normal ↦ some (engine_status e) ]
