-- ===== src/SecOc/Crypto.antt =====
-- subProj 12 SecOC Mock/secoc_crypto.py: the engine that computes and checks authentication codes.
-- `hmac_sha256 key message` stands for `hmac.new(key, message, hashlib.sha256).digest()`.
use automotive_testing_frame.Prelude.{
  ◌-◌, ◌+◌, Bool, true, not, Option, none, some, ◌++◌, if◌then◌else◌, ◌==◌, length, take, Result,
  ok, err, or_raise, ◌>>=◌,
}
use automotive_testing_frame.Prelude.Int.{ℤ, pos, negsuc, ◌+ℤ◌, leb_ℤ}
use automotive_testing_frame.Prelude.Bytes.{Bytes, bytes_eq, pack_be16, pack_be32}

-- The exceptions that reach a caller.
pub data SecOcError : Type 0 where
  value_error type_error struct_error mac_validation_error replay_attack_error : SecOcError

pub record SecOcEngine : Type 0 where
  pub secret_key : Bytes
  pub current_fv : ℤ

-- `__init__`
unfoldable pub new : Bytes → Result SecOcError SecOcEngine
new secret_key =
    if not (length secret_key == 16)
    then err value_error
    else ok (record { secret_key = secret_key; current_fv = pos 0 })

unfoldable pub get_freshness_value : SecOcEngine → ℤ
get_freshness_value c = c.current_fv

unfoldable pub increment_freshness : SecOcEngine → SecOcEngine
increment_freshness c = record c { current_fv = c.current_fv +ℤ pos 1 }

-- `bs[:n]`; a negative `n` counts from the end.
unfoldable pub slice_to : ℤ → Bytes → Bytes
slice_to (pos n) bs = take n bs
slice_to (negsuc n) bs = take (length bs - (n + 1)) bs

-- `struct.pack` refuses `None` as it refuses a number out of range.
pack_id : Option ℤ → Option Bytes
pack_id none = none
pack_id (some message_id) = pack_be16 message_id

-- `msg_id_bytes + data_payload + fv_bytes`, with the errors of its parts in the order of the code.
unfoldable pub data_to_sign : Option ℤ → Option Bytes → ℤ → Result SecOcError Bytes
unfolding pack_id
data_to_sign message_id data_payload freshness_value = do
  msg_id_bytes ← or_raise struct_error (pack_id message_id)
  fv_bytes ← or_raise struct_error (pack_be32 freshness_value)
  payload ← or_raise type_error data_payload
  ok ((msg_id_bytes ++ payload) ++ fv_bytes)

module _ (hmac_sha256 : Bytes → Bytes → Bytes) where
  unfoldable pub generate_mac :
      Option ℤ → Option Bytes → ℤ → ℤ → SecOcEngine → Result SecOcError Bytes
  unfolding slice_to
  generate_mac message_id data_payload freshness_value mac_length c = do
    signed ← data_to_sign message_id data_payload freshness_value
    ok (slice_to mac_length (hmac_sha256 c.secret_key signed))

  compare_mac :
      Result SecOcError Bytes → ℤ → Bytes → SecOcEngine → Result SecOcError Bool × SecOcEngine
  compare_mac (err e) received_fv received_mac c = (err e, c)
  compare_mac (ok expected_mac) received_fv received_mac c =
      if bytes_eq expected_mac received_mac
      then (ok true, record c { current_fv = received_fv })
      else (err mac_validation_error, c)

  -- `None <= n` is a type error.
  unfoldable pub verify_mac :
      Option ℤ
      → Option Bytes
      → Option ℤ
      → Bytes
      → SecOcEngine
      → Result SecOcError Bool × SecOcEngine
  unfolding compare_mac
  verify_mac message_id received_payload none received_mac c = (err type_error, c)
  verify_mac message_id received_payload (some received_fv) received_mac c =
      if leb_ℤ received_fv c.current_fv
      then (err replay_attack_error, c)
      else compare_mac
          (generate_mac message_id received_payload received_fv (pos (length received_mac)) c)
          received_fv received_mac c
