-- ===== src/SecOc/Nodes.antt =====
-- subProj 12 SecOC Mock/secoc_nodes.py: the transmitter and the receiver of secured frames.
use automotive_testing_frame.Prelude.{
  Bool, true, false, not, Option, none, some, List, [], ◌∷◌, ◌++◌, if◌then◌else◌, length, Result,
  ok, err,
}
use automotive_testing_frame.Prelude.Int.{ℤ, pos, ◌==ℤ◌}
use automotive_testing_frame.Prelude.Bytes.{Bytes}
use automotive_testing_frame.SecOc.Crypto.{
  SecOcError, type_error, mac_validation_error, SecOcEngine, get_freshness_value,
  increment_freshness, generate_mac, verify_mac,
}

-- The frame dictionary; `none` is a key that is not there.
pub record SecuredPdu : Type 0 where
  pub message_id : Option ℤ
  pub payload : Option Bytes
  pub freshness_value : Option ℤ
  pub mac : Option Bytes
  pub mac_length : Option ℤ

pub record TransmitterEcu : Type 0 where
  pub crypto : SecOcEngine

pub record ReceiverEcu : Type 0 where
  pub crypto : SecOcEngine
  pub received_messages : List (Option Bytes)

-- `frame.get("mac_length", 4)`
abbrev pub expected_length : Option ℤ → ℤ
expected_length none = pos 4
expected_length (some n) = n

module _ (hmac_sha256 : Bytes → Bytes → Bytes) where
  secured : ℤ → Bytes → ℤ → ℤ → Result SecOcError Bytes → Result SecOcError SecuredPdu
  secured message_id can_data fv mac_length (err e) = err e
  secured message_id can_data fv mac_length (ok mac) = ok (record {
    message_id = some message_id;
    payload = some can_data;
    freshness_value = some fv;
    mac = some mac;
    mac_length = some mac_length;
  })

  -- The freshness value is raised even where the code is then refused.
  unfoldable pub secure_transmit :
      ℤ → Bytes → ℤ → TransmitterEcu → Result SecOcError SecuredPdu × TransmitterEcu
  unfolding secured
  secure_transmit message_id can_data mac_length t =
      let c = increment_freshness t.crypto in
      let fv = get_freshness_value c in
      (
        secured message_id can_data fv mac_length
            (generate_mac hmac_sha256 (some message_id) (some can_data) fv mac_length c),
        record { crypto = c },
      )

  -- The value is `True`, or the `None` of a function that ends without a `return`.
  store :
      Option Bytes
      → Result SecOcError Bool
      → ReceiverEcu
      → Result SecOcError (Option Bool) × ReceiverEcu
  store payload (err e) r = (err e, r)
  store payload (ok true) r =
      (ok (some true), record r { received_messages = r.received_messages ++ payload ∷ [] })
  store payload (ok false) r = (ok none, r)

  check_frame :
      SecuredPdu → Option Bytes → ReceiverEcu → Result SecOcError (Option Bool) × ReceiverEcu
  unfolding store
  check_frame frame none r = (err type_error, r)
  check_frame frame (some mac) r =
      if not (pos (length mac) ==ℤ expected_length frame.mac_length)
      then (err mac_validation_error, r)
      else let (result, crypto') =
          verify_mac hmac_sha256 frame.message_id frame.payload frame.freshness_value mac
            r.crypto in
        store frame.payload result (record r { crypto = crypto' })

  unfoldable pub receive_secure_frame :
      SecuredPdu → ReceiverEcu → Result SecOcError (Option Bool) × ReceiverEcu
  unfolding check_frame
  receive_secure_frame frame r = check_frame frame frame.mac r

  -- A receiver that drops what raises and goes on.
  unfoldable pub receive_all : List SecuredPdu → ReceiverEcu → ReceiverEcu
  receive_all [] r = r
  receive_all (f ∷ fs) r = receive_all fs (receive_secure_frame f r).1
