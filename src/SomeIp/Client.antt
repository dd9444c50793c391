-- ===== src/SomeIp/Client.antt =====
-- someip_client.py: the client. What recvfrom returns is an argument: `none` is a timeout.
use automotive_testing_frame.Prelude.{
  ℕ, ◌+◌, ◌*◌, ◌/◌, ◌^◌, Bool, false, ◌&&◌, ◌||◌, Option, none, some, List, [], ◌∷◌, ◌++◌, leb,
  ◌==◌, if◌then◌else◌, length, take, drop,
}
use automotive_testing_frame.Prelude.Bytes.{Bytes, pack_be16, unpack_be16}
use automotive_testing_frame.Prelude.Int.{pos}
use Prim.Native.Nat.{bit_and, bit_or}
use mathlib.Core.Option
use automotive_testing_frame.SomeIp.Header.{
  Header, version, interface, request_type, response_type, notification_type, pack_header,
  read_header,
}

abbrev pub request_header : ℕ → ℕ → ℕ → ℕ → Bytes → Header
request_header service_id method_id request_id protocol_version payload = record {
  msg_id = bit_or (service_id * 2 ^ 16) method_id;
  length_field = 8 + length payload;
  request_id = request_id;
  protocol_version = protocol_version;
  interface_version = interface;
  msg_type = request_type;
  return_code = 0x00;
}

-- A request with one event group for its payload, `none` where struct.pack refuses a number.
unfoldable pub request : ℕ → ℕ → ℕ → ℕ → ℕ → Option Bytes
request service_id method_id request_id protocol_version eventgroup_id =
    elim (pack_be16 (pos eventgroup_id)) [
      | none ↦ none
      | some payload ↦
          Option.map (λ h. h ++ payload)
            (pack_header (request_header service_id method_id request_id protocol_version payload))
    ]

-- The reading of the answer, which both methods do: a response with E_OK.
unfoldable pub is_positive : Option Bytes → Bool
is_positive none = false
is_positive (some packet) = elim (read_header packet) [
  | none ↦ false
  | some h ↦ h.msg_type == response_type && h.return_code == 0x00
]

-- `exchange` is the network: the next datagram that arrives once the request is sent.
unfoldable pub subscribe_eventgroup : (Bytes → Option Bytes) → ℕ → ℕ → Option Bool
subscribe_eventgroup exchange service_id eventgroup_id =
    Option.map (λ packet. is_positive (exchange packet))
      (request service_id 0x0001 0x01230001 version eventgroup_id)

unfoldable pub stop_subscribe_eventgroup : (Bytes → Option Bytes) → ℕ → ℕ → Option Bool
stop_subscribe_eventgroup exchange service_id eventgroup_id =
    Option.map (λ packet. is_positive (exchange packet))
      (request service_id 0x0002 0x01230002 version eventgroup_id)

-- What send_malformed_protocol sends.
unfoldable pub send_malformed_protocol : ℕ → ℕ → ℕ → Option Bytes
send_malformed_protocol service_id eventgroup_id bad_version =
    request service_id 0x0001 0x01230003 bad_version eventgroup_id

-- Whether a datagram of the discovery port is the offer that is waited for.
unfoldable pub is_offer_of : ℕ → Bytes → Bool
is_offer_of target packet = elim (read_header packet) [
  | none ↦ false
  | some h ↦ leb 2 (length (drop 16 packet)) && elim (unpack_be16 (take 2 (drop 16 packet))) [
    | none ↦ false
    | some srv_id ↦ srv_id == target
  ]
]

-- The datagrams that arrive before the five seconds are over, in order.
unfoldable pub wait_for_offer : ℕ → List Bytes → Bool
wait_for_offer target [] = false
wait_for_offer target (packet ∷ packets) =
    is_offer_of target packet || wait_for_offer target packets

-- `round(struct.unpack("!f", payload)[0], 4)` of four bytes is a parameter.
module _ {Float : Type 0} (unpack_f : Bytes → Float) where
  unfoldable pub receive_notification : ℕ → ℕ → Option Bytes → Option Float
  receive_notification service_id event_id none = none
  receive_notification service_id event_id (some packet) = elim (read_header packet) [
    | none ↦ none
    | some h ↦
        if bit_and (h.msg_id / 2 ^ 16) 0xffff == service_id
          && bit_and h.msg_id 0xffff == event_id
          && h.msg_type == notification_type
          && length (drop 16 packet) == 4
        then some (unpack_f (drop 16 packet))
        else none
  ]
