-- ===== src/SomeIp/Server.antt =====
-- someip_server.py: the server, its subscribers, and what it sends.
use automotive_testing_frame.Prelude.{
  ℕ, ◌+◌, ◌*◌, ◌/◌, ◌^◌, Bool, false, not, ◌&&◌, ◌||◌, Option, none, some, List, [], ◌∷◌, ◌++◌, map,
  leb, ◌==◌, if◌then◌else◌, length, take, drop,
}
use automotive_testing_frame.Prelude.Bytes.{Bytes, be16, unpack_be16}
use Prim.Native.Nat.{bit_and, bit_or}
use automotive_testing_frame.SomeIp.Header.{
  Header, version, interface, request_type, response_type, notification_type, pack_header,
  read_header,
}
use mathlib.Core.Option

-- The pair that recvfrom returns: an IPv4 address as its 32-bit number, and a port.
pub record Address : Type 0 where
  pub host : ℕ
  pub port : ℕ

abbrev pub same_address : Address → Address → Bool
same_address a b = a.host == b.host && a.port == b.port

-- A datagram handed to sendto, with its address.
abbrev pub Datagram : Type 0
Datagram = Address × Bytes

-- `self.subscribers`, a set: the addresses in the order in which they came.
abbrev pub Subscribers : Type 0
Subscribers = List Address

-- `addr in self.subscribers`
unfoldable pub contains : Address → Subscribers → Bool
contains a [] = false
contains a (b ∷ bs) = same_address a b || contains a bs

-- `self.subscribers.add(addr)`
unfoldable pub add : Address → Subscribers → Subscribers
add a bs = if contains a bs then bs else a ∷ bs

-- `self.subscribers.remove(addr)` of an address that is there
unfoldable pub remove : Address → Subscribers → Subscribers
remove a [] = []
remove a (b ∷ bs) = if same_address a b then bs else b ∷ remove a bs

abbrev pub service_id : ℕ
service_id = 0x1234

abbrev pub method_subscribe : ℕ
method_subscribe = 0x0001

abbrev pub method_stopsubscribe : ℕ
method_stopsubscribe = 0x0002

abbrev pub event_gps : ℕ
event_gps = 0x8001

abbrev pub eventgroup_id : ℕ
eventgroup_id = 0x0001

-- `header + payload`, where the length field counts the eight bytes after it and the payload
abbrev pub message : ℕ → ℕ → ℕ → Bytes → Option Bytes
message msg_id request_id msg_type payload =
    Option.map (λ h. h ++ payload)
      (pack_header record {
        msg_id = msg_id;
        length_field = 8 + length payload;
        request_id = request_id;
        protocol_version = version;
        interface_version = interface;
        msg_type = msg_type;
        return_code = 0x00;
      })

-- `_send_subscribe_ack`; an exception ends the iteration of _listen that it comes up in.
unfoldable pub send_subscribe_ack : Address → ℕ → ℕ → List Datagram
send_subscribe_ack addr request_id method =
    elim (message (bit_or (service_id * 2 ^ 16) method) request_id response_type
      (be16 eventgroup_id)) [ none ↦ [] | some packet ↦ (addr, packet) ∷ [] ]

-- `struct.unpack("!H", payload[:2])[0] == EVENTGROUP_ID`, for a payload of two bytes or more
abbrev pub names_eventgroup : Bytes → Bool
names_eventgroup payload =
    leb 2 (length payload)
    && elim (unpack_be16 (take 2 payload)) [ none ↦ false | some eg_id ↦ eg_id == eventgroup_id ]

unfoldable pub subscribe : Address → ℕ → Bytes → Subscribers → Subscribers × List Datagram
subscribe addr request_id payload s =
    if names_eventgroup payload
    then (add addr s, send_subscribe_ack addr request_id method_subscribe)
    else (s, [])

unfoldable pub stop_subscribe : Address → ℕ → Subscribers → Subscribers × List Datagram
stop_subscribe addr request_id s = (
  if contains addr s then remove addr s else s,
  send_subscribe_ack addr request_id method_stopsubscribe,
)

unfoldable pub call_method : ℕ → Address → ℕ → Bytes → Subscribers → Subscribers × List Datagram
call_method method_id addr request_id payload s =
    if method_id == method_subscribe
    then subscribe addr request_id payload s
    else if method_id == method_stopsubscribe
    then stop_subscribe addr request_id s
    else (s, [])

-- `(msg_id >> 16) & 0xFFFF` and `msg_id & 0xFFFF`
abbrev pub service_of : ℕ → ℕ
service_of msg_id = bit_and (msg_id / 2 ^ 16) 0xffff

abbrev pub method_of : ℕ → ℕ
method_of msg_id = bit_and msg_id 0xffff

unfoldable pub handle : Address → Header → Bytes → Subscribers → Subscribers × List Datagram
handle addr h payload s =
    if not (h.protocol_version == version)
    then (s, [])
    else if service_of h.msg_id == service_id && h.msg_type == request_type
    then call_method (method_of h.msg_id) addr h.request_id payload s
    else (s, [])

-- One iteration of _listen, for what recvfrom returned: the subscribers, and what is sent.
unfoldable pub listen : Address → Bytes → Subscribers → Subscribers × List Datagram
listen addr packet s = elim (read_header packet) [
  | none ↦ (s, [])
  | some h ↦ handle addr h (drop 16 packet) s
]

-- What _broadcast_sd sends in each round to the discovery port.
unfoldable pub offer : Option Bytes
offer =
    message (bit_or (0xffff * 2 ^ 16) 0x8100) 0x00000000 notification_type
      (be16 service_id ++ be16 0x0001 ++ (0x01 ∷ be16 0x05))

-- The latitude is a Python float: of it the server uses the packing `struct.pack("!f", lat)` and the
-- step `lat += 0.0001`.
module _ {Float : Type 0} (pack_f : Float → Bytes) (advance : Float → Float) where
  abbrev pub notification : Float → Option Bytes
  notification lat =
      message (bit_or (service_id * 2 ^ 16) event_gps) 0x00000000 notification_type (pack_f lat)

  -- One round of _publish_notifications.
  unfoldable pub publish : Subscribers → Float → List Datagram × Float
  publish [] lat = ([], lat)
  publish (a ∷ s) lat = elim (notification lat) [
    | none ↦ ([], lat)
    | some packet ↦ (map (λ addr. (addr, packet)) (a ∷ s), advance lat)
  ]
