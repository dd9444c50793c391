-- ===== src/SomeIp/Sessions.antt =====
-- The client's calls against the server.
use automotive_testing_frame.Prelude.{
  ℕ, ◌≡◌, refl, ap, ◌≢◌, true, false, not, ◌&&◌, Option, none, some, List, [], ◌∷◌, arith, ◌==◌,
  if◌then◌else◌,
}
use automotive_testing_frame.Prelude.Bytes.{Bytes}
use automotive_testing_frame.SomeIp.Header.{unpack_header, version, pack_header, read_header}
use automotive_testing_frame.SomeIp.Requests.{listen-subscribe, listen-stop}
use automotive_testing_frame.SomeIp.Server.{
  Address, same_address, Datagram, Subscribers, contains, add, listen, send_subscribe_ack,
  service_id, eventgroup_id,
}
use automotive_testing_frame.SomeIp.Client.{
  request, is_positive, stop_subscribe_eventgroup, send_malformed_protocol,
}
use automotive_testing_frame.SomeIp.Subscribers.{
  same_address_refl, same_address_sound, contains-remove, IsDistinct,
}

-- The datagram for an address, of those that the server sends.
abbrev pub delivered : Address → List Datagram → Option Bytes
delivered addr [] = none
delivered addr ((a, packet) ∷ ds) = if same_address addr a then some packet else delivered addr ds

-- The network between a client at an address and the server with these subscribers.
abbrev pub over_server : Address → Subscribers → Bytes → Option Bytes
over_server addr s packet = delivered addr (listen addr packet s).1

no_answer : is_positive none ≡ false
unfolding is_positive
no_answer = refl

stop_acknowledged :
    (addr : Address) → is_positive (delivered addr (send_subscribe_ack addr 0x01230002 2)) ≡ true
unfolding is_positive send_subscribe_ack pack_header unpack_header read_header
stop_acknowledged addr = rw (same_address_refl addr) refl

acknowledged :
    (addr : Address) → is_positive (delivered addr (send_subscribe_ack addr 0x01230001 1)) ≡ true
unfolding is_positive send_subscribe_ack pack_header unpack_header read_header
acknowledged addr = rw (same_address_refl addr) refl

-- The server's answer to a subscription, and its subscribers afterwards.
pub subscription_answered :
    (addr : Address) (s : Subscribers) (service group : ℕ) (packet : Bytes)
    → request service 0x0001 0x01230001 version group ≡ some packet
    → let offered = service == service_id && group == eventgroup_id in
      (is_positive (delivered addr (listen addr packet s).1) ≡ offered)
      × ((listen addr packet s).0 ≡ (if offered then add addr s else s))
subscription_answered addr s service group packet sent =
    rw (listen-subscribe addr s service 0x01230001 version group packet sent)
      (ground (arith, acknowledged addr, no_answer))

-- A client that stops a subscription to the service of the server, with an event group that
-- struct.pack takes, is answered in the affirmative, whether or not it was subscribed, and it is
-- no subscriber afterwards; the other subscribers stay. The subscribers before hold no address
-- twice.
pub stop_subscribe_eventgroup-over_server :
    (addr other : Address) (s : Subscribers) (group : ℕ) (packet : Bytes)
    → IsDistinct s
    → request service_id 0x0002 0x01230002 version group ≡ some packet
    → (stop_subscribe_eventgroup (over_server addr s) service_id group ≡ some true)
      × (contains other (listen addr packet s).0
          ≡ not (same_address other addr) && contains other s)
unfolding stop_subscribe_eventgroup
stop_subscribe_eventgroup-over_server addr other s group packet distinct sent =
    rw (sent, listen-stop addr s service_id 0x01230002 version group packet sent)
      (
        ap some (stop_acknowledged addr),
        ground (arith, contains-remove other addr s distinct, same_address_sound other addr),
      )

-- A subscription request with another protocol version, where struct.pack takes its numbers, is
-- dropped: the server sends nothing and its subscribers stay as they were.
send_malformed_protocol-dropped :
    (addr : Address) (s : Subscribers) (service group bad_version : ℕ) (packet : Bytes)
    → bad_version ≢ version
    → send_malformed_protocol service group bad_version ≡ some packet
    → listen addr packet s ≡ (s, [])
unfolding send_malformed_protocol
send_malformed_protocol-dropped addr s service group bad_version packet bad sent =
    ground (arith, listen-subscribe addr s service 0x01230003 bad_version group packet sent)
