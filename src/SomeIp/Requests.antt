-- ===== src/SomeIp/Requests.antt =====
-- What the server does with the requests that the client sends.
use Prim.Native.Nat.{bit_and}
use automotive_testing_frame.Prelude.{
  ℕ, ◌+◌, ◌*◌, ◌/◌, ◌^◌, ◌<◌, ◌≡◌, refl, inl, inr, ◌&&◌, some, [], ◌++◌, arith, ◌==◌, if◌then◌else◌,
  drop, Option-cases,
}
use automotive_testing_frame.Prelude.Bytes.{Bytes, pack_be16, be16, unpack_be16}
use automotive_testing_frame.Prelude.Bits.{bit_or_shifted, bit_and_65535}
use automotive_testing_frame.SomeIp.Header.{
  pack_header-parts, Header, version, interface, request_type, pack_header, read_header,
  unpack_header-pack_header,
}
use automotive_testing_frame.SomeIp.Server.{
  names_eventgroup, Address, Subscribers, contains, add, remove, listen, handle, call_method,
  subscribe, stop_subscribe, send_subscribe_ack, service_id, eventgroup_id,
}
use automotive_testing_frame.SomeIp.Client.{request_header, request}

-- The header of a request of the client.
abbrev asked : ℕ → ℕ → ℕ → ℕ → Header
asked service method_id request_id protocol = record {
  msg_id = service * 2 ^ 16 + method_id;
  length_field = 10;
  request_id = request_id;
  protocol_version = protocol;
  interface_version = interface;
  msg_type = request_type;
  return_code = 0x00;
}

request-parts :
    (service method_id request_id protocol group : ℕ) (packet : Bytes)
    → method_id < 2 ^ 16
    → request service method_id request_id protocol group ≡ some packet
    → (head : Bytes) × (pack_header (asked service method_id request_id protocol) ≡ some head)
      × (packet ≡ head ++ be16 group)
      × (group < 2 ^ 16)
unfolding request pack_be16
request-parts service method_id request_id protocol group packet small sent =
    let header : request_header service method_id request_id protocol (be16 group)
        ≡ asked service method_id request_id protocol =
      rw (bit_or_shifted 16 service method_id small) refl in
    elim (Option-cases
      (pack_header (request_header service method_id request_id protocol (be16 group)))) [
        | inl refused ↦ absurd (ground (arith, refused))
        | inr (head, packed) ↦
            (head, rw header at packed, ground (arith, packed), ground (arith, packed))
      ]

pub request-reads :
    (service method_id request_id protocol group : ℕ) (packet : Bytes)
    → method_id < 2 ^ 16
    → request service method_id request_id protocol group ≡ some packet
    → (read_header packet ≡ some (asked service method_id request_id protocol))
      × (drop 16 packet ≡ be16 group)
      × (group < 2 ^ 16)
      × (service < 2 ^ 16)
request-reads service method_id request_id protocol group packet small sent =
    let (head, packed, joined, in_range) =
      request-parts service method_id request_id protocol group packet small sent in
    let parts = pack_header-parts (asked service method_id request_id protocol) head packed in
    let reads =
      unpack_header-pack_header (asked service method_id request_id protocol) head (be16 group)
        packed in
    rw joined (reads.0, reads.1, in_range, omega (arith, parts.1))

handle-asked :
    (addr : Address) (s : Subscribers) (service method_id request_id protocol : ℕ) (payload : Bytes)
    → method_id < 2 ^ 16
    → service < 2 ^ 16
    → handle addr (asked service method_id request_id protocol) payload s ≡ (
        if protocol == version && service == service_id
        then call_method method_id addr request_id payload s
        else (s, []))
unfolding handle
handle-asked addr s service method_id request_id protocol payload small narrow =
    let service_eq : bit_and ((service * 2 ^ 16 + method_id) / 2 ^ 16) 0xffff ≡ service =
      omega (arith, bit_and_65535 ((service * 2 ^ 16 + method_id) / 2 ^ 16)) in
    let method_eq : bit_and (service * 2 ^ 16 + method_id) 0xffff ≡ method_id =
      omega (arith, bit_and_65535 (service * 2 ^ 16 + method_id)) in
    rw service_eq (rw method_eq (ground arith))

-- What the server does with a request of the client.
pub listen-request :
    (addr : Address) (s : Subscribers) (service method_id request_id protocol group : ℕ)
    (packet : Bytes)
    → method_id < 2 ^ 16
    → request service method_id request_id protocol group ≡ some packet
    → listen addr packet s ≡ (
        if protocol == version && service == service_id
        then call_method method_id addr request_id (be16 group) s
        else (s, []))
unfolding listen
listen-request addr s service method_id request_id protocol group packet small sent =
    let (reads, rest, in_range, narrow) =
      request-reads service method_id request_id protocol group packet small sent in
    rw (listen, reads)
      (rw rest
        (handle-asked addr s service method_id request_id protocol (be16 group) small narrow))

names_eventgroup-be16 :
    (group : ℕ) → group < 2 ^ 16 → names_eventgroup (be16 group) ≡ (group == eventgroup_id)
unfolding unpack_be16
names_eventgroup-be16 group h = ground arith

pub listen-subscribe :
    (addr : Address) (s : Subscribers) (service request_id protocol group : ℕ) (packet : Bytes)
    → request service 0x0001 request_id protocol group ≡ some packet
    → listen addr packet s ≡ (
        if (protocol == version && service == service_id) && group == eventgroup_id
        then (add addr s, send_subscribe_ack addr request_id 0x0001)
        else (s, []))
unfolding call_method subscribe
listen-subscribe addr s service request_id protocol group packet sent =
    let (_, _, in_range, _) =
      request-reads service 0x0001 request_id protocol group packet (omega arith) sent in
    ground (
      arith,
      listen-request addr s service 0x0001 request_id protocol group packet,
      names_eventgroup-be16 group,
    )

pub listen-stop :
    (addr : Address) (s : Subscribers) (service request_id protocol group : ℕ) (packet : Bytes)
    → request service 0x0002 request_id protocol group ≡ some packet
    → listen addr packet s ≡ (
        if protocol == version && service == service_id
        then (
          if contains addr s then remove addr s else s,
          send_subscribe_ack addr request_id 0x0002,
        )
        else (s, []))
unfolding call_method stop_subscribe
listen-stop addr s service request_id protocol group packet sent =
    ground (arith, listen-request addr s service 0x0002 request_id protocol group packet)
