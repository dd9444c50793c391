-- ===== src/SomeIp/Publication.antt =====
-- What the subscribers receive in a round of _publish_notifications, and how often.
use automotive_testing_frame.Prelude.{
  ℕ, suc, ◌*◌, ◌^◌, ◌≡◌, refl, false, none, some, List, [], ◌∷◌, map, arith, if◌then◌else◌, length,
}
use automotive_testing_frame.Prelude.Bytes.{Bytes}
use Prim.Native.Nat.{bit_or}
use automotive_testing_frame.SomeIp.Header.{
  notification_type, read_header, unpack_header, pack_header,
}
use automotive_testing_frame.SomeIp.Client.{receive_notification}
use automotive_testing_frame.SomeIp.Server.{
  service_id, event_gps, message, Address, same_address, Datagram, Subscribers, contains, publish,
  notification,
}
use automotive_testing_frame.SomeIp.Subscribers.{same_address_sound, IsDistinct}
use automotive_testing_frame.SomeIp.Sessions.{delivered}
use automotive_testing_frame.SomeIp.Membership.{
  listen_all, subscribed, listen_all-subscribed, listen_all-IsDistinct, IsBytes,
}

pub delivered-map :
    (addr : Address) (packet : Bytes) (s : Subscribers)
    → delivered addr (map (λ a. (a, packet)) s) ≡ (if contains addr s then some packet else none)
unfolding contains
delivered-map addr packet [] = refl
delivered-map addr packet (a ∷ s) = ground (arith, delivered-map addr packet s)

-- A notification of four bytes is read back.
pub notified :
    {Float : Type 0} (unpack_f : Bytes → Float) (payload : Bytes)
    → length payload ≡ 4
    → (packet : Bytes) × (message
          (bit_or (service_id * 2 ^ 16) event_gps)
          0x00000000
          notification_type
          payload
        ≡ some packet)
      × (receive_notification unpack_f service_id event_gps (some packet) ≡ some (unpack_f payload))
unfolding receive_notification pack_header unpack_header read_header
notified unpack_f [] four = absurd (omega arith)
notified unpack_f (a ∷ []) four = absurd (omega arith)
notified unpack_f (a ∷ b ∷ []) four = absurd (omega arith)
notified unpack_f (a ∷ b ∷ c ∷ []) four = absurd (omega arith)
notified unpack_f (a ∷ b ∷ c ∷ d ∷ []) four = (_, refl, refl)
notified unpack_f (a ∷ b ∷ c ∷ d ∷ e ∷ rest) four = absurd (omega arith)

module _ {Float : Type 0} (pack_f : Float → Bytes) (advance : Float → Float) where
  pub publish-sent :
      (s : Subscribers) (lat : Float) (packet : Bytes)
      → notification pack_f advance lat ≡ some packet
      → (publish pack_f advance s lat).0 ≡ map (λ a. (a, packet)) s
  unfolding publish
  publish-sent [] lat packet sent = refl
  publish-sent (a ∷ s) lat packet sent = rw (publish, sent) refl

module _ {Float : Type 0} (pack_f : Float → Bytes) (advance : Float → Float)
    (unpack_f : Bytes → Float) where
  nothing_received : receive_notification unpack_f service_id event_gps none ≡ none
  unfolding receive_notification
  nothing_received = refl

  -- In a round a client that listens for the position gets the packed latitude if it is a
  -- subscriber, and nothing else, when struct packs the latitude into four bytes.
  receive_notification-publish :
      (addr : Address) (s : Subscribers) (lat : Float)
      → length (pack_f lat) ≡ 4
      → receive_notification unpack_f service_id event_gps
          (delivered addr (publish pack_f advance s lat).0)
        ≡ (if contains addr s then some (unpack_f (pack_f lat)) else none)
  receive_notification-publish addr s lat four =
      let (packet, sent, read) = notified unpack_f (pack_f lat) four in
      rw (publish-sent pack_f advance s lat packet sent)
        (rw (delivered-map addr packet s) (ground (arith, read, nothing_received)))

-- The datagrams for an address.
abbrev pub count : Address → List Datagram → ℕ
count a [] = 0
count a ((b, packet) ∷ ds) = if same_address a b then suc (count a ds) else count a ds

count-map :
    (a : Address) (packet : Bytes) (s : Subscribers)
    → IsDistinct s
    → count a (map (λ b. (b, packet)) s) ≡ (if contains a s then 1 else 0)
unfolding contains
count-map a packet [] distinct = refl
count-map a packet (b ∷ s) distinct = ground (arith, count-map a packet s, same_address_sound a b)

-- A server that began without subscribers sends, whatever bytes it received since, in a round one
-- notification to every address whose last request of the two kinds was for a subscription, and
-- none to the others, when struct packs the latitude into four bytes.
pub publish_once :
    {Float : Type 0} (pack_f : Float → Bytes) (advance : Float → Float) (a : Address)
    (received : List (Address × Bytes)) (lat : Float)
    → length (pack_f lat) ≡ 4
    → IsBytes received
    → count a (publish pack_f advance (listen_all received []) lat).0
      ≡ (if subscribed a received false then 1 else 0)
unfolding contains
publish_once pack_f advance a received lat four bytes =
    let (packet, sent, _) = notified (λ bs. bs) (pack_f lat) four in
    let s = listen_all received [] in
    let one_each = count-map a packet s (listen_all-IsDistinct received [] tt) in
    let known = listen_all-subscribed a received [] tt bytes in
    rw (publish-sent pack_f advance s lat packet sent) (rw one_each (rw known refl))
