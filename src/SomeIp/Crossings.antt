-- ===== src/SomeIp/Crossings.antt =====
-- A notification that is on its way while the client waits for an answer.
use automotive_testing_frame.Prelude.{
  none, not, ◌&&◌, ◌==◌, Bool-cases, inl, inr, if◌then◌else◌, ℕ, ◌*◌, ◌^◌, ◌≡◌, refl, ap, ◌∙◌, true,
  false, some, List, [], ◌∷◌, ◌++◌, arith, length,
}
use automotive_testing_frame.Prelude.Bytes.{Bytes}
use Prim.Native.Nat.{bit_or}
use automotive_testing_frame.SomeIp.Header.{
  version, notification_type, pack_header, unpack_header, read_header,
}
use automotive_testing_frame.SomeIp.Client.{
  subscribe_eventgroup, request, is_positive, stop_subscribe_eventgroup,
}
use automotive_testing_frame.SomeIp.Server.{
  add, eventgroup_id, service_id, event_gps, message, Address, Datagram, Subscribers, contains,
  listen, publish,
}
use automotive_testing_frame.SomeIp.Subscribers.{IsDistinct, same_address_refl}
use automotive_testing_frame.SomeIp.Sessions.{
  delivered, over_server, subscription_answered, stop_subscribe_eventgroup-over_server,
}
use automotive_testing_frame.SomeIp.Publication.{delivered-map, publish-sent}

-- A notification of four bytes is no answer.
not_positive :
    (payload : Bytes)
    → length payload ≡ 4
    → (packet : Bytes) × (message
          (bit_or (service_id * 2 ^ 16) event_gps)
          0x00000000
          notification_type
          payload
        ≡ some packet)
      × (is_positive (some packet) ≡ false)
unfolding is_positive pack_header unpack_header read_header
not_positive (a ∷ b ∷ c ∷ d ∷ []) four = (_, refl, refl)
not_positive payload four = absurd (omega (arith, four))

delivered-append :
    (addr : Address) (ds es : List Datagram) (packet : Bytes)
    → delivered addr ds ≡ some packet
    → delivered addr (ds ++ es) ≡ some packet
delivered-append addr [] es packet h = cc
delivered-append addr ((a, p) ∷ ds) es packet h = ground (arith, delivered-append addr ds es packet)

-- A client that stops its subscription takes the next datagram for the answer. When a notification is
-- before it, the call returns False although the server has ended the subscription; without one, it
-- returns True. The client is a subscriber, the subscribers hold no address twice, and struct packs
-- the latitude into four bytes and takes the event group.
pub stop_behind_notification :
    {Float : Type 0} (pack_f : Float → Bytes) (advance : Float → Float) (addr : Address)
    (s : Subscribers) (lat : Float) (group : ℕ) (packet : Bytes)
    → contains addr s ≡ true
    → IsDistinct s
    → length (pack_f lat) ≡ 4
    → request service_id 0x0002 0x01230002 version group ≡ some packet
    → let round = (publish pack_f advance s lat).0 in
      (stop_subscribe_eventgroup
          (λ p. delivered addr (round ++ (listen addr p s).1))
          service_id
          group
        ≡ some false)
      × (stop_subscribe_eventgroup (over_server addr s) service_id group ≡ some true)
      × (contains addr (listen addr packet s).0 ≡ false)
unfolding stop_subscribe_eventgroup
stop_behind_notification pack_f advance addr s lat group packet subscribed distinct four sent =
    let (note, is_note, negative) = not_positive (pack_f lat) four in
    let (answered, gone) =
      stop_subscribe_eventgroup-over_server addr addr s group packet distinct sent in
    let crossing =
      delivered-append addr (publish pack_f advance s lat).0 (listen addr packet s).1 note (
        rw (publish-sent pack_f advance s lat note is_note)
          (rw (delivered-map addr note s) (rw (subscribed) refl))) in
    (
      rw (sent) (ap some (ap is_positive crossing ∙ negative)),
      answered,
      gone ∙ ground (arith, same_address_refl addr),
    )

delivered-append-none :
    (addr : Address) (ds es : List Datagram)
    → delivered addr ds ≡ none
    → delivered addr (ds ++ es) ≡ delivered addr es
delivered-append-none addr [] es h = refl
delivered-append-none addr ((a, p) ∷ ds) es h = ground (arith, delivered-append-none addr ds es)

-- What a client gets of a round of notifications and what comes after it.
crossed :
    {Float : Type 0} (pack_f : Float → Bytes) (advance : Float → Float) (addr : Address)
    (s : Subscribers) (lat : Float) (es : List Datagram)
    → length (pack_f lat) ≡ 4
    → is_positive (delivered addr ((publish pack_f advance s lat).0 ++ es))
      ≡ not (contains addr s) && is_positive (delivered addr es)
crossed pack_f advance addr s lat es four =
    let (note, is_note, negative) = not_positive (pack_f lat) four in
    let ds = (publish pack_f advance s lat).0 in
    let got : delivered addr ds ≡ (if contains addr s then some note else none) =
      rw (publish-sent pack_f advance s lat note is_note) (delivered-map addr note s) in
    elim (Bool-cases (contains addr s)) [
      | inl known ↦
          ap is_positive (delivered-append addr ds es note (got ∙ rw (known) refl))
          ∙ (negative ∙ rw (known) refl)
      | inr unknown ↦
          ap is_positive (delivered-append-none addr ds es (got ∙ rw (unknown) refl))
          ∙ rw (unknown) refl
    ]

-- A client that subscribes takes the next datagram for the answer. When the server's answer is the
-- next, the call ends well exactly for the service and the event group that the server offers; when
-- a round of notifications was sent before, it does so only for a client that was no subscriber yet,
-- since one that was reads a notification first and returns False. In both cases the server then
-- has the client among its subscribers, if the service and the group are those that it offers, and
-- else the subscribers stay as they were. struct packs the latitude into four bytes and takes the
-- numbers of the request.
pub subscribe_behind_notification :
    {Float : Type 0} (pack_f : Float → Bytes) (advance : Float → Float) (addr : Address)
    (s : Subscribers) (lat : Float) (service group : ℕ) (packet : Bytes)
    → length (pack_f lat) ≡ 4
    → request service 0x0001 0x01230001 version group ≡ some packet
    → let round = (publish pack_f advance s lat).0 in
      let offered = service == service_id && group == eventgroup_id in
      (subscribe_eventgroup (over_server addr s) service group ≡ some offered)
      × (subscribe_eventgroup (λ p. delivered addr (round ++ (listen addr p s).1)) service group
          ≡ some (not (contains addr s) && offered))
      × ((listen addr packet s).0 ≡ (if offered then add addr s else s))
unfolding subscribe_eventgroup
subscribe_behind_notification pack_f advance addr s lat service group packet four sent =
    let (answer, subscribers) = subscription_answered addr s service group packet sent in
    (
      rw (sent) (ap some answer),
      rw (sent) (
          ap some (
            crossed pack_f advance addr s lat (listen addr packet s).1 four
            ∙ ap (λ b. not (contains addr s) && b) answer)),
      subscribers,
    )
