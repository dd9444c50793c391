-- ===== src/SomeIp/Threads/Rounds.antt =====
-- A round of the publisher, turn by turn, against the round as a whole.
use automotive_testing_frame.SomeIp.Threads.{
  packed, np_turn, turn, turns, np_head, np_pack, np_send, np_pause, np_died, notified, publishes,
  Event, System, Turn,
}
use automotive_testing_frame.SomeIp.Server.{Address, Datagram, Subscribers, notification}
use automotive_testing_frame.SomeIp.Publication.{count, publish_once}
use automotive_testing_frame.SomeIp.Membership.{listen_all, IsBytes, subscribed}
use automotive_testing_frame.SomeIp.Threads.Waiting.{notifications}
use automotive_testing_frame.Prelude.{
  ℕ, zero, suc, ◌+◌, ◌≡◌, refl, ap, ◌∙◌, true, false, Option, none, some, List, [], ◌∷◌, map, arith,
  if◌then◌else◌, length,
}
use automotive_testing_frame.Prelude.Bytes.{Bytes}
use automotive_testing_frame.SomeIp.Server.{publish}

-- The turns of a round, up to its sleep.
abbrev pub round_turns : Subscribers → ℕ
round_turns [] = 2
round_turns (a ∷ s) = suc (suc (suc (suc (suc (length (a ∷ s))))))

abbrev pub publishing : ℕ → List Turn
publishing zero = []
publishing (suc n) = publishes true ∷ publishing n

-- Events one after the other, the latest first.
abbrev pub log : List Datagram → List Event → List Event
log [] es = es
log (d ∷ ds) es = log ds (notified d ∷ es)

module _ {Float : Type 0} (pack_f : Float → Bytes) (advance : Float → Float) where
  sends :
      (packet : Bytes) (addrs : List Address) (s : System Float)
      → turns pack_f advance
          (publishing (suc (length addrs)))
          (record s { is_open = true; publisher = np_send packet addrs })
        ≡ record s {
          is_open = true;
          publisher = np_pause;
          mock_lat = advance s.mock_lat;
          events = log (map (λ addr. (addr, packet)) addrs) s.events;
        }
  unfolding turns turn np_turn
  sends packet [] s = refl
  sends packet (addr ∷ addrs) s =
      sends packet addrs (record s { events = notified (addr, packet) ∷ s.events })

  died_stays :
      (n : ℕ) (s : System Float)
      → turns pack_f advance (publishing n) (record s { publisher = np_died })
        ≡ record s { publisher = np_died }
  unfolding turns turn np_turn
  died_stays zero s = refl
  died_stays (suc n) s = died_stays n s

  -- The same events, latitude and subscribers, whatever the publisher is at.
  record IsPublished (result : List Datagram × Float) (s after : System Float) : Type 0 where
    events : after.events ≡ log result.0 s.events
    mock_lat : after.mock_lat ≡ result.1
    subscribers : after.subscribers ≡ s.subscribers

  publish-none :
      (a : Address) (addrs : Subscribers) (lat : Float)
      → notification pack_f advance lat ≡ none
      → publish pack_f advance (a ∷ addrs) lat ≡ ([], lat)
  unfolding publish
  publish-none a addrs lat e = rw (publish, e) refl

  publish-some :
      (packet : Bytes) (a : Address) (addrs : Subscribers) (lat : Float)
      → notification pack_f advance lat ≡ some packet
      → publish pack_f advance (a ∷ addrs) lat
        ≡ (map (λ addr. (addr, packet)) (a ∷ addrs), advance lat)
  unfolding publish
  publish-some packet a addrs lat e = rw (publish, e) refl

  packed_round :
      (packet : Option Bytes) (a : Address) (addrs : Subscribers) (s : System Float)
      → notification pack_f advance s.mock_lat ≡ packet
      → IsPublished
          (publish pack_f advance (a ∷ addrs) s.mock_lat)
          (record s { subscribers = a ∷ addrs })
          (turns pack_f advance
            (publishing (suc (suc (length (a ∷ addrs)))))
            (packed pack_f advance packet (record s { is_open = true; subscribers = a ∷ addrs })))
  unfolding turns turn np_turn
  packed_round none a addrs s e =
      let over =
        died_stays (suc (suc (length (a ∷ addrs))))
          (record s { is_open = true; subscribers = a ∷ addrs }) in
      rw (publish-none a addrs s.mock_lat e) (record {
        events = ap (λ t. t.events) over;
        mock_lat = ap (λ t. t.mock_lat) over;
        subscribers = ap (λ t. t.subscribers) over;
      })
  packed_round (some packet) a addrs s e =
      let over = sends packet (a ∷ addrs) (record s { subscribers = a ∷ addrs }) in
      rw (publish-some packet a addrs s.mock_lat e) (record {
        events = ap (λ t. t.events) over;
        mock_lat = ap (λ t. t.mock_lat) over;
        subscribers = ap (λ t. t.subscribers) over;
      })

  -- The turns of the publisher alone, from the head of its loop on while the server runs, come to one
  -- round as a whole: they send what `publish` gives, in its order, and advance the latitude as it does.
  turns-publish :
      (subs : Subscribers) (s : System Float)
      → let begun = record s {
        running = true;
        is_open = true;
        subscribers = subs;
        publisher = np_head;
      } in
        let over = turns pack_f advance (publishing (round_turns subs)) begun in
        (over.events ≡ log (publish pack_f advance subs s.mock_lat).0 s.events)
        × (over.mock_lat ≡ (publish pack_f advance subs s.mock_lat).1)
        × (over.subscribers ≡ subs)
  unfolding turns turn np_turn publish
  turns-publish [] s = (refl, refl, refl)
  turns-publish (a ∷ addrs) s =
      let over =
        packed_round (notification pack_f advance s.mock_lat) a addrs
          (record s { running = true; publisher = np_pack }) refl in
      (over.events, over.mock_lat, over.subscribers)

module _ (a : Address) where
  notifications-log :
      (ds : List Datagram) (es : List Event)
      → notifications a (log ds es) ≡ count a ds + notifications a es
  notifications-log [] es = omega arith
  notifications-log (d ∷ ds) es = ground (arith, notifications-log ds (notified d ∷ es))

  -- A server that began without subscribers and has heard some packets: when the publisher takes the
  -- turns of a round, from the head of its loop on while the server runs, every address whose last
  -- request of the two kinds was for a subscription is sent one notification, and no other is, when
  -- struct packs the latitude into four bytes.
  pub round_notifies_once :
      {Float : Type 0} (pack_f : Float → Bytes) (advance : Float → Float)
      (received : List (Address × Bytes)) (s : System Float)
      → length (pack_f s.mock_lat) ≡ 4
      → IsBytes received
      → let subs = listen_all received [] in
        let begun = record s {
          running = true;
          is_open = true;
          subscribers = subs;
          publisher = np_head;
        } in
        let over = turns pack_f advance (publishing (round_turns subs)) begun in
        (notifications a over.events
          ≡ (if subscribed a received false then 1 else 0) + notifications a s.events)
        × (over.subscribers ≡ subs)
  round_notifies_once pack_f advance received s four bytes =
      let subs = listen_all received [] in
      let (sent, _, same) = turns-publish pack_f advance subs s in
      (
        ap (notifications a) sent
            ∙ notifications-log (publish pack_f advance subs s.mock_lat).0 s.events
            ∙ ap (λ n. n + notifications a s.events)
                (publish_once pack_f advance a received s.mock_lat four bytes),
        same,
      )
