-- ===== src/SomeIp/Tests.antt =====
-- A server and its clients at concrete inputs; the latitude is given by its four bytes.
use automotive_testing_frame.SomeIp.Crossings.{
  stop_behind_notification, subscribe_behind_notification,
}
use automotive_testing_frame.SomeIp.Threads.{
  System, new, Turn, calls_start, calls_stop, hear, publishes, announce, turns, turn, np_turn,
  ls_turn, sd_turn, program_turn, go_on, np_head,
}
use automotive_testing_frame.SomeIp.Threads.Waiting.{notifications}
use automotive_testing_frame.SomeIp.Threads.Unsubscribed.{
  IsHeard, IsNoSubscription, notified_after_end,
}
use automotive_testing_frame.SomeIp.Threads.Rounds.{publishing, round_turns, round_notifies_once}
use automotive_testing_frame.SomeIp.Threads.Steps.{by_socket, offers}
use automotive_testing_frame.SomeIp.Threads.Stopped.{sent_after_stop}
use automotive_testing_frame.Prelude.{
  none, ◌++◌, ◌≤◌, ◌+◌, ◌<◌, ◌≡◌, refl, true, false, some, List, [], ◌∷◌, arith, if◌then◌else◌, All,
}
use automotive_testing_frame.Prelude.Bytes.{Bytes, pack_be16, unpack_be16}
use automotive_testing_frame.SomeIp.Server.{
  handle, call_method, subscribe, stop_subscribe, remove, send_subscribe_ack, Address, listen,
  service_id, eventgroup_id, add, contains, publish,
}
use automotive_testing_frame.SomeIp.Header.{version, pack_header, read_header, unpack_header}
use automotive_testing_frame.SomeIp.Client.{
  request, stop_subscribe_eventgroup, subscribe_eventgroup, send_malformed_protocol,
}
use automotive_testing_frame.SomeIp.Sessions.{delivered, over_server}
use automotive_testing_frame.SomeIp.Membership.{listen_all, subscribed, listen_all-subscribed}
use automotive_testing_frame.SomeIp.Subscribers.{IsDistinct}
use automotive_testing_frame.SomeIp.Membership.{intent}

abbrev client : Address
client = record { host = 0x7f000001; port = 50001 }

abbrev neighbour : Address
neighbour = record { host = 0x7f000001; port = 50002 }

abbrev payload_1 : Bytes
payload_1 = 0x00 ∷ 0x01 ∷ []

abbrev subscribe_packet : Bytes
subscribe_packet =
    0x12 ∷ 0x34 ∷ 0 ∷ 1 ∷ 0 ∷ 0 ∷ 0 ∷ 10 ∷ 0x01 ∷ 0x23 ∷ 0 ∷ 1 ∷ 1 ∷ 1 ∷ 0 ∷ 0 ∷ payload_1

abbrev stop_packet : Bytes
stop_packet = 0x12 ∷ 0x34 ∷ 0 ∷ 2 ∷ 0 ∷ 0 ∷ 0 ∷ 10 ∷ 0x01 ∷ 0x23 ∷ 0 ∷ 2 ∷ 1 ∷ 1 ∷ 0 ∷ 0 ∷ payload_1

abbrev malformed_packet : Bytes
malformed_packet =
    0x12 ∷ 0x34 ∷ 0 ∷ 1 ∷ 0 ∷ 0 ∷ 0 ∷ 10 ∷ 0x01 ∷ 0x23 ∷ 0 ∷ 3 ∷ 2 ∷ 1 ∷ 0 ∷ 0 ∷ payload_1

subscribe_sent : request service_id 0x0001 0x01230001 version eventgroup_id ≡ some subscribe_packet
unfolding request pack_header pack_be16
subscribe_sent = refl

stop_sent : request service_id 0x0002 0x01230002 version eventgroup_id ≡ some stop_packet
unfolding request pack_header pack_be16
stop_sent = refl

malformed_sent : send_malformed_protocol service_id eventgroup_id 2 ≡ some malformed_packet
unfolding send_malformed_protocol request pack_header pack_be16
malformed_sent = refl

both-IsDistinct : IsDistinct (client ∷ neighbour ∷ [])
unfolding contains
both-IsDistinct = (refl, (refl, tt))

-- Two subscribe, one twice, and the other stops again.
abbrev received : List (Address × Bytes)
received =
    (client, subscribe_packet)
    ∷ (neighbour, subscribe_packet)
    ∷ (client, subscribe_packet)
    ∷ (neighbour, stop_packet)
    ∷ (neighbour, malformed_packet)
    ∷ []

received_bytes : All (λ r. All (λ b. b < 256) r.1) received
received_bytes = ground arith

listen_all-subscribed_example :
    contains client (listen_all received []) ≡ subscribed client received (contains client [])
listen_all-subscribed_example = listen_all-subscribed client received [] tt received_bytes

abbrev latitude : Bytes
latitude = 0x42 ∷ 0x34 ∷ 0x7e ∷ 0x5d ∷ []

the_ends : (subscribed client received false ≡ true) × (subscribed neighbour received false ≡ false)
unfolding subscribed intent
the_ends = (refl, refl)

abbrev start : System Bytes
start = new (λ bs. bs) (λ bs. bs) latitude

-- The client subscribes, the publisher takes the list of the subscribers, and the client stops.
abbrev crossing : List Turn
crossing =
    calls_start
    ∷ calls_start
    ∷ calls_start
    ∷ calls_start
    ∷ hear true none
    ∷ hear true (some (client, subscribe_packet))
    ∷ hear true none
    ∷ hear true none
    ∷ publishes true
    ∷ publishes true
    ∷ publishes true
    ∷ publishes true
    ∷ hear true none
    ∷ hear true (some (client, stop_packet))
    ∷ []

abbrev crossed : List Turn
crossed = publishes true ∷ hear true none ∷ publishes true ∷ announce true ∷ []

crossing-IsHeard : All IsHeard crossing
crossing-IsHeard = ground arith

nothing_asked : All (IsNoSubscription client) crossed
nothing_asked = ground arith

notified_after_end_example :
    let now = turns (λ bs. bs) (λ bs. bs) crossing start in
    let later = turns (λ bs. bs) (λ bs. bs) crossed now in
    (contains client later.subscribers ≡ false)
    × (notifications client later.events ≤ notifications client now.events + 1)
unfolding turns turn np_turn ls_turn sd_turn program_turn go_on listen handle call_method subscribe
    stop_subscribe contains add remove read_header unpack_header pack_header send_subscribe_ack
    unpack_be16
notified_after_end_example =
    notified_after_end client (λ bs. bs) (λ bs. bs) crossing crossed latitude crossing-IsHeard refl
      nothing_asked

-- The one notification that was under way.
the_crossing :
    notifications client (turns (λ bs. bs) (λ bs. bs) (crossing ++ crossed) start).events ≡ 1
unfolding turns turn np_turn ls_turn sd_turn program_turn go_on listen handle call_method subscribe
    stop_subscribe contains add remove read_header unpack_header pack_header send_subscribe_ack
    unpack_be16
the_crossing = refl

-- A round after those packets.
round_notifies_once_example :
    let subs = listen_all received [] in
    let begun = record start {
      running = true;
      is_open = true;
      subscribers = subs;
      publisher = np_head;
    } in
    let over = turns (λ bs. bs) (λ bs. bs) (publishing (round_turns subs)) begun in
    (notifications client over.events
      ≡ (if subscribed client received false then 1 else 0) + notifications client [])
    × (over.subscribers ≡ subs)
round_notifies_once_example =
    round_notifies_once client (λ bs. bs) (λ bs. bs) received start refl received_bytes

-- stop() while the first offer is under way.
abbrev early_stop : List Turn
early_stop =
    calls_start
    ∷ calls_start
    ∷ calls_start
    ∷ calls_start
    ∷ announce true
    ∷ calls_stop
    ∷ calls_stop
    ∷ []

sent_after_stop_example :
    let now = turns (λ bs. bs) (λ bs. bs) early_stop start in
    let later = turns (λ bs. bs) (λ bs. bs) (announce true ∷ hear true none ∷ []) now in
    (by_socket later.events ≡ by_socket now.events) × (offers later.events ≤ offers now.events + 1)
unfolding turns turn sd_turn program_turn go_on
sent_after_stop_example =
    sent_after_stop (λ bs. bs) (λ bs. bs) early_stop (announce true ∷ hear true none ∷ []) latitude
      refl

-- A client that subscribes once more.
subscribe_behind_notification_example :
    (subscribe_eventgroup (over_server client (client ∷ neighbour ∷ [])) service_id eventgroup_id
      ≡ some true)
    × (subscribe_eventgroup
          (λ p. delivered client (
            (publish (λ bs. bs) (λ bs. bs) (client ∷ neighbour ∷ []) latitude).0
            ++ (listen client p (client ∷ neighbour ∷ [])).1))
          service_id
          eventgroup_id
        ≡ some false)
    × ((listen client subscribe_packet (client ∷ neighbour ∷ [])).0
        ≡ add client (client ∷ neighbour ∷ []))
unfolding contains
subscribe_behind_notification_example =
    subscribe_behind_notification (λ bs. bs) (λ bs. bs) client (client ∷ neighbour ∷ []) latitude
      service_id eventgroup_id subscribe_packet refl subscribe_sent

stop_behind_notification_example :
    (stop_subscribe_eventgroup
        (λ p. delivered client (
          (publish (λ bs. bs) (λ bs. bs) (client ∷ neighbour ∷ []) latitude).0
          ++ (listen client p (client ∷ neighbour ∷ [])).1))
        service_id
        eventgroup_id
      ≡ some false)
    × (stop_subscribe_eventgroup
          (over_server client (client ∷ neighbour ∷ []))
          service_id
          eventgroup_id
        ≡ some true)
    × (contains client (listen client stop_packet (client ∷ neighbour ∷ [])).0 ≡ false)
unfolding contains
stop_behind_notification_example =
    stop_behind_notification (λ bs. bs) (λ bs. bs) client (client ∷ neighbour ∷ []) latitude
      eventgroup_id stop_packet refl both-IsDistinct refl stop_sent
