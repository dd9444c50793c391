-- ===== src/SomeIp/Threads.antt =====
-- The three threads of the server and the program that starts and stops it, one access to shared state
-- at a time, in any order.
pub mod Waiting
pub mod Publishing
pub mod Unsubscribed
pub mod Rounds
pub mod Steps
pub mod Stopped
use automotive_testing_frame.Prelude.{
  ◌≡◌, refl, Bool, true, false, Option, none, some, List, [], ◌∷◌, ◌++◌, if◌then◌else◌,
}
use automotive_testing_frame.Prelude.Bytes.{Bytes}
use automotive_testing_frame.SomeIp.Server.{
  Address, Datagram, Subscribers, listen, offer, notification,
}

-- Where _broadcast_sd stands.
pub data Offerer : Type 0 where
  sd_unstarted sd_head sd_send sd_pause sd_ended : Offerer

-- Where _listen stands; the answers of the request it handles are still to send.
pub data Listener : Type 0 where
  ls_unstarted ls_head ls_receive : Listener
  ls_answer : List Datagram → Listener
  ls_ended : Listener

-- Where _publish_notifications stands: with a packet, before it takes the list of the subscribers, and
-- with the addresses of that list that are left. `np_died` is after the error of struct.pack.
pub data Publisher : Type 0 where
  np_unstarted np_head np_test np_pack : Publisher
  np_snapshot : Bytes → Publisher
  np_send : Bytes → List Address → Publisher
  np_pause np_ended np_died : Publisher

-- Where the program stands: before start(), in it, after it, and in and after stop().
pub data Program : Type 0 where
  fresh spawning_sd spawning_listen spawning_notify started closing stopped : Program

-- What was sent, by the thread that sent it.
pub data Event : Type 0 where
  offered : Bytes → Event
  answered notified : Datagram → Event

pub record System (Float : Type 0) : Type 0 where
  pub running : Bool
  pub is_open : Bool
  pub subscribers : Subscribers
  pub mock_lat : Float
  pub offerer : Offerer
  pub listener : Listener
  pub publisher : Publisher
  pub program : Program
  pub events : List Event

-- A turn of each thread; `true` is a send that raises no error, and `hear none` a recvfrom that raises
-- one. The program calls start() once, and stop().
pub data Turn : Type 0 where
  announce : Bool → Turn
  hear : Bool → Option (Address × Bytes) → Turn
  publishes : Bool → Turn
  calls_start calls_stop : Turn

-- `sendto` on `self.sock`, which stop() closes: nothing is sent after that.
abbrev pub send : {Float : Type 0} → Bool → Event → System Float → System Float
send true e s = record s { events = if s.is_open then e ∷ s.events else s.events }
send false e s = s

-- An OfferService, on the socket of the thread. An error ends the thread.
abbrev pub broadcast : {Float : Type 0} → Bool → Option Bytes → System Float → System Float
broadcast true (some packet) s = record s { offerer = sd_pause; events = offered packet ∷ s.events }
broadcast is_sent packet s = record s { offerer = sd_ended }

unfoldable pub sd_turn : {Float : Type 0} → Bool → Offerer → System Float → System Float
sd_turn is_sent sd_unstarted s = s
sd_turn is_sent sd_head s =
    if s.running then record s { offerer = sd_send } else record s { offerer = sd_ended }
sd_turn is_sent sd_send s = broadcast is_sent offer s
sd_turn is_sent sd_pause s = record s { offerer = sd_head }
sd_turn is_sent sd_ended s = s

abbrev pub hear_request :
    {Float : Type 0} → Bool → Option (Address × Bytes) → System Float → System Float
hear_request true (some (addr, packet)) s =
    let (subscribers, answers) = listen addr packet s.subscribers in
    record s { subscribers = subscribers; listener = ls_answer answers }
hear_request is_open received s = record s { listener = ls_head }

abbrev pub answer : {Float : Type 0} → Bool → List Datagram → System Float → System Float
answer is_sent [] s = record s { listener = ls_head }
answer is_sent (d ∷ ds) s = record (send is_sent (answered d) s) { listener = ls_answer ds }

unfoldable pub ls_turn :
    {Float : Type 0} → Bool → Option (Address × Bytes) → Listener → System Float → System Float
ls_turn is_sent received ls_unstarted s = s
ls_turn is_sent received ls_head s =
    if s.running then record s { listener = ls_receive } else record s { listener = ls_ended }
ls_turn is_sent received ls_receive s = hear_request s.is_open received s
ls_turn is_sent received (ls_answer ds) s = answer is_sent ds s
ls_turn is_sent received ls_ended s = s

unfoldable pub go_on : {Float : Type 0} → Program → System Float → System Float
go_on spawning_sd s = record s { offerer = sd_head; program = spawning_listen }
go_on spawning_listen s = record s { listener = ls_head; program = spawning_notify }
go_on spawning_notify s = record s { publisher = np_head; program = started }
go_on closing s = record s { is_open = false; program = stopped }
go_on p s = s

-- The program calls stop() before start(), or after it.
unfoldable pub program_turn : {Float : Type 0} → Turn → Program → System Float → System Float
program_turn calls_start fresh s = record s { running = true; program = spawning_sd }
program_turn calls_stop fresh s = record s { running = false; program = closing }
program_turn calls_stop started s = record s { running = false; program = closing }
program_turn t p s = go_on p s

module _ {Float : Type 0} (pack_f : Float → Bytes) (advance : Float → Float) where
  -- `__init__`, and the latitude that _publish_notifications starts with
  abbrev pub new : Float → System Float
  new lat = record {
    running = false;
    is_open = true;
    subscribers = [];
    mock_lat = lat;
    offerer = sd_unstarted;
    listener = ls_unstarted;
    publisher = np_unstarted;
    program = fresh;
    events = [];
  }

  abbrev pub test_subscribers : Subscribers → System Float → System Float
  test_subscribers [] s = record s { publisher = np_pause }
  test_subscribers (a ∷ addrs) s = record s { publisher = np_pack }

  abbrev pub packed : Option Bytes → System Float → System Float
  packed none s = record s { publisher = np_died }
  packed (some packet) s = record s { publisher = np_snapshot packet }

  unfoldable pub np_turn : Bool → Publisher → System Float → System Float
  np_turn is_sent np_unstarted s = s
  np_turn is_sent np_head s =
      if s.running then record s { publisher = np_test } else record s { publisher = np_ended }
  np_turn is_sent np_test s = test_subscribers s.subscribers s
  np_turn is_sent np_pack s = packed (notification pack_f advance s.mock_lat) s
  np_turn is_sent (np_snapshot packet) s = record s { publisher = np_send packet s.subscribers }
  np_turn is_sent (np_send packet []) s = record s {
    publisher = np_pause;
    mock_lat = advance s.mock_lat;
  }
  np_turn is_sent (np_send packet (addr ∷ addrs)) s =
      record (send is_sent (notified (addr, packet)) s) { publisher = np_send packet addrs }
  np_turn is_sent np_pause s = record s { publisher = np_head }
  np_turn is_sent np_ended s = s
  np_turn is_sent np_died s = s

  unfoldable pub turn : Turn → System Float → System Float
  turn (announce is_sent) s = sd_turn is_sent s.offerer s
  turn (hear is_sent received) s = ls_turn is_sent received s.listener s
  turn (publishes is_sent) s = np_turn is_sent s.publisher s
  turn t s = program_turn t s.program s

  unfoldable pub turns : List Turn → System Float → System Float
  turns [] s = s
  turns (t ∷ ts) s = turns ts (turn t s)
