-- ===== src/SomeIp/Threads/Waiting.antt =====
-- The notifications that an address is sent, and those that it is still to be sent.
use automotive_testing_frame.SomeIp.Threads.{
  send, broadcast, sd_turn, go_on, program_turn, sd_unstarted, sd_head, sd_send, sd_pause, sd_ended,
  np_send, fresh, spawning_sd, spawning_listen, spawning_notify, started, closing, stopped,
  notified, calls_start, calls_stop, Offerer, Publisher, Program, Event, System, Turn,
}
use automotive_testing_frame.SomeIp.Server.{Address, same_address, Subscribers, contains, offer}
use automotive_testing_frame.SomeIp.Subscribers.{IsDistinct, same_address_sound}
use automotive_testing_frame.Prelude.{
  if-both, ℕ, ◌+◌, ◌≤◌, ◌≡◌, refl, Bool, true, false, Option, none, some, List, [], ◌∷◌, arith,
  if◌then◌else◌,
}
use automotive_testing_frame.Prelude.Bytes.{Bytes}

module _ (a : Address) where
  abbrev pub in_list : List Address → ℕ
  in_list [] = 0
  in_list (b ∷ bs) = (if same_address a b then 1 else 0) + in_list bs

  -- The notifications of the address that are sent, and those in the list of the publisher.
  abbrev pub is_notified : Event → ℕ
  is_notified (notified (b, packet)) = if same_address a b then 1 else 0
  is_notified e = 0

  abbrev pub notifications : List Event → ℕ
  notifications [] = 0
  notifications (e ∷ es) = is_notified e + notifications es

  abbrev pub waiting : Publisher → ℕ
  waiting (np_send packet addrs) = in_list addrs
  waiting p = 0

  pub in_list-none : (s : Subscribers) → contains a s ≡ false → in_list s ≡ 0
  unfolding contains
  in_list-none [] h = refl
  in_list-none (b ∷ s) h = ground (arith, in_list-none s)

  pub in_list-once : (s : Subscribers) → IsDistinct s → in_list s ≤ 1
  in_list-once [] d = omega arith
  in_list-once (b ∷ s) d = ground (arith, in_list-once s, in_list-none s, same_address_sound a b)

  module _ {Float : Type 0} where
    -- A turn that leaves the subscribers, and gives the address nothing.
    pub record IsLess (s after : System Float) : Type 0 where
      pub subscribers : after.subscribers ≡ s.subscribers
      pub total :
          notifications after.events + waiting after.publisher
          ≤ notifications s.events + waiting s.publisher
      pub left : waiting after.publisher ≤ waiting s.publisher

    pub sent-le :
        (is_sent : Bool) (e : Event) (s : System Float)
        → notifications (send is_sent e s).events ≤ is_notified e + notifications s.events
    sent-le true e s = ground arith
    sent-le false e s = omega arith

    pub unchanged-IsLess :
        (s after : System Float)
        → after.subscribers ≡ s.subscribers
        → after.events ≡ s.events
        → after.publisher ≡ s.publisher
        → IsLess s after
    unchanged-IsLess s after same_s same_e same_p = record {
      subscribers = same_s;
      total = rw (same_e, same_p) (omega arith);
      left = rw (same_p) (omega arith);
    }

    broadcast-IsLess :
        (packet : Option Bytes) (s : System Float) → IsLess s (broadcast true packet s)
    broadcast-IsLess none s = unchanged-IsLess s _ refl refl refl
    broadcast-IsLess (some packet) s = record {
      subscribers = refl;
      total = omega arith;
      left = omega arith;
    }

    pub sd_turn-IsLess :
        (is_sent : Bool) (o : Offerer) (s : System Float) → IsLess s (sd_turn is_sent o s)
    unfolding sd_turn
    sd_turn-IsLess is_sent sd_unstarted s = unchanged-IsLess s s refl refl refl
    sd_turn-IsLess is_sent sd_head s =
        if-both (IsLess s) s.running _ _ (unchanged-IsLess s _ refl refl refl)
          (unchanged-IsLess s _ refl refl refl)
    sd_turn-IsLess true sd_send s = broadcast-IsLess offer s
    sd_turn-IsLess false sd_send s = unchanged-IsLess s _ refl refl refl
    sd_turn-IsLess is_sent sd_pause s = unchanged-IsLess s _ refl refl refl
    sd_turn-IsLess is_sent sd_ended s = unchanged-IsLess s s refl refl refl

    go_on-IsLess : (p : Program) (s : System Float) → IsLess s (go_on p s)
    unfolding go_on
    go_on-IsLess spawning_sd s = unchanged-IsLess s _ refl refl refl
    go_on-IsLess spawning_listen s = unchanged-IsLess s _ refl refl refl
    go_on-IsLess spawning_notify s = record {
      subscribers = refl;
      total = omega arith;
      left = omega arith;
    }
    go_on-IsLess closing s = unchanged-IsLess s _ refl refl refl
    go_on-IsLess fresh s = unchanged-IsLess s s refl refl refl
    go_on-IsLess started s = unchanged-IsLess s s refl refl refl
    go_on-IsLess stopped s = unchanged-IsLess s s refl refl refl

    pub program_turn-IsLess :
        (t : Turn) (p : Program) (s : System Float) → IsLess s (program_turn t p s)
    unfolding program_turn
    program_turn-IsLess calls_start fresh s = unchanged-IsLess s _ refl refl refl
    program_turn-IsLess calls_stop fresh s = unchanged-IsLess s _ refl refl refl
    program_turn-IsLess calls_stop started s = unchanged-IsLess s _ refl refl refl
    program_turn-IsLess t p s = go_on-IsLess p s
