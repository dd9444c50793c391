-- ===== src/SomeIp/Threads/Publishing.antt =====
-- The turns of the publisher, and the notifications for one address.
use automotive_testing_frame.SomeIp.Threads.Waiting.{
  waiting, IsLess, in_list-none, in_list-once, sent-le, unchanged-IsLess,
}
use automotive_testing_frame.SomeIp.Threads.{
  send, test_subscribers, packed, np_turn, np_unstarted, np_head, np_test, np_pack, np_snapshot,
  np_send, np_pause, np_ended, np_died, notified, Publisher, Event, System,
}
use automotive_testing_frame.SomeIp.Server.{Address, Subscribers, contains, notification}
use automotive_testing_frame.SomeIp.Subscribers.{IsDistinct}
use automotive_testing_frame.Prelude.{
  if-both, ◌≤◌, ◌≡◌, refl, ap, Bool, true, false, Option, none, some, [], ◌∷◌, arith,
}
use automotive_testing_frame.Prelude.Bytes.{Bytes}

module _ (a : Address) {Float : Type 0} (pack_f : Float → Bytes) (advance : Float → Float) where
  send-subscribers :
      (is_sent : Bool) (e : Event) (s : System Float)
      → (send is_sent e s).subscribers ≡ s.subscribers
  send-subscribers true e s = refl
  send-subscribers false e s = refl

  -- A turn of the publisher gives an address nothing that is no subscriber.
  tested-IsLess :
      (subs : Subscribers) (s : System Float)
      → waiting a s.publisher ≡ 0
      → IsLess a s (test_subscribers pack_f advance subs s)
  tested-IsLess [] s h = record { subscribers = refl; total = omega (arith, h); left = omega arith }
  tested-IsLess (b ∷ subs) s h = record {
    subscribers = refl;
    total = omega (arith, h);
    left = omega arith;
  }

  packed-IsLess :
      (packet : Option Bytes) (s : System Float) → IsLess a s (packed pack_f advance packet s)
  packed-IsLess none s = record { subscribers = refl; total = omega arith; left = omega arith }
  packed-IsLess (some packet) s = record {
    subscribers = refl;
    total = omega arith;
    left = omega arith;
  }

  pub np_turn-IsLess :
      (is_sent : Bool) (p : Publisher) (s : System Float)
      → s.publisher ≡ p
      → contains a s.subscribers ≡ false
      → IsLess a s (np_turn pack_f advance is_sent p s)
  unfolding np_turn
  np_turn-IsLess is_sent np_unstarted s e gone = unchanged-IsLess a s s refl refl refl
  np_turn-IsLess is_sent np_head s e gone =
      if-both (IsLess a s) s.running _ _
        (record { subscribers = refl; total = omega arith; left = omega arith })
        (record { subscribers = refl; total = omega arith; left = omega arith })
  np_turn-IsLess is_sent np_test s e gone = tested-IsLess s.subscribers s (ap (waiting a) e)
  np_turn-IsLess is_sent np_pack s e gone = packed-IsLess (notification pack_f advance s.mock_lat) s
  np_turn-IsLess is_sent (np_snapshot packet) s e gone =
      let nothing = in_list-none a s.subscribers gone in
      record { subscribers = refl; total = omega (arith, nothing); left = omega (arith, nothing) }
  np_turn-IsLess is_sent (np_send packet []) s e gone = record {
    subscribers = refl;
    total = omega arith;
    left = omega arith;
  }
  np_turn-IsLess is_sent (np_send packet (b ∷ addrs)) s e gone = record {
    subscribers = send-subscribers is_sent (notified (b, packet)) s;
    total = omega (arith, sent-le a is_sent (notified (b, packet)) s, ap (waiting a) e);
    left = omega (arith, ap (waiting a) e);
  }
  np_turn-IsLess is_sent np_pause s e gone = record {
    subscribers = refl;
    total = omega arith;
    left = omega arith;
  }
  np_turn-IsLess is_sent np_ended s e gone = unchanged-IsLess a s s refl refl refl
  np_turn-IsLess is_sent np_died s e gone = unchanged-IsLess a s s refl refl refl

  -- The list of the publisher holds an address at most once.
  pub np_turn-waiting :
      (is_sent : Bool) (p : Publisher) (s : System Float)
      → s.publisher ≡ p
      → IsDistinct s.subscribers
      → waiting a s.publisher ≤ 1
      → ((np_turn pack_f advance is_sent p s).subscribers ≡ s.subscribers)
        × (waiting a (np_turn pack_f advance is_sent p s).publisher ≤ 1)
  unfolding np_turn
  np_turn-waiting is_sent (np_snapshot packet) s e distinct once =
      (refl, in_list-once a s.subscribers distinct)
  np_turn-waiting is_sent (np_send packet (b ∷ addrs)) s e distinct once =
      (send-subscribers is_sent (notified (b, packet)) s, omega (arith, once, ap (waiting a) e))
  np_turn-waiting is_sent np_head s e distinct once =
      if-both (λ (t : System Float). (t.subscribers ≡ s.subscribers) × (waiting a t.publisher ≤ 1))
        s.running _ _ (refl, omega arith) (refl, omega arith)
  np_turn-waiting is_sent np_test s e distinct once =
      let less = tested-IsLess s.subscribers s (ap (waiting a) e) in
      (less.subscribers, omega (arith, once, less.left))
  np_turn-waiting is_sent np_pack s e distinct once =
      let less = packed-IsLess (notification pack_f advance s.mock_lat) s in
      (less.subscribers, omega (arith, once, less.left))
  np_turn-waiting is_sent (np_send packet []) s e distinct once = (refl, omega arith)
  np_turn-waiting is_sent np_pause s e distinct once = (refl, omega arith)
  np_turn-waiting is_sent np_unstarted s e distinct once = (refl, once)
  np_turn-waiting is_sent np_ended s e distinct once = (refl, once)
  np_turn-waiting is_sent np_died s e distinct once = (refl, once)
