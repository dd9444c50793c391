-- ===== src/SomeIp/Threads/Steps.antt =====
-- What a turn of a thread of the server leaves as it was.
use automotive_testing_frame.SomeIp.Threads.{
  send, broadcast, sd_turn, hear_request, answer, ls_turn, test_subscribers, packed, np_turn,
  sd_unstarted, sd_head, sd_send, sd_pause, sd_ended, ls_unstarted, ls_head, ls_receive, ls_answer,
  ls_ended, np_unstarted, np_head, np_test, np_pack, np_snapshot, np_send, np_pause, np_ended,
  np_died, offered, answered, notified, Offerer, Listener, Publisher, Event, System,
}
use automotive_testing_frame.SomeIp.Server.{Address, Datagram, Subscribers, offer, notification}
use automotive_testing_frame.Prelude.{
  if-both, ℕ, suc, ◌+◌, ◌≤◌, ◌≡◌, refl, ap, Bool, true, false, Option, none, some, List, [], ◌∷◌,
  arith, if◌then◌else◌,
}
use automotive_testing_frame.Prelude.Bytes.{Bytes}

-- What went out by the socket that stop() closes.
abbrev pub by_socket : List Event → List Event
by_socket [] = []
by_socket (offered packet ∷ es) = by_socket es
by_socket (answered d ∷ es) = answered d ∷ by_socket es
by_socket (notified d ∷ es) = notified d ∷ by_socket es

abbrev pub offers : List Event → ℕ
offers [] = 0
offers (offered packet ∷ es) = suc (offers es)
offers (answered d ∷ es) = offers es
offers (notified d ∷ es) = offers es

-- An offer that is still to be sent: the test of `running` is passed.
abbrev pub due : Offerer → ℕ
due sd_send = 1
due o = 0

module _ {Float : Type 0} where
  -- The turn of a thread.
  pub record IsThreadStep (s after : System Float) : Type 0 where
    pub running : after.running ≡ s.running
    pub is_open : after.is_open ≡ s.is_open
    pub program : after.program ≡ s.program
    pub socket : s.is_open ≡ false → by_socket after.events ≡ by_socket s.events
    pub offering :
        s.running ≡ false
        → offers after.events + due after.offerer ≤ offers s.events + due s.offerer

  quiet-IsThreadStep :
      (s after : System Float)
      → after.running ≡ s.running
      → after.is_open ≡ s.is_open
      → after.program ≡ s.program
      → after.events ≡ s.events
      → due after.offerer ≤ due s.offerer
      → IsThreadStep s after
  quiet-IsThreadStep s after r i p e o = record {
    running = r;
    is_open = i;
    program = p;
    socket = λ h. ap by_socket e;
    offering = λ h. rw (e) (omega (arith, o));
  }

  broadcast-IsThreadStep :
      (is_sent : Bool) (packet : Option Bytes) (s : System Float)
      → s.offerer ≡ sd_send
      → IsThreadStep s (broadcast is_sent packet s)
  broadcast-IsThreadStep true (some packet) s e = record {
    running = refl;
    is_open = refl;
    program = refl;
    socket = λ h. refl;
    offering = λ h. omega (arith, ap due e);
  }
  broadcast-IsThreadStep true none s e = quiet-IsThreadStep s _ refl refl refl refl (omega arith)
  broadcast-IsThreadStep false packet s e = quiet-IsThreadStep s _ refl refl refl refl (omega arith)

  sd_head-IsThreadStep :
      (running : Bool) (s : System Float)
      → s.running ≡ running
      → IsThreadStep s
          (if running then record s { offerer = sd_send } else record s { offerer = sd_ended })
  sd_head-IsThreadStep true s e = record {
    running = refl;
    is_open = refl;
    program = refl;
    socket = λ h. refl;
    offering = λ h. cc;
  }
  sd_head-IsThreadStep false s e = quiet-IsThreadStep s _ refl refl refl refl (omega arith)

  pub sd_turn-IsThreadStep :
      (is_sent : Bool) (o : Offerer) (s : System Float)
      → s.offerer ≡ o
      → IsThreadStep s (sd_turn is_sent o s)
  unfolding sd_turn
  sd_turn-IsThreadStep is_sent sd_unstarted s e =
      quiet-IsThreadStep s s refl refl refl refl (omega arith)
  sd_turn-IsThreadStep is_sent sd_head s e = sd_head-IsThreadStep s.running s refl
  sd_turn-IsThreadStep is_sent sd_send s e = broadcast-IsThreadStep is_sent offer s e
  sd_turn-IsThreadStep is_sent sd_pause s e =
      quiet-IsThreadStep s _ refl refl refl refl (omega arith)
  sd_turn-IsThreadStep is_sent sd_ended s e =
      quiet-IsThreadStep s s refl refl refl refl (omega arith)

  answer-IsThreadStep :
      (is_sent : Bool) (ds : List Datagram) (s : System Float)
      → IsThreadStep s (answer is_sent ds s)
  answer-IsThreadStep is_sent [] s = quiet-IsThreadStep s _ refl refl refl refl (omega arith)
  answer-IsThreadStep false (d ∷ ds) s = quiet-IsThreadStep s _ refl refl refl refl (omega arith)
  answer-IsThreadStep true (d ∷ ds) s = record {
    running = refl;
    is_open = refl;
    program = refl;
    socket = λ h. rw (h) refl;
    offering = λ h. ground arith;
  }

  hear_request-IsThreadStep :
      (is_open : Bool) (received : Option (Address × Bytes)) (s : System Float)
      → IsThreadStep s (hear_request is_open received s)
  hear_request-IsThreadStep true (some (addr, packet)) s =
      quiet-IsThreadStep s _ refl refl refl refl (omega arith)
  hear_request-IsThreadStep true none s = quiet-IsThreadStep s _ refl refl refl refl (omega arith)
  hear_request-IsThreadStep false received s =
      quiet-IsThreadStep s _ refl refl refl refl (omega arith)

  pub ls_turn-IsThreadStep :
      (is_sent : Bool) (received : Option (Address × Bytes)) (l : Listener) (s : System Float)
      → IsThreadStep s (ls_turn is_sent received l s)
  unfolding ls_turn
  ls_turn-IsThreadStep is_sent received ls_unstarted s =
      quiet-IsThreadStep s s refl refl refl refl (omega arith)
  ls_turn-IsThreadStep is_sent received ls_head s =
      if-both (IsThreadStep s) s.running _ _
        (quiet-IsThreadStep s _ refl refl refl refl (omega arith))
        (quiet-IsThreadStep s _ refl refl refl refl (omega arith))
  ls_turn-IsThreadStep is_sent received ls_receive s =
      hear_request-IsThreadStep s.is_open received s
  ls_turn-IsThreadStep is_sent received (ls_answer ds) s = answer-IsThreadStep is_sent ds s
  ls_turn-IsThreadStep is_sent received ls_ended s =
      quiet-IsThreadStep s s refl refl refl refl (omega arith)

module _ {Float : Type 0} (pack_f : Float → Bytes) (advance : Float → Float) where
  send-IsThreadStep :
      (is_sent : Bool) (packet : Bytes) (b : Address) (addrs : List Address) (s : System Float)
      → IsThreadStep s
          (record (send is_sent (notified (b, packet)) s) { publisher = np_send packet addrs })
  send-IsThreadStep false packet b addrs s =
      quiet-IsThreadStep s _ refl refl refl refl (omega arith)
  send-IsThreadStep true packet b addrs s = record {
    running = refl;
    is_open = refl;
    program = refl;
    socket = λ h. rw (h) refl;
    offering = λ h. ground arith;
  }

  test_subscribers-IsThreadStep :
      (subs : Subscribers) (s : System Float)
      → IsThreadStep s (test_subscribers pack_f advance subs s)
  test_subscribers-IsThreadStep [] s = quiet-IsThreadStep s _ refl refl refl refl (omega arith)
  test_subscribers-IsThreadStep (b ∷ subs) s =
      quiet-IsThreadStep s _ refl refl refl refl (omega arith)

  packed-IsThreadStep :
      (packet : Option Bytes) (s : System Float) → IsThreadStep s (packed pack_f advance packet s)
  packed-IsThreadStep none s = quiet-IsThreadStep s _ refl refl refl refl (omega arith)
  packed-IsThreadStep (some packet) s = quiet-IsThreadStep s _ refl refl refl refl (omega arith)

  pub np_turn-IsThreadStep :
      (is_sent : Bool) (p : Publisher) (s : System Float)
      → IsThreadStep s (np_turn pack_f advance is_sent p s)
  unfolding np_turn
  np_turn-IsThreadStep is_sent np_unstarted s =
      quiet-IsThreadStep s s refl refl refl refl (omega arith)
  np_turn-IsThreadStep is_sent np_head s =
      if-both (IsThreadStep s) s.running _ _
        (quiet-IsThreadStep s _ refl refl refl refl (omega arith))
        (quiet-IsThreadStep s _ refl refl refl refl (omega arith))
  np_turn-IsThreadStep is_sent np_test s = test_subscribers-IsThreadStep s.subscribers s
  np_turn-IsThreadStep is_sent np_pack s =
      packed-IsThreadStep (notification pack_f advance s.mock_lat) s
  np_turn-IsThreadStep is_sent (np_snapshot packet) s =
      quiet-IsThreadStep s _ refl refl refl refl (omega arith)
  np_turn-IsThreadStep is_sent (np_send packet []) s =
      quiet-IsThreadStep s _ refl refl refl refl (omega arith)
  np_turn-IsThreadStep is_sent (np_send packet (b ∷ addrs)) s =
      send-IsThreadStep is_sent packet b addrs s
  np_turn-IsThreadStep is_sent np_pause s = quiet-IsThreadStep s _ refl refl refl refl (omega arith)
  np_turn-IsThreadStep is_sent np_ended s = quiet-IsThreadStep s s refl refl refl refl (omega arith)
  np_turn-IsThreadStep is_sent np_died s = quiet-IsThreadStep s s refl refl refl refl (omega arith)
