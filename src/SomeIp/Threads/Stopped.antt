-- ===== src/SomeIp/Threads/Stopped.antt =====
-- What the server sends after stop().
use automotive_testing_frame.SomeIp.Threads.Steps.{
  by_socket, offers, due, IsThreadStep, sd_turn-IsThreadStep, ls_turn-IsThreadStep,
  np_turn-IsThreadStep,
}
use automotive_testing_frame.SomeIp.Threads.{
  go_on, program_turn, new, turn, turns, sd_unstarted, sd_head, sd_send, sd_pause, sd_ended, fresh,
  spawning_sd, spawning_listen, spawning_notify, started, closing, stopped, announce, hear,
  publishes, calls_start, calls_stop, Offerer, Program, Event, System, Turn,
}
use automotive_testing_frame.Prelude.{
  ℕ, ◌+◌, ◌≤◌, ◌≡◌, refl, sym, ap, ◌∙◌, Bool, true, false, List, [], ◌∷◌, arith,
}
use automotive_testing_frame.Prelude.Bytes.{Bytes}

-- Whether the program has set `running` to False in stop(), and has closed the socket.
abbrev is_stopping : Program → Bool
is_stopping closing = true
is_stopping stopped = true
is_stopping p = false

abbrev is_closed : Program → Bool
is_closed stopped = true
is_closed p = false

module _ {Float : Type 0} where
  record IsPhased (s : System Float) : Type 0 where
    off : is_stopping s.program ≡ true → s.running ≡ false
    closed : is_closed s.program ≡ true → s.is_open ≡ false

  thread-IsPhased : (s after : System Float) → IsThreadStep s after → IsPhased s → IsPhased after
  thread-IsPhased s after step p = record {
    off = λ h. step.running ∙ p.off (sym (ap is_stopping step.program) ∙ h);
    closed = λ h. step.is_open ∙ p.closed (sym (ap is_closed step.program) ∙ h);
  }

  go_on-IsPhased :
      (p : Program) (s : System Float) → s.program ≡ p → IsPhased s → IsPhased (go_on p s)
  unfolding go_on
  go_on-IsPhased spawning_sd s e q = record { off = λ h. cc; closed = λ h. cc }
  go_on-IsPhased spawning_listen s e q = record { off = λ h. cc; closed = λ h. cc }
  go_on-IsPhased spawning_notify s e q = record { off = λ h. cc; closed = λ h. cc }
  go_on-IsPhased closing s e q = record { off = λ h. q.off (ap is_stopping e); closed = λ h. refl }
  go_on-IsPhased fresh s e q = q
  go_on-IsPhased started s e q = q
  go_on-IsPhased stopped s e q = q

  program_turn-IsPhased :
      (t : Turn) (p : Program) (s : System Float)
      → s.program ≡ p
      → IsPhased s
      → IsPhased (program_turn t p s)
  unfolding program_turn
  program_turn-IsPhased calls_start fresh s e q = record { off = λ h. cc; closed = λ h. cc }
  program_turn-IsPhased calls_stop fresh s e q = record { off = λ h. refl; closed = λ h. cc }
  program_turn-IsPhased calls_stop started s e q = record { off = λ h. refl; closed = λ h. cc }
  program_turn-IsPhased t p s e q = go_on-IsPhased p s e q

  -- After stop(), with so much sent by the socket, and so many offers made or due.
  record IsOff (sent : List Event) (bound : ℕ) (s : System Float) : Type 0 where
    running : s.running ≡ false
    is_open : s.is_open ≡ false
    program : s.program ≡ stopped
    socket : by_socket s.events ≡ sent
    offering : offers s.events + due s.offerer ≤ bound

  thread-IsOff :
      (sent : List Event) (bound : ℕ) (s after : System Float)
      → IsThreadStep s after
      → IsOff sent bound s
      → IsOff sent bound after
  thread-IsOff sent bound s after step q = record {
    running = step.running ∙ q.running;
    is_open = step.is_open ∙ q.is_open;
    program = step.program ∙ q.program;
    socket = step.socket q.is_open ∙ q.socket;
    offering = omega (arith, step.offering q.running, q.offering);
  }

  stopped_stays : (t : Turn) (s : System Float) → program_turn t stopped s ≡ s
  unfolding program_turn go_on
  stopped_stays calls_start s = refl
  stopped_stays calls_stop s = refl
  stopped_stays (announce is_sent) s = refl
  stopped_stays (hear is_sent received) s = refl
  stopped_stays (publishes is_sent) s = refl

  program_turn-stopped :
      (t : Turn) (p : Program) (s : System Float) → p ≡ stopped → program_turn t p s ≡ s
  unfolding program_turn go_on
  program_turn-stopped t stopped s e = stopped_stays t s
  program_turn-stopped t fresh s e = cc
  program_turn-stopped t spawning_sd s e = cc
  program_turn-stopped t spawning_listen s e = cc
  program_turn-stopped t spawning_notify s e = cc
  program_turn-stopped t started s e = cc
  program_turn-stopped t closing s e = cc

  program-IsOff :
      (t : Turn) (sent : List Event) (bound : ℕ) (s : System Float)
      → IsOff sent bound s
      → IsOff sent bound (program_turn t s.program s)
  program-IsOff t sent bound s q = rw (program_turn-stopped t s.program s q.program) q

module _ {Float : Type 0} (pack_f : Float → Bytes) (advance : Float → Float) where
  turn-IsPhased : (t : Turn) (s : System Float) → IsPhased s → IsPhased (turn pack_f advance t s)
  unfolding turn
  turn-IsPhased (announce is_sent) s q =
      thread-IsPhased s _ (sd_turn-IsThreadStep is_sent s.offerer s refl) q
  turn-IsPhased (hear is_sent received) s q =
      thread-IsPhased s _ (ls_turn-IsThreadStep is_sent received s.listener s) q
  turn-IsPhased (publishes is_sent) s q =
      thread-IsPhased s _ (np_turn-IsThreadStep pack_f advance is_sent s.publisher s) q
  turn-IsPhased calls_start s q = program_turn-IsPhased calls_start s.program s refl q
  turn-IsPhased calls_stop s q = program_turn-IsPhased calls_stop s.program s refl q

  turn-IsOff :
      (sent : List Event) (bound : ℕ) (t : Turn) (s : System Float)
      → IsOff sent bound s
      → IsOff sent bound (turn pack_f advance t s)
  unfolding turn
  turn-IsOff sent bound (announce is_sent) s q =
      thread-IsOff sent bound s _ (sd_turn-IsThreadStep is_sent s.offerer s refl) q
  turn-IsOff sent bound (hear is_sent received) s q =
      thread-IsOff sent bound s _ (ls_turn-IsThreadStep is_sent received s.listener s) q
  turn-IsOff sent bound (publishes is_sent) s q =
      thread-IsOff sent bound s _ (np_turn-IsThreadStep pack_f advance is_sent s.publisher s) q
  turn-IsOff sent bound calls_start s q = program-IsOff calls_start sent bound s q
  turn-IsOff sent bound calls_stop s q = program-IsOff calls_stop sent bound s q

  turns-IsPhased :
      (ts : List Turn) (s : System Float) → IsPhased s → IsPhased (turns pack_f advance ts s)
  unfolding turns
  turns-IsPhased [] s q = q
  turns-IsPhased (t ∷ ts) s q = turns-IsPhased ts (turn pack_f advance t s) (turn-IsPhased t s q)

  turns-IsOff :
      (sent : List Event) (bound : ℕ) (ts : List Turn) (s : System Float)
      → IsOff sent bound s
      → IsOff sent bound (turns pack_f advance ts s)
  unfolding turns
  turns-IsOff sent bound [] s q = q
  turns-IsOff sent bound (t ∷ ts) s q =
      turns-IsOff sent bound ts (turn pack_f advance t s) (turn-IsOff sent bound t s q)

  due-le : (o : Offerer) → due o ≤ 1
  due-le sd_send = omega arith
  due-le sd_unstarted = omega arith
  due-le sd_head = omega arith
  due-le sd_pause = omega arith
  due-le sd_ended = omega arith

  -- Once stop() has returned, whatever the threads do, no answer and no notification is sent any more,
  -- and at most one more offer, from a round that had begun.
  pub sent_after_stop :
      (before after : List Turn) (lat : Float)
      → (turns pack_f advance before (new pack_f advance lat)).program ≡ stopped
      → let now = turns pack_f advance before (new pack_f advance lat) in
        let later = turns pack_f advance after now in
        (by_socket later.events ≡ by_socket now.events)
        × (offers later.events ≤ offers now.events + 1)
  sent_after_stop before after lat e =
      let now = turns pack_f advance before (new pack_f advance lat) in
      let phased =
        turns-IsPhased before (new pack_f advance lat)
          (record { off = λ h. refl; closed = λ h. cc }) in
      let kept = turns-IsOff (by_socket now.events) (offers now.events + 1) after now (record {
        running = phased.off (ap is_stopping e);
        is_open = phased.closed (ap is_closed e);
        program = e;
        socket = refl;
        offering = omega (arith, due-le now.offerer);
      }) in
      (kept.socket, omega (arith, kept.offering))
