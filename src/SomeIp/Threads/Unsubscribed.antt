-- ===== src/SomeIp/Threads/Unsubscribed.antt =====
-- What an address is sent that is no subscriber any more.
use automotive_testing_frame.SomeIp.Threads.Publishing.{np_turn-IsLess, np_turn-waiting}
use automotive_testing_frame.SomeIp.Threads.Waiting.{
  notifications, waiting, IsLess, sent-le, sd_turn-IsLess, program_turn-IsLess, unchanged-IsLess,
}
use automotive_testing_frame.SomeIp.Threads.{
  hear_request, answer, ls_turn, new, turn, turns, ls_unstarted, ls_head, ls_receive, ls_answer,
  ls_ended, answered, announce, hear, publishes, calls_start, calls_stop, Listener, System, Turn,
}
use automotive_testing_frame.SomeIp.Server.{Address, same_address, Datagram, contains}
use automotive_testing_frame.SomeIp.Subscribers.{IsDistinct}
use automotive_testing_frame.SomeIp.Membership.{
  intent, subscribes, stops, neither, Intent, subscribed_by, listen-intent, listen-IsDistinct,
}
use automotive_testing_frame.Prelude.{
  if-both, ℕ, ◌+◌, ◌≤◌, ◌<◌, ◌≡◌, refl, ap, ◌∙◌, ◌≢◌, Bool, true, false, Option, none, some, List,
  [], ◌∷◌, arith, All,
}
use automotive_testing_frame.Prelude.Bytes.{Bytes}

-- What a turn of the listener hears is bytes.
abbrev pub IsHeard : Turn → Type 0
IsHeard (hear is_sent (some (b, packet))) = All (λ x. x < 256) packet
IsHeard t = Unit

-- Nor is it a request of the address for a subscription.
abbrev pub IsNoSubscription : Address → Turn → Type 0
IsNoSubscription a (hear is_sent (some (b, packet))) =
    All (λ x. x < 256) packet × (same_address a b ≡ true → intent packet ≢ subscribes)
IsNoSubscription a t = Unit

not_subscribed :
    (i : Intent) (own : Bool) → (own ≡ true → i ≢ subscribes) → subscribed_by i own false ≡ false
not_subscribed subscribes true h = absurd (h refl refl)
not_subscribed subscribes false h = refl
not_subscribed stops true h = refl
not_subscribed stops false h = refl
not_subscribed neither own h = refl

module _ (a : Address) {Float : Type 0} where
  -- The publisher has the address in its list at most once.
  record IsSettled (s : System Float) : Type 0 where
    distinct : IsDistinct s.subscribers
    once : waiting a s.publisher ≤ 1

  -- The address is no subscriber, and so many notifications for it are sent or still to be sent.
  record IsGone (bound : ℕ) (s : System Float) : Type 0 where
    distinct : IsDistinct s.subscribers
    gone : contains a s.subscribers ≡ false
    frames : notifications a s.events + waiting a s.publisher ≤ bound

  less-IsSettled : (s after : System Float) → IsLess a s after → IsSettled s → IsSettled after
  less-IsSettled s after less q = record {
    distinct = rw (less.subscribers) q.distinct;
    once = omega (arith, less.left, q.once);
  }

  less-IsGone :
      (bound : ℕ) (s after : System Float) → IsLess a s after → IsGone bound s → IsGone bound after
  less-IsGone bound s after less q = record {
    distinct = rw (less.subscribers) q.distinct;
    gone = rw (less.subscribers) q.gone;
    frames = omega (arith, less.total, q.frames);
  }

  answer-IsLess :
      (is_sent : Bool) (ds : List Datagram) (s : System Float) → IsLess a s (answer is_sent ds s)
  answer-IsLess is_sent [] s = unchanged-IsLess a s _ refl refl refl
  answer-IsLess true (d ∷ ds) s = record {
    subscribers = refl;
    total = omega (arith, sent-le a true (answered d) s);
    left = omega arith;
  }
  answer-IsLess false (d ∷ ds) s = unchanged-IsLess a s _ refl refl refl

  -- What hearing a request does to the subscribers is left to a property of `listen`.
  ls_turn-cases :
      (P : System Float → Type 0) (is_sent : Bool) (received : Option (Address × Bytes))
      (l : Listener) (s : System Float)
      → ((after : System Float) → IsLess a s after → P after)
      → P (hear_request s.is_open received s)
      → P (ls_turn is_sent received l s)
  unfolding ls_turn
  ls_turn-cases P is_sent received ls_unstarted s less heard =
      less s (unchanged-IsLess a s s refl refl refl)
  ls_turn-cases P is_sent received ls_head s less heard =
      if-both P s.running _ _ (less _ (unchanged-IsLess a s _ refl refl refl))
        (less _ (unchanged-IsLess a s _ refl refl refl))
  ls_turn-cases P is_sent received ls_receive s less heard = heard
  ls_turn-cases P is_sent received (ls_answer ds) s less heard = less _ (answer-IsLess is_sent ds s)
  ls_turn-cases P is_sent received ls_ended s less heard =
      less s (unchanged-IsLess a s s refl refl refl)

  hear_request-IsSettled :
      (is_sent is_open : Bool) (received : Option (Address × Bytes)) (s : System Float)
      → IsHeard (hear is_sent received)
      → IsSettled s
      → IsSettled (hear_request is_open received s)
  hear_request-IsSettled is_sent true (some (b, packet)) s h q = record {
    distinct = listen-IsDistinct b packet s.subscribers q.distinct;
    once = q.once;
  }
  hear_request-IsSettled is_sent true none s h q = record { distinct = q.distinct; once = q.once }
  hear_request-IsSettled is_sent false received s h q = record {
    distinct = q.distinct;
    once = q.once;
  }

  hear_request-IsGone :
      (bound : ℕ) (is_sent is_open : Bool) (received : Option (Address × Bytes)) (s : System Float)
      → IsNoSubscription a (hear is_sent received)
      → IsGone bound s
      → IsGone bound (hear_request is_open received s)
  hear_request-IsGone bound is_sent true (some (b, packet)) s h q = record {
    distinct = listen-IsDistinct b packet s.subscribers q.distinct;
    gone =
        listen-intent a b packet s.subscribers q.distinct h.0
        ∙ ap (subscribed_by (intent packet) (same_address a b)) q.gone
        ∙ not_subscribed (intent packet) (same_address a b) h.1;
    frames = q.frames;
  }
  hear_request-IsGone bound is_sent true none s h q = record {
    distinct = q.distinct;
    gone = q.gone;
    frames = q.frames;
  }
  hear_request-IsGone bound is_sent false received s h q = record {
    distinct = q.distinct;
    gone = q.gone;
    frames = q.frames;
  }

module _ (a : Address) {Float : Type 0} (pack_f : Float → Bytes) (advance : Float → Float) where
  turn-IsSettled :
      (t : Turn) (s : System Float)
      → IsHeard t
      → IsSettled a s
      → IsSettled a (turn pack_f advance t s)
  unfolding turn
  turn-IsSettled (announce is_sent) s h q =
      less-IsSettled a s _ (sd_turn-IsLess a is_sent s.offerer s) q
  turn-IsSettled (hear is_sent received) s h q =
      ls_turn-cases a (IsSettled a) is_sent received s.listener s
        (λ after less. less-IsSettled a s after less q)
        (hear_request-IsSettled a is_sent s.is_open received s h q)
  turn-IsSettled (publishes is_sent) s h q =
      let (same, once) =
        np_turn-waiting a pack_f advance is_sent s.publisher s refl q.distinct q.once in
      record { distinct = rw (same) q.distinct; once = once }
  turn-IsSettled calls_start s h q =
      less-IsSettled a s _ (program_turn-IsLess a calls_start s.program s) q
  turn-IsSettled calls_stop s h q =
      less-IsSettled a s _ (program_turn-IsLess a calls_stop s.program s) q

  turn-IsGone :
      (bound : ℕ) (t : Turn) (s : System Float)
      → IsNoSubscription a t
      → IsGone a bound s
      → IsGone a bound (turn pack_f advance t s)
  unfolding turn
  turn-IsGone bound (announce is_sent) s h q =
      less-IsGone a bound s _ (sd_turn-IsLess a is_sent s.offerer s) q
  turn-IsGone bound (hear is_sent received) s h q =
      ls_turn-cases a (IsGone a bound) is_sent received s.listener s
        (λ after less. less-IsGone a bound s after less q)
        (hear_request-IsGone a bound is_sent s.is_open received s h q)
  turn-IsGone bound (publishes is_sent) s h q =
      less-IsGone a bound s _ (np_turn-IsLess a pack_f advance is_sent s.publisher s refl q.gone) q
  turn-IsGone bound calls_start s h q =
      less-IsGone a bound s _ (program_turn-IsLess a calls_start s.program s) q
  turn-IsGone bound calls_stop s h q =
      less-IsGone a bound s _ (program_turn-IsLess a calls_stop s.program s) q

  turns-IsSettled :
      (ts : List Turn) (s : System Float)
      → All IsHeard ts
      → IsSettled a s
      → IsSettled a (turns pack_f advance ts s)
  unfolding turns
  turns-IsSettled [] s h q = q
  turns-IsSettled (t ∷ ts) s h q =
      turns-IsSettled ts (turn pack_f advance t s) h.1 (turn-IsSettled t s h.0 q)

  turns-IsGone :
      (bound : ℕ) (ts : List Turn) (s : System Float)
      → All (IsNoSubscription a) ts
      → IsGone a bound s
      → IsGone a bound (turns pack_f advance ts s)
  unfolding turns
  turns-IsGone bound [] s h q = q
  turns-IsGone bound (t ∷ ts) s h q =
      turns-IsGone bound ts (turn pack_f advance t s) h.1 (turn-IsGone bound t s h.0 q)

  -- However the threads of the server take their turns, an address that is no subscriber after some
  -- turns gets at most one more notification, from a round that had begun, and stays no subscriber,
  -- until it asks for a subscription. What the server hears is bytes.
  pub notified_after_end :
      (before after : List Turn) (lat : Float)
      → All IsHeard before
      → contains a (turns pack_f advance before (new pack_f advance lat)).subscribers ≡ false
      → All (IsNoSubscription a) after
      → let now = turns pack_f advance before (new pack_f advance lat) in
        let later = turns pack_f advance after now in
        (contains a later.subscribers ≡ false)
        × (notifications a later.events ≤ notifications a now.events + 1)
  notified_after_end before after lat heard gone quiet =
      let now = turns pack_f advance before (new pack_f advance lat) in
      let settled =
        turns-IsSettled before (new pack_f advance lat) heard
          (record { distinct = tt; once = omega arith }) in
      let kept =
        turns-IsGone (notifications a now.events + waiting a now.publisher) after now quiet
          (record { distinct = settled.distinct; gone = gone; frames = omega arith }) in
      (kept.gone, omega (arith, kept.frames, settled.once))
