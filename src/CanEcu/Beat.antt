-- ===== src/CanEcu/Beat.antt =====
-- The timing of _run: when its rounds begin. A time is a whole number of microseconds of a clock that is
-- never set back; the floats of time.time(), their rounding and a clock that is set anew are left out.
use native.Mathlib.Nat.{suc-mul}
use automotive_testing_frame.Prelude.{
  ℕ, ◌+◌, ◌-◌, ◌*◌, ◌≤◌, List, [], ◌∷◌, arith, ltb, if◌then◌else◌, length, All,
}

-- `next_send_time` and the clock, at the head of the loop.
pub record Clock : Type 0 where
  pub next_send_time : ℕ
  pub now : ℕ

-- What a round takes up to its reading of the clock, and how much longer than asked for its sleep
-- lasts.
pub record Round : Type 0 where
  pub work : ℕ
  pub late : ℕ

-- The 0.020 of the code.
abbrev pub period : ℕ
period = 20000

-- `_run` begins with its own time.
abbrev pub begin_at : ℕ → Clock
begin_at start = record { next_send_time = start; now = start }

-- `sleep_time > 0` and `time.sleep(sleep_time)`, for the time that is read and the time that is due.
unfoldable pub sleep_until : ℕ → ℕ → ℕ → ℕ
sleep_until due read late = if ltb read due then read + (due - read) + late else read

-- One round of the loop, with an exact sum where the code adds the float 0.020.
unfoldable pub beat : Round → Clock → Clock
beat r c =
    let due = c.next_send_time + period in
    record { next_send_time = due; now = sleep_until due (c.now + r.work) r.late }

unfoldable pub beats : List Round → Clock → Clock
beats [] c = c
beats (r ∷ rs) c = beats rs (beat r c)

-- Every round works at most so long, and oversleeps at most so long.
abbrev pub AreBrisk : ℕ → ℕ → List Round → Type 0
AreBrisk work late rs = All (λ r. (r.work ≤ work) × (r.late ≤ late)) rs

beat_not_early :
    (r : Round) (c : Clock) → c.next_send_time ≤ c.now → (beat r c).next_send_time ≤ (beat r c).now
unfolding beat sleep_until
beat_not_early r c h = ground (arith, h)

beat_catches_up :
    (work late behind : ℕ) (r : Round) (c : Clock)
    → work + late ≤ period
    → r.work ≤ work
    → r.late ≤ late
    → c.now ≤ c.next_send_time + late + behind
    → (beat r c).now ≤ (beat r c).next_send_time + late + (behind - (period - work))
unfolding beat sleep_until
beat_catches_up work late behind r c fit w l h = ground (arith, fit, w, l, h)

-- When all rounds of a sequence work at most `work` and oversleep at most `late`, together no more
-- than 20 ms, and it begins at most `behind` and `late` after its time, then a number of rounds that
-- makes up for `behind`, each by what its work leaves of the 20 ms, has caught up: the next round
-- begins neither before its time nor more than `late` after it. The clock is never set back.
pub beats_catch_up :
    (work late behind : ℕ) (rs : List Round) (c : Clock)
    → work + late ≤ period
    → AreBrisk work late rs
    → c.next_send_time ≤ c.now
    → c.now ≤ c.next_send_time + late + behind
    → behind ≤ length rs * (period - work)
    → let after = beats rs c in
      (after.next_send_time ≤ after.now) × (after.now ≤ after.next_send_time + late)
unfolding beats
beats_catch_up work late behind [] c fit brisk early h enough = (early, omega (arith, h, enough))
beats_catch_up work late behind (r ∷ rs) c fit brisk early h enough =
    beats_catch_up work late (behind - (period - work)) rs (beat r c) fit brisk.1
      (beat_not_early r c early) (beat_catches_up work late behind r c fit brisk.0.0 brisk.0.1 h)
      (omega (arith, suc-mul (length rs) (period - work), enough))
