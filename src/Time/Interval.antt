-- ===== src/Time/Interval.antt =====
-- include/faio/detail/time/interval.hpp: periodic ticks. Times are numbers of nanoseconds on the steady
-- clock, and each reading of it is an argument, `now`; a period is not negative.
mod Tests
use native.Mathlib.Nat.{div-add-mod, mod-lt}
use faio.Base.{
  leb→le, ℕ, zero, suc, ◌+◌, ◌-◌, ◌*◌, ◌/◌, ◌≤◌, ◌<◌, ◌≡◌, refl, sym, ap, ◌∙◌, Bool, true, false,
  List, [], ◌∷◌, inl, inr, Bool-cases, arith, if◌then◌else◌, leb, length,
}

pub data MissedTickBehavior : Type 0 where
  burst : MissedTickBehavior
  delay : MissedTickBehavior
  skip : MissedTickBehavior

pub record Interval : Type 0 where
  pub deadline : ℕ
  pub period : ℕ
  pub behavior : MissedTickBehavior

unfoldable pub new : ℕ → ℕ → MissedTickBehavior → Interval
new first_expired_time period behavior = record {
  deadline = first_expired_time + period;
  period = period;
  behavior = behavior;
}

abbrev pub next_for : MissedTickBehavior → ℕ → ℕ → ℕ → ℕ
next_for burst deadline period now = deadline + period
next_for delay deadline period now = now + period
next_for skip deadline period now =
    if leb now deadline
    then deadline + period
    else deadline + ((now - deadline) / period + 1) * period

unfoldable pub next_timeout : Interval → ℕ → ℕ
next_timeout i now = next_for i.behavior i.deadline i.period now

-- The interval afterwards and the deadline of the sleep.
unfoldable pub tick : Interval → ℕ → Interval × ℕ
tick i now = (record i { deadline = next_timeout i now }, i.deadline)

unfoldable pub reset : Interval → ℕ → Interval
reset i now = record i { deadline = now + i.period }

unfoldable pub reset_immediately : Interval → ℕ → Interval
reset_immediately i now = record i { deadline = now }

unfoldable pub reset_after : Interval → ℕ → ℕ → Interval
reset_after i after now = record i { deadline = now + after }

unfoldable pub reset_at : Interval → ℕ → Interval
reset_at i deadline = record i { deadline = deadline }

unfoldable pub set_missed_tick_behavior : Interval → MissedTickBehavior → Interval
set_missed_tick_behavior i behavior = record i { behavior = behavior }

-- How many periods a tick at `now` goes on: 1, or past all that were missed.
abbrev pub steps : ℕ → ℕ → ℕ → ℕ
steps deadline period now = if leb now deadline then 1 else (now - deadline) / period + 1

module _ (deadline period now : ℕ) (some_period : 0 < period) where
  skip_next :
      (next_for skip deadline period now ≡ deadline + steps deadline period now * period)
      × (now < next_for skip deadline period now)
      × (next_for skip deadline period now ≤ (if leb now deadline then deadline else now) + period)
  skip_next = elim (Bool-cases (leb now deadline)) [
    | inl early ↦ rw early (omega arith, omega (arith, leb→le now deadline early), omega arith)
    | inr late ↦
        let whole = div-add-mod (now - deadline) period in
        let part = mod-lt (now - deadline) some_period in
        let missed : deadline < now = ground arith in
        rw late (refl, omega (arith, whole, part), omega (arith, whole, part))
  ]

-- An interval that skips missed ticks stays on its grid: if its period is not 0, then after a tick at
-- `now` its deadline is a whole number of periods further on; it lies after `now`, and by no more than
-- a period after the later of `now` and the old deadline.
pub tick_skips :
    (i : Interval) (now : ℕ)
    → i.behavior ≡ skip
    → 0 < i.period
    → ((tick i now).0.deadline ≡ i.deadline + steps i.deadline i.period now * i.period)
      × (now < (tick i now).0.deadline)
      × ((tick i now).0.deadline ≤ (if leb now i.deadline then i.deadline else now) + i.period)
unfolding tick next_timeout
tick_skips i now skips some_period =
    let both = skip_next i.deadline i.period now some_period in
    let same = ap (λ b. next_for b i.deadline i.period now) skips in
    (same ∙ both.0, omega (arith, same, both.1), omega (arith, same, both.2))

-- The deadlines of the sleeps of ticks at the given times.
abbrev pub ticks : Interval → List ℕ → List ℕ
ticks i [] = []
ticks i (now ∷ rest) = let one = tick i now in one.1 ∷ ticks one.0 rest

abbrev pub every : ℕ → ℕ → ℕ → List ℕ
every deadline period zero = []
every deadline period (suc n) = deadline ∷ every (deadline + period) period n

-- An interval that bursts misses no tick: whenever it is asked, its sleeps end one period apart.
pub ticks_burst :
    (i : Interval) (nows : List ℕ)
    → i.behavior ≡ burst
    → ticks i nows ≡ every i.deadline i.period (length nows)
unfolding tick next_timeout
ticks_burst i [] bursts = refl
ticks_burst i (now ∷ rest) bursts = ap (◌∷◌ i.deadline) (
    ticks_burst (tick i now).0 rest bursts
    ∙ ap (λ b. every (next_for b i.deadline i.period now) i.period (length rest)) bursts)
