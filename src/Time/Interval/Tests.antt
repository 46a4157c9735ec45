-- ===== src/Time/Interval/Tests.antt =====
-- Intervals of 10 ns (interval.hpp).
use faio.Base.{◌+◌, ◌*◌, ◌≤◌, ◌<◌, ◌≡◌, refl, arith, if◌then◌else◌, leb}
use faio.Time.Interval.{Interval, burst, skip, next_timeout, tick, steps, tick_skips}

abbrev skipping : Interval
skipping = record { deadline = 10; period = 10; behavior = skip }

-- Asked at 35, it goes on at 40.
skips_to_40 : (tick skipping 35).0.deadline ≡ 40
unfolding tick next_timeout
skips_to_40 = refl

tick_skips_example :
    ((tick skipping 35).0.deadline ≡ 10 + steps 10 10 35 * 10)
    × (35 < (tick skipping 35).0.deadline)
    × ((tick skipping 35).0.deadline ≤ (if leb 35 10 then 10 else 35) + 10)
tick_skips_example = tick_skips skipping 35 refl (omega arith)

abbrev bursting : Interval
bursting = record { deadline = 10; period = 10; behavior = burst }
