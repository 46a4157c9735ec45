-- ===== src/Timer/Deadline.antt =====
-- `next_deadline_ms` of the class `Timer` (timer.hpp), against what `poll` executes.
use faio.Base.{
  ℕ, zero, suc, ◌+◌, ◌≤◌, ◌<◌, ◌≡◌, ◌≢◌, List, [], ◌∷◌, Bool, true, false, length, keep,
}
use faio.Timer.Task.{TimerTask}
use faio.Timer.Offsets.{Entry, tasks, due}
use faio.Timer.Wheel.Leaf
use faio.Timer.Wheel.Leaf.{Leaf}
use faio.Timer.Manager.{Root, monostate, at_level, Timer, root_next, to_ms, next_deadline_ms}
use faio.Timer.Contents.{root_entries, RootIsValid, TimerIsValid}

-- The first entry has an offset of `n` at most.
abbrev Soon : ℕ → List Entry → Type 0
Soon n [] = ⊥
Soon n (e ∷ es) = e.0 ≤ n

-- On a wheel that holds a task, once the time that was told is over, something is due.
abbrev Due : ℕ → ℕ → Root → Type 0
Due passed later root =
    RootIsValid root
    → 0 < length (root_entries root)
    → passed + root_next root passed < later
    → tasks (keep (due later) (root_entries root)) ≢ []

-- What `poll` executes when it is called before the time that was told, and when it is called after it on
-- a timer that holds a task and has a wheel of level 0.
abbrev pub OnTime : (early late : Bool) → Root → List TimerTask → Type 0
OnTime true late root out = out ≡ []
OnTime false false root out = Unit
OnTime false true monostate out = Unit
OnTime false true (at_level zero w) out = out ≢ []
OnTime false true (at_level (suc level) w) out = Unit

module _ (ticks_per_ms : ℕ) (t : Timer) (now later : ℕ) (v : TimerIsValid t)
    (in_order : to_ms ticks_per_ms t.start now ≤ to_ms ticks_per_ms t.start later) where
  -- The end of the wait that `next_deadline_ms` gives, in whole milliseconds since `_start`.
  abbrev pub told : ℕ
  told = to_ms ticks_per_ms t.start now + next_deadline_ms ticks_per_ms t now

  abbrev pub asked : ℕ
  asked = to_ms ticks_per_ms t.start later
