-- ===== src/Timer/Contents.antt =====
-- The tasks that a `Timer` (timer.hpp) holds, and its invariant.
use faio.Base.{ℕ, suc, ◌^◌, ◌≤◌, ◌≡◌, List, [], length}
use faio.Config.{max_level, slot_size}
use faio.Timer.Offsets.{Entry}
use faio.Timer.Wheel.Levels.{IsValid, entries}
use faio.Timer.Manager.{Root, monostate, at_level, Timer}

abbrev pub root_entries : Root → List Entry
root_entries monostate = []
root_entries (at_level level w) = entries level w

abbrev pub RootIsValid : Root → Type 0
RootIsValid monostate = Unit
RootIsValid (at_level level w) = IsValid level w × (level ≤ max_level)

-- The span of the highest wheel, 64 ^ 7 ms (about 139 years).
abbrev pub root_limit : ℕ
root_limit = slot_size ^ suc max_level

-- The wheel is well formed, and `_num_entries` counts its tasks.
pub record TimerIsValid (t : Timer) : Type 0 where
  pub root : RootIsValid t.root_wheel
  pub counted : t.num_entries ≡ length (root_entries t.root_wheel)
