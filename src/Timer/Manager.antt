-- ===== src/Timer/Manager.antt =====
-- The class `Timer` of include/faio/detail/runtime/core/timer/timer.hpp. The times of the steady
-- clock are numbers of ticks, and each reading of it is an argument, `now`; it is monotonic, so no
-- reading lies before `start`. `poll` returns the tasks that it executes, in order; their number is
-- its result.
use faio.Base.{
  ℕ, zero, suc, ◌+◌, ◌-◌, ◌*◌, ◌/◌, ◌^◌, Bool, true, false, List, [], none, some, min, length,
  if◌then◌else◌, ◌==◌, ltb, leb,
}
use faio.Config.{max_level, shr}
use faio.Timer.Task.{TimerTask}
use faio.Timer.Wheel.Leaf
use faio.Timer.Wheel.Node
use faio.Timer.Wheel.Levels.{Wheel, ops}

-- The variant `_root_wheel`: nothing yet, or a wheel of some level.
pub data Root : Type 0 where
  monostate : Root
  at_level : (level : ℕ) → Wheel level → Root

pub record Timer : Type 0 where
  pub start : ℕ
  pub num_entries : ℕ
  pub root_wheel : Root

-- `std::numeric_limits<std::size_t>::max()`.
abbrev pub size_max : ℕ
size_max = 2 ^ 64 - 1

-- `level_up_dispatch` and `ensure_capacity_visit`, which call each other until the wheel spans the
-- interval or the highest level is reached; at most `max_level` rounds.
unfoldable pub grow : ℕ → ℕ → (level : ℕ) → Wheel level → Root
grow zero interval_ms level w = at_level level w
grow (suc rounds) interval_ms level w =
    let higher = grow rounds interval_ms (suc level) (Node.upgrade w) in
    if leb (ops level).span_ms interval_ms
    then (if ltb level max_level then higher else at_level level w)
    else at_level level w

unfoldable pub ensure_capacity : ℕ → Root → Root
unfolding grow
ensure_capacity interval_ms monostate =
    if ltb interval_ms Leaf.leaf_span_ms
    then at_level 0 Leaf.new
    else grow max_level interval_ms 0 Leaf.new
ensure_capacity interval_ms (at_level level w) = grow max_level interval_ms level w

unfoldable pub root_add : Root → TimerTask → ℕ → Root
root_add monostate task interval = monostate
root_add (at_level level w) task interval = at_level level ((ops level).add_task w task interval)

-- `try_level_down` and `level_down_dispatch`.
unfoldable pub shrink : (level : ℕ) → Wheel level → Root
shrink zero w = if Leaf.empty w then monostate else at_level 0 w
shrink (suc level) w = elim ((ops (suc level)).empty w) [
  | true ↦ monostate
  | false ↦ elim (Node.can_level_down w) [
    | false ↦ at_level (suc level) w
    | true ↦ elim (Node.level_down w) [
      | none ↦ at_level (suc level) w
      | some (child, rest) ↦ shrink level child
    ]
  ]
]

unfoldable pub try_level_down : Root → Root
unfolding shrink
try_level_down monostate = monostate
try_level_down (at_level level w) = shrink level w

-- `advance_start` on the wheel: level 0 turns by milliseconds, a higher level by whole slots.
unfoldable pub turn : (level : ℕ) → Wheel level → ℕ → Wheel level
turn zero w ms = Leaf.rotate w ms
turn (suc level) w ms =
    if ltb 0 (shr ms (Node.child_shift (suc level)))
    then Node.rotate w (shr ms (Node.child_shift (suc level)))
    else w

unfoldable pub root_turn : Root → ℕ → Root
unfolding turn
root_turn monostate ms = monostate
root_turn (at_level level w) ms = at_level level (turn level w ms)

unfoldable pub root_expired : Root → ℕ → Root × List TimerTask
root_expired monostate elapsed = (monostate, [])
root_expired (at_level level w) elapsed =
    let (w', out) = (ops level).handle_expired_tasks w elapsed in (at_level level w', out)

-- The wheel's next deadline less what has passed, not below 0.
unfoldable pub root_next : Root → ℕ → ℕ
root_next monostate elapsed = size_max
root_next (at_level level w) elapsed =
    let from_start = (ops level).next_deadline_time w in
    if ltb elapsed from_start then from_start - elapsed else 0

unfoldable pub root_remove : Root → ℕ → ℕ → Root
root_remove monostate address interval = monostate
root_remove (at_level level w) address interval =
    at_level level ((ops level).remove_task w address interval)

abbrev pub is_monostate : Root → Bool
is_monostate monostate = true
is_monostate (at_level level w) = false

-- The end of `poll`: the count is taken off, and the root wheel may go down.
unfoldable pub settle : Timer → ℕ → Timer
settle t count = if count == 0 then t else record t {
  num_entries = t.num_entries - min t.num_entries count;
  root_wheel = try_level_down t.root_wheel;
}

-- `ticks_per_ms` is the clock's resolution.
module _ (ticks_per_ms : ℕ) where
  -- The duration from `start` to `time` in whole milliseconds, not below 0.
  unfoldable pub to_ms : ℕ → ℕ → ℕ
  to_ms start time = (time - start) / ticks_per_ms

  -- The time left to a deadline in milliseconds, by which `add_task` and `remove_task` find a slot.
  unfoldable pub relative_interval : Timer → ℕ → ℕ → ℕ
  unfolding to_ms
  relative_interval t deadline now =
      let interval_ms = to_ms t.start deadline in
      let elapsed = to_ms t.start now in
      if ltb elapsed interval_ms then interval_ms - elapsed else 0

  unfoldable pub add_task : Timer → TimerTask → ℕ → Timer
  add_task t task now =
      let interval = relative_interval t task.deadline now in
      record t {
        num_entries = t.num_entries + 1;
        root_wheel = root_add (ensure_capacity interval t.root_wheel) task interval;
      }

  -- The clock is read twice: for the guard, and for the interval.
  unfoldable pub remove_task : Timer → TimerTask → ℕ → ℕ → Timer
  remove_task t task now now' =
      if leb task.deadline now
      then t
      else (if leb (to_ms t.start task.deadline) (to_ms t.start now')
          then t
          else (if is_monostate t.root_wheel then t else record t {
            num_entries = t.num_entries - 1;
            root_wheel = try_level_down (
                root_remove t.root_wheel task.address
                  (to_ms t.start task.deadline - to_ms t.start now'));
          }))

  -- `advance_start`.
  unfoldable pub advance_start : Timer → ℕ → Timer
  advance_start t ms = record t {
    start = t.start + ms * ticks_per_ms;
    root_wheel = root_turn t.root_wheel ms;
  }

  unfoldable pub poll : Timer → ℕ → Timer × List TimerTask
  poll t now =
      if t.num_entries == 0
      then (t, [])
      else (if to_ms t.start now == 0
          then (t, [])
          else (let (root, out) = root_expired t.root_wheel (to_ms t.start now) in
              (
                settle (advance_start (record t { root_wheel = root }) (to_ms t.start now))
                    (length out),
                out,
              )))

  unfoldable pub next_deadline_ms : Timer → ℕ → ℕ
  next_deadline_ms t now =
      if t.num_entries == 0 then size_max else root_next t.root_wheel (to_ms t.start now)
