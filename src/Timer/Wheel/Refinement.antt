-- ===== src/Timer/Wheel/Refinement.antt =====
-- The wheel of every level (wheel.hpp) implements a list of tasks sorted by their offsets.
use faio.Base.{ℕ, ◌≤◌, ◌<◌, ◌≡◌, keep, remove}
use faio.Timer.Task.{TimerTask}
use faio.Timer.Offsets.{tasks, due, later, is_task, insert, From, IsSorted}
use faio.Timer.Wheel.Interface.{WheelLaws}
use faio.Timer.Wheel.Levels.{Wheel, ops, IsValid, entries, wheel_laws}

module _ (level : ℕ) (w : Wheel level) (valid : IsValid level w) where
  -- For a well formed wheel of any level, add_task with an interval within the span inserts the
  -- task at that offset, before those that have the same offset, and keeps the wheel well
  -- formed.
  pub add_task-inserts :
      (task : TimerTask) (interval : ℕ)
      → interval < (ops level).span_ms
      → IsValid level ((ops level).add_task w task interval)
        × (entries level ((ops level).add_task w task interval)
            ≡ insert (interval, task) (entries level w))
  add_task-inserts =
      λ task interval h. WheelLaws.add_task_lem (wheel_laws level) w task interval valid h

  -- For a well formed wheel of any level, remove_task with an interval within the span takes
  -- out the first task with that address and offset, or nothing where there is none, and keeps
  -- the wheel well formed.
  pub remove_task-removes_one :
      (address interval : ℕ)
      → interval < (ops level).span_ms
      → IsValid level ((ops level).remove_task w address interval)
        × (entries level ((ops level).remove_task w address interval)
            ≡ remove (is_task interval address) (entries level w))
  remove_task-removes_one =
      λ address interval h. WheelLaws.remove_task_lem (wheel_laws level) w address interval valid h

  -- For a well formed wheel of any level, handle_expired_tasks executes exactly the tasks whose
  -- offset is below remaining_ms, in the order of their offsets, keeps the others, and keeps
  -- the wheel well formed.
  pub handle_expired_tasks-splits :
      (remaining_ms : ℕ)
      → let (w', executed) = (ops level).handle_expired_tasks w remaining_ms in
        IsValid level w'
        × (entries level w' ≡ keep (later remaining_ms) (entries level w))
        × (executed ≡ tasks (keep (due remaining_ms) (entries level w)))
        × IsSorted (entries level w)
  handle_expired_tasks-splits = λ remaining_ms.
      let split = WheelLaws.expired_lem (wheel_laws level) w remaining_ms valid in
      (split.0, split.1, split.2, WheelLaws.entries-IsSorted (wheel_laws level) w valid)

  -- For a well formed wheel of any level, next_deadline_time is at most the offset of every
  -- task, and at most the span of the wheel.
  pub next_deadline_time-bounds :
      From ((ops level).next_deadline_time w) (entries level w)
      × ((ops level).next_deadline_time w ≤ (ops level).span_ms)
  next_deadline_time-bounds = (
    WheelLaws.next_deadline_lem (wheel_laws level) w valid,
    WheelLaws.next_deadline-le (wheel_laws level) w valid,
  )
