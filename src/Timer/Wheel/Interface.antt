-- ===== src/Timer/Wheel/Interface.antt =====
-- What a wheel of level `LEVEL >= 1` needs of its child wheel (wheel.hpp): the operations, and the
-- laws that relate them to the sorted list of entries that the wheel stands for.
use faio.Base.{ℕ, ◌≤◌, ◌<◌, ◌≡◌, Bool, true, List, [], keep, remove}
use faio.Timer.Task.{TimerTask}
use faio.Timer.Offsets.{Entry, tasks, due, later, is_task, insert, Below, From, IsSorted}

-- `handle_expired_tasks` also returns the tasks that it executes, in order; their number is what it
-- adds to `count`.
pub record WheelOps (C : Type 0) : Type 0 where
  pub span_ms : ℕ
  pub new : C
  pub add_task : C → TimerTask → ℕ → C
  pub remove_task : C → ℕ → ℕ → C
  pub handle_expired_tasks : C → ℕ → C × List TimerTask
  pub next_deadline_time : C → ℕ
  pub empty : C → Bool

module _ {C : Type 0} (IsValid : C → Type 0) (entries : C → List Entry) where
  abbrev pub Adds : C → TimerTask → ℕ → C → Type 0
  Adds w t o w' = IsValid w' × (entries w' ≡ insert (o, t) (entries w))

  abbrev pub Removes : C → ℕ → ℕ → C → Type 0
  Removes w a o w' = IsValid w' × (entries w' ≡ remove (is_task o a) (entries w))

  abbrev pub Expires : C → ℕ → C × List TimerTask → Type 0
  Expires w r (w', out) =
      IsValid w'
      × (entries w' ≡ keep (later r) (entries w))
      × (out ≡ tasks (keep (due r) (entries w)))

  pub record WheelLaws (ops : WheelOps C) : Type 0 where
    pub span_pos : 0 < ops.span_ms
    pub new-IsValid : IsValid ops.new
    pub entries-new : entries ops.new ≡ []
    pub entries-Below : (w : C) → IsValid w → Below ops.span_ms (entries w)
    pub entries-IsSorted : (w : C) → IsValid w → IsSorted (entries w)
    pub add_task_lem :
        (w : C) (t : TimerTask) (o : ℕ)
        → IsValid w
        → o < ops.span_ms
        → Adds w t o (ops.add_task w t o)
    pub remove_task_lem :
        (w : C) (a o : ℕ) → IsValid w → o < ops.span_ms → Removes w a o (ops.remove_task w a o)
    pub expired_lem : (w : C) (r : ℕ) → IsValid w → Expires w r (ops.handle_expired_tasks w r)
    pub next_deadline_lem : (w : C) → IsValid w → From (ops.next_deadline_time w) (entries w)
    pub next_deadline-le : (w : C) → IsValid w → ops.next_deadline_time w ≤ ops.span_ms
    pub empty_lem : (w : C) → IsValid w → ops.empty w ≡ true → entries w ≡ []
