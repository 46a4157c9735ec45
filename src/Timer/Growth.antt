-- ===== src/Timer/Growth.antt =====
-- `add_task` of the class `Timer` (timer.hpp): the root wheel grows until it spans the interval,
-- and the task goes to its offset.
use faio.Base.{
  ℕ, zero, suc, ◌+◌, ◌≤◌, ◌<◌, ◌≡◌, refl, ap, ◌∙◌, List, inl, inr, Bool-cases, arith, length, ltb,
  leb,
}
use faio.Config.{max_level}
use faio.Timer.Task.{TimerTask}
use faio.Timer.Offsets.{Entry, insert, length-insert}
use faio.Timer.Wheel.Leaf
use faio.Timer.Wheel.Node
use faio.Timer.Wheel.Interface.{WheelLaws}
use faio.Timer.Wheel.Rotate.{upgrade_lem}
use faio.Timer.Wheel.Levels.{Wheel, ops, IsValid, entries, span_ms-eq-pow, wheel_laws}
use faio.Timer.Manager.{
  Root, monostate, at_level, Timer, grow, ensure_capacity, root_add, relative_interval, add_task,
}
use faio.Timer.Contents.{root_entries, RootIsValid, root_limit, TimerIsValid}

-- A root that holds the entries `es` and spans the interval.
pub data Spans (interval : ℕ) (es : List Entry) (root : Root) : Type 0 where
  spans :
      (level : ℕ) (w : Wheel level)
      → root ≡ at_level level w
      → IsValid level w
      → level ≤ max_level
      → entries level w ≡ es
      → interval < (ops level).span_ms
      → Spans interval es root

at_top :
    (level interval : ℕ)
    → level ≡ max_level
    → interval < root_limit
    → interval < (ops level).span_ms
at_top level interval e h = rw (span_ms-eq-pow level) (rw e h)

-- The rounds suffice: growth ends at a wheel that spans the interval.
grow-Spans :
    (rounds interval level : ℕ) (w : Wheel level)
    → IsValid level w
    → level ≤ max_level
    → max_level ≤ level + rounds
    → interval < root_limit
    → Spans interval (entries level w) (grow rounds interval level w)
unfolding grow
grow-Spans zero interval level w v le enough h =
    spans level w refl v le refl (at_top level interval (omega arith) h)
grow-Spans (suc rounds) interval level w v le enough h =
    elim (Bool-cases (leb (ops level).span_ms interval)) [
      | inl short ↦ elim (Bool-cases (ltb level max_level)) [
        | inl below ↦
            let up = upgrade_lem (wheel_laws level) w v in
            rw (short, below)
              (rw (← up.1) (
                grow-Spans rounds interval (suc level) (Node.upgrade w) up.0 (ground arith)
                  (omega arith) h))
        | inr top ↦
            rw (short, top) (spans level w refl v le refl (at_top level interval (ground arith) h))
      ]
      | inr wide ↦ rw wide (spans level w refl v le refl (ground arith))
    ]

ensure_capacity-Spans :
    (interval : ℕ) (root : Root)
    → RootIsValid root
    → interval < root_limit
    → Spans interval (root_entries root) (ensure_capacity interval root)
unfolding ensure_capacity
ensure_capacity-Spans interval monostate v h =
    rw (← WheelLaws.entries-new (wheel_laws 0))
      (elim (Bool-cases (ltb interval Leaf.leaf_span_ms)) [
        | inl fits ↦ rw fits (
            spans 0 Leaf.new refl (WheelLaws.new-IsValid (wheel_laws 0)) (omega arith) refl
              (ground arith))
        | inr long ↦ rw long (
            grow-Spans max_level interval 0 Leaf.new (WheelLaws.new-IsValid (wheel_laws 0))
              (omega arith) (omega arith) h)
      ])
ensure_capacity-Spans interval (at_level level w) v h =
    grow-Spans max_level interval level w v.0 v.1 (omega arith) h

-- A task goes to its offset in a wheel that spans it.
root_add_lem :
    (interval : ℕ) (es : List Entry) (task : TimerTask) (root : Root)
    → Spans interval es root
    → RootIsValid (root_add root task interval)
      × (root_entries (root_add root task interval) ≡ insert (interval, task) es)
unfolding root_add
root_add_lem interval es task root (spans level w e v le held h) =
    let added = WheelLaws.add_task_lem (wheel_laws level) w task interval v h in
    rw (e, root_add) ((added.0, le), added.1 ∙ ap (insert (interval, task)) held)

-- `Timer::add_task` keeps the timer well formed and puts the task at the offset that the clock
-- gives, before the tasks with the same offset; it holds for every interval below 64 ^ 7 ms.
pub add_task-insert :
    (ticks_per_ms : ℕ) (t : Timer) (task : TimerTask) (now : ℕ)
    → TimerIsValid t
    → relative_interval ticks_per_ms t task.deadline now < root_limit
    → TimerIsValid (add_task ticks_per_ms t task now)
      × (root_entries (add_task ticks_per_ms t task now).root_wheel
          ≡ insert
              (relative_interval ticks_per_ms t task.deadline now, task)
              (root_entries t.root_wheel))
unfolding add_task
add_task-insert ticks t task now v h =
    let interval = relative_interval ticks t task.deadline now in
    let added =
      root_add_lem interval (root_entries t.root_wheel) task _
        (ensure_capacity-Spans interval t.root_wheel v.root h) in
    (
      record {
        root = added.0;
        counted = omega (
          arith,
          v.counted,
          ap length added.1,
          length-insert (interval, task) (root_entries t.root_wheel),
        );
      },
      added.1,
    )
