-- ===== src/Timer/Removal.antt =====
-- `remove_task` of the class `Timer` (timer.hpp).
use faio.Base.{
  ℕ, ◌+◌, ◌-◌, ◌<◌, ◌≡◌, refl, ap, ◌∙◌, List, [], ◌∷◌, Bool, true, false, arith, length, remove,
  leb, if◌then◌else◌,
}
use faio.Timer.Task.{TimerTask}
use faio.Timer.Offsets.{Entry, is_task}
use faio.Timer.Wheel.Interface.{WheelLaws}
use faio.Timer.Wheel.Levels.{ops, wheel_laws}
use faio.Timer.Manager.{
  Root, monostate, at_level, Timer, root_remove, to_ms, remove_task, poll, is_monostate,
}
use faio.Timer.Contents.{root_entries, RootIsValid, TimerIsValid}
use faio.Timer.Polling.{try_level_down_lem}

-- Whether an entry passes a test.
abbrev pub any : (Entry → Bool) → List Entry → Bool
any p [] = false
any p (e ∷ es) = if p e then true else any p es

length-remove :
    (p : Entry → Bool) (es : List Entry) → any p es ≡ true → length (remove p es) + 1 ≡ length es
length-remove p [] h = cc
length-remove p (e ∷ es) h = ground (arith, length-remove p es)

remove_absent : (p : Entry → Bool) (es : List Entry) → any p es ≡ false → remove p es ≡ es
remove_absent p [] h = refl
remove_absent p (e ∷ es) h = ground (arith, remove_absent p es)

-- There is a root wheel, and the interval lies in its span.
abbrev pub Within : ℕ → Root → Type 0
Within interval monostate = ⊥
Within interval (at_level level w) = interval < (ops level).span_ms

root_remove_lem :
    (root : Root) (address interval : ℕ)
    → RootIsValid root
    → Within interval root
    → RootIsValid (root_remove root address interval)
      × (root_entries (root_remove root address interval)
          ≡ remove (is_task interval address) (root_entries root))
unfolding root_remove
root_remove_lem monostate a o v h = absurd h
root_remove_lem (at_level level w) a o v h =
    let taken = WheelLaws.remove_task_lem (wheel_laws level) w a o v.0 h in
    ((taken.0, v.1), taken.1)

filled : (interval : ℕ) (root : Root) → Within interval root → is_monostate root ≡ false
filled i monostate h = absurd h
filled i (at_level level w) h = refl

module _ (ticks_per_ms : ℕ) (t : Timer) (task : TimerTask) (now now' : ℕ) where
  -- Where `remove_task` looks for the task.
  abbrev pub place : ℕ
  place = to_ms ticks_per_ms t.start task.deadline - to_ms ticks_per_ms t.start now'

  -- Neither guard of `remove_task` returns.
  abbrev pub Pending : Type 0
  Pending =
      (now < task.deadline)
      × (to_ms ticks_per_ms t.start now' < to_ms ticks_per_ms t.start task.deadline)

  removed :
      TimerIsValid t
      → Pending
      → Within place t.root_wheel
      → RootIsValid (remove_task ticks_per_ms t task now now').root_wheel
        × (root_entries (remove_task ticks_per_ms t task now now').root_wheel
            ≡ remove (is_task place task.address) (root_entries t.root_wheel))
        × ((remove_task ticks_per_ms t task now now').num_entries ≡ t.num_entries - 1)
  unfolding remove_task
  removed v p h =
      let taken = root_remove_lem t.root_wheel task.address place v.root h in
      let lower = try_level_down_lem (root_remove t.root_wheel task.address place) taken.0 in
      rw (not_due, not_passed, filled place t.root_wheel h) (lower.0, lower.1 ∙ taken.1, refl)
    where
      not_due : leb task.deadline now ≡ false
      not_due = ground arith

      not_passed :
          leb (to_ms ticks_per_ms t.start task.deadline) (to_ms ticks_per_ms t.start now') ≡ false
      not_passed = ground arith

  -- `remove_task` takes the task out of a well formed timer and keeps it well formed, when neither of its guards
  -- returns (the deadline lies after the present, and in a later millisecond), the milliseconds left
  -- to the deadline lie in the span of the wheel, and the task is held at that offset.
  pub remove_task-removes :
      TimerIsValid t
      → Pending
      → Within place t.root_wheel
      → any (is_task place task.address) (root_entries t.root_wheel) ≡ true
      → TimerIsValid (remove_task ticks_per_ms t task now now')
        × (root_entries (remove_task ticks_per_ms t task now now').root_wheel
            ≡ remove (is_task place task.address) (root_entries t.root_wheel))
  remove_task-removes v p h held =
      let r = removed v p h in
      (
        record {
          root = r.0;
          counted = omega (
            arith,
            r.2,
            v.counted,
            ap length r.1,
            length-remove (is_task place task.address) (root_entries t.root_wheel) held,
          );
        },
        r.1,
      )

  -- Where neither of its guards returns, the milliseconds left to the deadline lie in the span of the
  -- wheel and the task is not held at that offset, `remove_task` of a well formed timer with one task leaves
  -- the wheel's tasks as they are and yet sets the count of tasks to 0: `poll` never executes the task,
  -- whatever the time.
  pub remove_task_strands :
      TimerIsValid t
      → Pending
      → Within place t.root_wheel
      → any (is_task place task.address) (root_entries t.root_wheel) ≡ false
      → t.num_entries ≡ 1
      → (root_entries (remove_task ticks_per_ms t task now now').root_wheel
          ≡ root_entries t.root_wheel)
        × ((remove_task ticks_per_ms t task now now').num_entries ≡ 0)
        × ((later : ℕ)
            → poll ticks_per_ms (remove_task ticks_per_ms t task now now') later
              ≡ (remove_task ticks_per_ms t task now now', []))
  unfolding poll
  remove_task_strands v p h absent one =
      let r = removed v p h in
      let none_left : (remove_task ticks_per_ms t task now now').num_entries ≡ 0 =
        omega (arith, r.2, one) in
      (
        r.1 ∙ remove_absent (is_task place task.address) (root_entries t.root_wheel) absent,
        none_left,
        λ later. rw none_left refl,
      )
