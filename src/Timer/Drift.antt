-- ===== src/Timer/Drift.antt =====
-- Where the base of the wheel and the clock part (timer.hpp): `add_task` measures from the present,
-- while `poll` measures from `_start`; and at a level above 0 `advance_start` moves `_start` by
-- milliseconds and the wheel by whole slots only.
use faio.Base.{
  ℕ, zero, suc, ◌≤◌, ◌<◌, ◌≡◌, refl, sym, ap, subst, ◌∙◌, ◌⊎◌, List, [], ◌∷◌, Bool, true, inl, inr,
  Bool-cases, arith, keep, ltb, lt→ltb,
}
use faio.Config.{slot_size}
use faio.Timer.Task.{TimerTask}
use faio.Timer.Offsets.{
  Entry, shift, shift_zero, tasks, due, later, insert, Below, keep-later-Below,
}
use faio.Timer.Sweep.{keep_twice}
use faio.Timer.Wheel.Interface.{WheelLaws}
use faio.Timer.Wheel.Levels.{ops, entries, wheel_laws, span_ms_whole}
use faio.Timer.Manager.{Root, monostate, at_level, Timer, to_ms, relative_interval, add_task, poll}
use faio.Timer.Contents.{root_entries, RootIsValid, root_limit, TimerIsValid}
use faio.Timer.Growth.{add_task-insert}
use faio.Timer.Polling.{root_turned, turned, root_IsSorted, poll-Polled}

abbrev pub Has : TimerTask → List TimerTask → Type 0
Has task [] = ⊥
Has task (t ∷ ts) = (task ≡ t) ⊎ Has task ts

insert-Has :
    (r o : ℕ) (task : TimerTask) (es : List Entry)
    → o < r
    → Has task (tasks (keep (due r) (insert (o, task) es)))
insert-Has r o task [] h = rw (lt→ltb o r h) (inl refl)
insert-Has r o task (e ∷ es) h = elim (Bool-cases (ltb e.0 o)) [
  | inl before ↦
      let soon : ltb e.0 r ≡ true = ground arith in
      rw before (rw soon (inr (insert-Has r o task es h)))
  | inr behind ↦ rw behind (rw (lt→ltb o r h) (inl refl))
]

-- `poll` executes a task before its deadline, when the task was added after the timer had stood
-- still so long that the time since `_start` exceeds the interval for which the task was to wait.
pub added_executes_early :
    (ticks_per_ms : ℕ) (t : Timer) (task : TimerTask) (now now' : ℕ)
    → TimerIsValid t
    → relative_interval ticks_per_ms t task.deadline now < root_limit
    → relative_interval ticks_per_ms t task.deadline now < to_ms ticks_per_ms t.start now'
    → now' < task.deadline
    → Has task (poll ticks_per_ms (add_task ticks_per_ms t task now) now').1
unfolding add_task
added_executes_early ticks t task now now' v small passed early =
    let added = add_task-insert ticks t task now v small in
    let polled = poll-Polled ticks (add_task ticks t task now) now' added.0 in
    rw polled.0.1 (rw added.1 (insert-Has _ _ task (root_entries t.root_wheel) passed))

span-ge : (level : ℕ) → slot_size ≤ (ops level).span_ms
span-ge zero = omega arith
span-ge (suc level) = omega (arith, span_ms_whole level, WheelLaws.span_pos (wheel_laws level))

Below-of_shift : (k n : ℕ) (es : List Entry) → Below n (shift k es) → Below n es
Below-of_shift k n [] h = tt
Below-of_shift k n (e ∷ es) h = (omega arith, Below-of_shift k n es h.1)

Below-keep : (p : Entry → Bool) (n : ℕ) (es : List Entry) → Below n es → Below n (keep p es)
Below-keep p n [] h = tt
Below-keep p n (e ∷ es) h = ground (arith, Below-keep p n es h.1)

-- What `poll` leaves, with less than a slot of level 1 passed: the far entries stand still.
far_unmoved :
    (root : Root) (e : ℕ) (es' : List Entry)
    → RootIsValid root
    → e < slot_size
    → keep (later e) (root_entries root) ≡ shift (root_turned root e) es'
    → keep (later slot_size) es' ≡ keep (later slot_size) (root_entries root)
far_unmoved monostate e es' v small h = ap (keep (later slot_size)) (sym (shift_zero es') ∙ sym h)
far_unmoved (at_level zero w) e es' v small h =
    let near : Below slot_size (entries zero w) = WheelLaws.entries-Below (wheel_laws zero) w v.0 in
    keep-later-Below slot_size es' (
      Below-of_shift e slot_size es'
        (subst (Below slot_size) h (Below-keep (later e) slot_size (entries zero w) near)))
    ∙ sym (keep-later-Below slot_size (entries zero w) near)
far_unmoved (at_level (suc level) w) e es' v small h =
    let stands : turned (suc level) e ≡ 0 = grind (arith, span-ge level) in
    ap (keep (later slot_size))
      (sym (shift_zero es') ∙ ap (λ (k : ℕ). shift k es') (sym stands) ∙ sym h)
    ∙ (keep_twice e slot_size (root_entries (at_level (suc level) w)) (omega arith)
        (root_IsSorted (at_level (suc level) w) v)).1

-- A run of polls, and that each comes less than 64 ms after the base that the last has set.
pub polls : ℕ → Timer → List ℕ → Timer
polls ticks_per_ms t [] = t
polls ticks_per_ms t (now ∷ rest) = polls ticks_per_ms (poll ticks_per_ms t now).0 rest

abbrev pub Frequent : ℕ → Timer → List ℕ → Type 0
Frequent ticks_per_ms t [] = Unit
Frequent ticks_per_ms t (now ∷ rest) =
    (to_ms ticks_per_ms t.start now < slot_size)
    × Frequent ticks_per_ms (poll ticks_per_ms t now).0 rest

-- A timer that is polled more often than every 64 ms never executes a task that is 64 ms or more
-- away, however much time passes in all: the entries from offset 64 on stay as they are.
pub far_tasks_starve :
    (ticks_per_ms : ℕ) (t : Timer) (nows : List ℕ)
    → TimerIsValid t
    → Frequent ticks_per_ms t nows
    → keep (later slot_size) (root_entries (polls ticks_per_ms t nows).root_wheel)
      ≡ keep (later slot_size) (root_entries t.root_wheel)
unfolding polls
far_tasks_starve ticks t [] v often = refl
far_tasks_starve ticks t (now ∷ rest) v often =
    let polled = poll-Polled ticks t now v in
    far_tasks_starve ticks (poll ticks t now).0 rest polled.0.0 often.1
    ∙ far_unmoved t.root_wheel (to_ms ticks t.start now) _ v.root often.0 polled.0.2
