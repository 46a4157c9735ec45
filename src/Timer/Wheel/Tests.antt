-- ===== src/Timer/Wheel/Tests.antt =====
-- A wheel of level 1 (wheel.hpp) with one task, 100 ms away.
use faio.Base.{◌<◌, ◌≡◌, keep, remove, arith}
use faio.Timer.Task.{TimerTask, Target}
use faio.Timer.Offsets.{tasks, due, later, is_task, insert, IsSorted}
use faio.Timer.Wheel.Interface.{WheelLaws}
use faio.Timer.Wheel.Levels.{Wheel, ops, IsValid, entries, wheel_laws}
use faio.Timer.Wheel.Refinement.{
  add_task-inserts, remove_task-removes_one, handle_expired_tasks-splits,
}
use faio.Config.{static_pow}

abbrev task_7 : TimerTask
task_7 = record { address = 7; deadline = 100; target = Target.resume 7 }

abbrev new_wheel : Wheel 1
new_wheel = (ops 1).new

new_wheel-IsValid : IsValid 1 new_wheel
new_wheel-IsValid = WheelLaws.new-IsValid (wheel_laws 1)

abbrev one_task : Wheel 1
one_task = (ops 1).add_task new_wheel task_7 100

span_wide : 100 < (ops 1).span_ms
unfolding static_pow
span_wide = omega arith

one_task-IsValid : IsValid 1 one_task
one_task-IsValid = (add_task-inserts 1 new_wheel new_wheel-IsValid task_7 100 span_wide).0

add_task-inserts_example :
    IsValid 1 one_task × (entries 1 one_task ≡ insert (100, task_7) (entries 1 new_wheel))
add_task-inserts_example = add_task-inserts 1 new_wheel new_wheel-IsValid task_7 100 span_wide

remove_task-removes_one_example :
    IsValid 1 ((ops 1).remove_task one_task 7 100)
    × (entries 1 ((ops 1).remove_task one_task 7 100) ≡ remove (is_task 100 7) (entries 1 one_task))
remove_task-removes_one_example =
    remove_task-removes_one 1 one_task one_task-IsValid 7 100 span_wide

-- After 70 ms the task is not yet due.
handle_expired_tasks-splits_example :
    IsValid 1 ((ops 1).handle_expired_tasks one_task 70).0
    × (entries 1 ((ops 1).handle_expired_tasks one_task 70).0
        ≡ keep (later 70) (entries 1 one_task))
    × (((ops 1).handle_expired_tasks one_task 70).1 ≡ tasks (keep (due 70) (entries 1 one_task)))
    × IsSorted (entries 1 one_task)
handle_expired_tasks-splits_example = handle_expired_tasks-splits 1 one_task one_task-IsValid 70
