-- ===== src/Timer/Tests.antt =====
-- The timer at concrete inputs: one tick is one millisecond.
use faio.Base.{ℕ, remove, ◌≡◌, refl, [], ◌∷◌, arith, keep, ◌==◌}
use faio.Config.{static_pow}
use faio.Timer.Wheel.Node
use faio.Timer.Wheel.Leaf
use faio.Timer.Task.{TimerTask, Target}
use faio.Timer.Offsets.{due, later, insert, is_task, IsSorted}
use faio.Timer.Manager.{
  monostate, Timer, relative_interval, add_task, remove_task, poll, next_deadline_ms,
  ensure_capacity, root_add, root_expired, root_turn, root_next, root_remove, advance_start, settle,
  try_level_down,
}
use faio.Timer.Contents.{root_entries, TimerIsValid}
use faio.Timer.Growth.{add_task-insert}
use faio.Timer.Gather.{gather}
use faio.Timer.Removal.{place, remove_task-removes, remove_task_strands}
use faio.Timer.Drift.{Has, added_executes_early, polls, far_tasks_starve}
use faio.Timer.Polling.{Polled, Started, poll-Polled, elapsed}

-- A coroutine that sleeps until `deadline`, at `address`.
abbrev sleeper : ℕ → ℕ → TimerTask
sleeper address deadline = record {
  address = address;
  deadline = deadline;
  target = Target.resume address;
}

abbrev fresh : Timer
fresh = record { start = 1000; num_entries = 0; root_wheel = monostate }

fresh-IsValid : TimerIsValid fresh
fresh-IsValid = record { root = tt; counted = refl }

-- Sleepers for 20 and for 100 ms.
abbrev two_sleepers : Timer
two_sleepers = add_task 1 (add_task 1 fresh (sleeper 7 1020) 1000) (sleeper 8 1100) 1000

interval_20 : relative_interval 1 fresh 1020 1000 ≡ 20
unfolding relative_interval
interval_20 = refl

-- Opens the code of the timer and its wheels for the tests below.
timer_code : Unit {0}
unfolding poll add_task remove_task relative_interval next_deadline_ms ensure_capacity root_add
    root_expired root_turn root_next root_remove advance_start settle try_level_down static_pow
    Node.add_task Node.place_task Node.slot_of Node.upgrade Node.handle_expired_tasks Node.expire
    Node.expire_full Node.drain Node.expire_partial Node.put_child Node.take_task Node.remove_task
    Node.empty Node.can_level_down Node.level_down Node.rotate Node.next_deadline_time Leaf.add_task
    Leaf.remove_task Leaf.handle_expired_tasks Leaf.next_deadline_time Leaf.rotate Leaf.empty
timer_code = tt

poll_runs : (poll 1 two_sleepers 1030).1 ≡ sleeper 7 1020 ∷ []
unfolding timer_code
poll_runs = refl

poll_nothing : (poll 1 two_sleepers 1010).1 ≡ []
unfolding timer_code
poll_nothing = refl

-- After 30 ms a wheel of level 1 has not turned: the sleeper for 100 ms is still 100 ms away.
entries_after_poll :
    root_entries (poll 1 two_sleepers 1030).0.root_wheel ≡ (100, sleeper 8 1100) ∷ []
unfolding timer_code gather
entries_after_poll = refl

add_task-insert_example :
    TimerIsValid (add_task 1 fresh (sleeper 7 1020) 1000)
    × (root_entries (add_task 1 fresh (sleeper 7 1020) 1000).root_wheel
        ≡ insert (relative_interval 1 fresh 1020 1000, sleeper 7 1020) [])
unfolding relative_interval
add_task-insert_example = add_task-insert 1 fresh (sleeper 7 1020) 1000 fresh-IsValid (omega arith)

one_sleeper : Timer
one_sleeper = add_task 1 fresh (sleeper 7 1020) 1000

one_sleeper-IsValid : TimerIsValid one_sleeper
unfolding relative_interval one_sleeper
one_sleeper-IsValid = (add_task-insert 1 fresh (sleeper 7 1020) 1000 fresh-IsValid (omega arith)).0

two_sleepers-IsValid : TimerIsValid two_sleepers
unfolding relative_interval one_sleeper add_task
two_sleepers-IsValid =
    (add_task-insert 1 one_sleeper (sleeper 8 1100) 1000 one_sleeper-IsValid (omega arith)).0

poll-Polled_example :
    Polled 1 two_sleepers 1030 (poll 1 two_sleepers 1030)
    × IsSorted (keep (due (elapsed 1 two_sleepers 1030)) (root_entries two_sleepers.root_wheel))
    × Started 1 two_sleepers 1030
        (two_sleepers.num_entries == 0)
        (elapsed 1 two_sleepers 1030 == 0)
        (poll 1 two_sleepers 1030).0
poll-Polled_example = poll-Polled 1 two_sleepers 1030 two_sleepers-IsValid

-- Behind the poll at 1030 the other sleeper has 70 ms left, but the wheel counts 100.
deadline_after_poll : next_deadline_ms 1 (poll 1 two_sleepers 1030).0 1030 ≡ 100
unfolding timer_code
deadline_after_poll = refl

-- Removed in the millisecond in which it was added.
remove_task-removes_example :
    TimerIsValid (remove_task 1 one_sleeper (sleeper 7 1020) 1000 1000)
    × (root_entries (remove_task 1 one_sleeper (sleeper 7 1020) 1000 1000).root_wheel
        ≡ remove
            (is_task (place 1 one_sleeper (sleeper 7 1020) 1000 1000) 7)
            (root_entries one_sleeper.root_wheel))
unfolding one_sleeper timer_code gather
remove_task-removes_example =
    remove_task-removes 1 one_sleeper (sleeper 7 1020) 1000 1000 one_sleeper-IsValid
      (omega arith, omega arith) (omega arith) refl

-- Five milliseconds later the timer looks at offset 15 for the task at offset 20.
remove_task_strands_example :
    (root_entries (remove_task 1 one_sleeper (sleeper 7 1020) 1005 1005).root_wheel
      ≡ root_entries one_sleeper.root_wheel)
    × ((remove_task 1 one_sleeper (sleeper 7 1020) 1005 1005).num_entries ≡ 0)
    × ((now : ℕ)
        → poll 1 (remove_task 1 one_sleeper (sleeper 7 1020) 1005 1005) now
          ≡ (remove_task 1 one_sleeper (sleeper 7 1020) 1005 1005, []))
unfolding one_sleeper timer_code gather
remove_task_strands_example =
    remove_task_strands 1 one_sleeper (sleeper 7 1020) 1005 1005 one_sleeper-IsValid
      (omega arith, omega arith) (omega arith) refl refl

-- Idle for a second, then a sleeper for 100 ms: it runs after one.
added_executes_early_example :
    Has (sleeper 7 2100) (poll 1 (add_task 1 fresh (sleeper 7 2100) 2000) 2001).1
unfolding relative_interval
added_executes_early_example =
    added_executes_early 1 fresh (sleeper 7 2100) 2000 2001 fresh-IsValid (omega arith)
      (omega arith) (omega arith)

-- Polled every 50 ms, the sleeper for 100 ms still waits after 150.
far_tasks_starve_example :
    keep (later 64) (root_entries (polls 1 two_sleepers (1050 ∷ 1100 ∷ 1150 ∷ [])).root_wheel)
    ≡ keep (later 64) (root_entries two_sleepers.root_wheel)
unfolding timer_code
far_tasks_starve_example =
    far_tasks_starve 1 two_sleepers (1050 ∷ 1100 ∷ 1150 ∷ []) two_sleepers-IsValid (omega arith)
