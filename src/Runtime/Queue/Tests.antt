-- ===== src/Runtime/Queue/Tests.antt =====
-- Local queues (queue.hpp) with a few tasks.
use faio.Base.{◌∷◌, refl, false, [], none, some, length-replicate, arith}
use faio.Runtime.Queue.{Handle, GlobalQueue, LocalQueue, new_local, push_back, be_stolen_by, store}
use faio.Runtime.Worker.{Worker}
use faio.Runtime.Queue.Laws.{QueueIsValid, Placed, Robbed, push_back-Placed, be_stolen_by-Robbed}

abbrev idle : GlobalQueue
idle = record { queue = []; closed = false }

new_local-IsValid : QueueIsValid new_local
unfolding new_local
new_local-IsValid = record {
  wide = length-replicate {A = Handle} 256 none;
  tail_fits = omega arith;
  between = omega arith;
  held = omega arith;
}

-- Tasks 1, 2 and 3.
abbrev three_tasks : LocalQueue
three_tasks =
    (push_back (push_back (push_back new_local (some 1) idle).0 (some 2) idle).0 (some 3) idle).0

three_tasks-IsValid : QueueIsValid three_tasks
unfolding new_local push_back store
three_tasks-IsValid =
    (push_back-Placed _
      (push_back-Placed _ (push_back-Placed new_local new_local-IsValid (some 1) idle refl).0
        (some 2) idle refl).0
      (some 3) idle refl).0

push_back-Placed_example :
    Placed three_tasks three_tasks-IsValid (some 4) idle (push_back three_tasks (some 4) idle)
push_back-Placed_example = push_back-Placed three_tasks three_tasks-IsValid (some 4) idle refl

be_stolen_by-Robbed_example :
    Robbed three_tasks new_local three_tasks-IsValid new_local-IsValid
      (be_stolen_by three_tasks new_local)
be_stolen_by-Robbed_example =
    be_stolen_by-Robbed three_tasks new_local three_tasks-IsValid new_local-IsValid

abbrev two_waiting : GlobalQueue
two_waiting = record { queue = some 1 ∷ some 2 ∷ []; closed = false }

-- A worker with three tasks in its queue and one cached.
abbrev busy_worker : Worker
busy_worker = record { local_queue = three_tasks; task_cache = some (some 4); is_searching = false }
