-- ===== src/Runtime/Worker.antt =====
-- include/faio/detail/runtime/core/worker.hpp: the tasks of a worker, and which one it runs next. The
-- clock of the worker is an argument, `tick`, and so is the configured interval.
use faio.Base.{
  subst, sym, ℕ, ◌/◌, ◌%◌, ◌≡◌, refl, Bool, true, false, not, ◌||◌, List, [], ◌∷◌, Option, none,
  some, min, if◌then◌else◌, ◌==◌, ltb,
}
use faio.Config.{local_queue_capacity}
use faio.Runtime.Queue.{
  Handle, GlobalQueue, LocalQueue, push_back, push_back_batch, try_pop, size, remain_size,
}
use faio.Runtime.Queue.Global.{try_pop_global, try_pop_batch, is_empty}
use faio.Runtime.Queue.Laws.{QueueIsValid, Placed, push_back-Placed}

pub record Worker : Type 0 where
  pub local_queue : LocalQueue
  pub task_cache : Option Handle
  pub is_searching : Bool

-- The queues afterwards, with `none` for a global queue that throws, and whether it calls `wake_up_one`.
abbrev pub replace_cache :
    Worker → Handle → LocalQueue × Option GlobalQueue → Worker × Option GlobalQueue × Bool
replace_cache w task (queue, none) = (record w { local_queue = queue }, none, false)
replace_cache w task (queue, some g) =
    (record w { local_queue = queue; task_cache = some task }, some g, true)

abbrev pub push_over :
    Option Handle → Worker → Handle → GlobalQueue → Worker × Option GlobalQueue × Bool
push_over none w task g = (record w { task_cache = some task }, some g, false)
push_over (some old) w task g = replace_cache w task (push_back w.local_queue old g)

unfoldable pub push_back_task : Worker → Handle → GlobalQueue → Worker × Option GlobalQueue × Bool
push_back_task w task g = push_over w.task_cache w task g

abbrev pub cached_or_popped : Option Handle → Worker → Worker × Option Handle
cached_or_popped (some task) w = (record w { task_cache = none }, some task)
cached_or_popped none w =
    let popped = try_pop w.local_queue in (record w { local_queue = popped.0 }, popped.1)

unfoldable pub get_next_local_task : Worker → Worker × Option Handle
get_next_local_task w = cached_or_popped w.task_cache w

abbrev pub is_cached : Option Handle → Bool
is_cached none = false
is_cached (some task) = true

unfoldable pub has_task : Worker → Bool
has_task w = is_cached w.task_cache || not (size w.local_queue == 0)

unfoldable pub should_notify : Worker → Bool
should_notify w = if w.is_searching then false else ltb 1 (size w.local_queue)

-- `back` and `pop_back` of the tasks taken from the global queue, of which there is one at least.
abbrev pub last_of : Handle → List Handle → List Handle × Handle
last_of task [] = ([], task)
last_of task (other ∷ rest) = let split = last_of other rest in (task ∷ split.0, split.1)

abbrev pub keep_batch : Worker → List Handle → Worker
keep_batch w [] = w
keep_batch w (task ∷ rest) = record w { local_queue = push_back_batch w.local_queue (task ∷ rest) }

abbrev pub from_batch :
    Worker → GlobalQueue × Option (List Handle) → Worker × GlobalQueue × Option Handle
from_batch w (g, none) = (w, g, none)
from_batch w (g, some []) = (w, g, none)
from_batch w (g, some (task ∷ rest)) =
    let split = last_of task rest in (keep_batch w split.0, g, some split.1)

abbrev pub or_global : GlobalQueue → Worker × Option Handle → Worker × GlobalQueue × Option Handle
or_global g (w, some task) = (w, g, some task)
or_global g (w, none) =
    let num = min (remain_size w.local_queue) (local_queue_capacity / 2) in
    if is_empty g
    then (w, g, none)
    else (if num == 0 then (w, g, none) else from_batch w (try_pop_batch g num))

abbrev pub or_local : Worker → GlobalQueue × Option Handle → Worker × GlobalQueue × Option Handle
or_local w (g, some task) = (w, g, some task)
or_local w (g, none) = let mine = get_next_local_task w in (mine.0, g, mine.1)

unfoldable pub get_next_task : Worker → GlobalQueue → ℕ → ℕ → Worker × GlobalQueue × Option Handle
get_next_task w g tick interval =
    if tick % interval == 0
    then or_local w (try_pop_global g)
    else or_global g (get_next_local_task w)

-- A task pushed to a worker that has one cached is the next that it runs of its own, and the older one
-- is placed in the queues, given that the global one is open and the local one well formed.
pub push_back_task-next :
    (w : Worker) (v : QueueIsValid w.local_queue) (old task : Handle) (g : GlobalQueue)
    → w.task_cache ≡ some old
    → g.closed ≡ false
    → ((get_next_local_task (push_back_task w task g).0).1 ≡ some task)
      × Placed w.local_queue v old g (
        (get_next_local_task (push_back_task w task g).0).0.local_queue,
        (push_back_task w task g).1,
      )
unfolding push_back_task get_next_local_task
push_back_task-next w v old task g cached open_queue = go w.task_cache cached
  where
    replaced :
        (r : LocalQueue × Option GlobalQueue)
        → Placed w.local_queue v old g r
        → ((get_next_local_task (replace_cache w task r).0).1 ≡ some task)
          × Placed w.local_queue v old g (
            (get_next_local_task (replace_cache w task r).0).0.local_queue,
            (replace_cache w task r).1,
          )
    replaced (queue, none) lost = absurd lost
    replaced (queue, some global) placed = (refl, placed)

    go :
        (o : Option Handle)
        → o ≡ some old
        → ((get_next_local_task (push_over o w task g).0).1 ≡ some task)
          × Placed w.local_queue v old g (
            (get_next_local_task (push_over o w task g).0).0.local_queue,
            (push_over o w task g).1,
          )
    go o h =
        subst
          (λ o.
            ((get_next_local_task (push_over o w task g).0).1 ≡ some task)
            × Placed w.local_queue v old g (
              (get_next_local_task (push_over o w task g).0).0.local_queue,
              (push_over o w task g).1,
            ))
          (sym h)
          (replaced (push_back w.local_queue old g)
            (push_back-Placed w.local_queue v old g open_queue))
