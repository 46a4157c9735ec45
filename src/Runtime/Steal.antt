-- ===== src/Runtime/Steal.antt =====
-- How a worker without tasks gets one (`task_steal` of include/faio/detail/runtime/core/worker.hpp). The
-- workers are a list, in which a worker's place is its number; a call is one step.
pub mod Choice
mod Tests
use faio.Base.{
  ℕ, zero, suc, ◌+◌, ◌/◌, ◌≤◌, ◌<◌, ◌≡◌, ◌≢◌, ◌⊎◌, refl, sym, ap, ap₂, subst, ◌∙◌, inl, inr, Bool,
  true, false, not, ◌&&◌, List, [], ◌∷◌, Option, none, some, arith, length, if◌then◌else◌, ◌==◌,
  ltb, get_or, set, Bool-cases, lt→ltb,
}
use faio.Config.{local_queue_capacity}
use faio.Runtime.Queue.{
  Handle, GlobalQueue, LocalQueue, new_local, size, be_stolen_by, steal_tasks, unpack_steal,
  unpack_local_head, sub_32,
}
use faio.Runtime.Queue.Global.{try_pop_global}
use faio.Runtime.StateMachine
use faio.Runtime.StateMachine.{StateMachine}
use faio.Runtime.Worker.{Worker}

-- The part of `Shared` that stealing uses.
pub record Shared : Type 0 where
  pub workers : List Worker
  pub state_machine : StateMachine
  pub global_queue : GlobalQueue

abbrev pub no_worker : Worker
no_worker = record { local_queue = new_local; task_cache = none; is_searching = false }

abbrev pub worker : Shared → ℕ → Worker
worker shared i = get_or shared.workers i no_worker

-- The number of a worker and the size of its queue.
abbrev pub better : ℕ → Worker → ℕ × ℕ → ℕ × ℕ
better j w best =
    if ltb best.1 (size w.local_queue) && not w.is_searching then (j, size w.local_queue) else best

-- The loop over the workers from number `j` on.
abbrev pub largest : ℕ → List Worker → ℕ → ℕ × ℕ → ℕ × ℕ
largest self [] j best = best
largest self (w ∷ rest) j best =
    largest self rest (suc j) (if j == self then best else better j w best)

-- `set_searching` of a worker; the state machine reads a counter at an earlier time.
unfoldable pub set_searching : ℕ → Shared → ℕ → Shared × Bool
set_searching seen shared self =
    let me = worker shared self in
    let asked = StateMachine.set_searching seen shared.state_machine in
    if me.is_searching then (shared, true) else (
      record shared {
        workers = set shared.workers self (record me { is_searching = asked.1 });
        state_machine = asked.0;
      },
      asked.1,
    )

abbrev pub steal_from : Shared → ℕ → ℕ → Shared × Option Handle
steal_from shared self idx =
    let (src, dst, task) =
      be_stolen_by (worker shared idx).local_queue (worker shared self).local_queue in
    (
      record shared {
        workers =
            set (set shared.workers idx (record (worker shared idx) { local_queue = src })) self
              (record (worker shared self) { local_queue = dst });
      },
      task,
    )

abbrev pub from_global : Shared → Shared × Option Handle
from_global shared =
    let popped = try_pop_global shared.global_queue in
    (record shared { global_queue = popped.0 }, popped.1)

abbrev pub steal_or_pop : Shared → ℕ → ℕ × ℕ → Shared × Option Handle
steal_or_pop shared self best =
    if ltb 0 best.1 then steal_from shared self best.0 else from_global shared

unfoldable pub task_steal : ℕ → Shared → ℕ → Shared × Option Handle
task_steal seen shared self =
    let asked = set_searching seen shared self in
    if asked.1
    then steal_or_pop asked.0 self (largest self asked.0.workers 0 (0, 0))
    else (asked.0, none)
