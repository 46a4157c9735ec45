-- ===== src/Runtime/Steal/Tests.antt =====
-- Two workers, of which one has a task.
use faio.Base.{ℕ, zero, suc, ◌≡◌, ◌≤◌, ◌<◌, refl, true, false, [], ◌∷◌, none, some, arith}
use faio.Runtime.Queue.{new_local, size}
use faio.Runtime.StateMachine
use faio.Runtime.Worker.{Worker}
use faio.Runtime.Steal.{Shared, worker, task_steal}
use faio.Runtime.Steal.Choice.{IsVictim, task_steal_gives_up}

abbrev with_one : Worker
with_one = record {
  local_queue = record new_local { tail = 1 };
  task_cache = none;
  is_searching = false;
}

abbrev searcher : Worker
searcher = record { local_queue = new_local; task_cache = none; is_searching = true }

abbrev two_workers : Shared
two_workers = record {
  workers = searcher ∷ with_one ∷ [];
  state_machine = StateMachine.new 2;
  global_queue = record { queue = some 7 ∷ []; closed = false };
}

has_one : size with_one.local_queue ≡ 1
unfolding size new_local
has_one = refl

at_most :
    (j : ℕ)
    → j < 2
    → IsVictim 0 j (worker two_workers j)
    → size (worker two_workers j).local_queue ≤ 1
at_most zero h v = ground (arith, v.0)
at_most (suc zero) h v = omega (arith, has_one)
at_most (suc (suc j)) h v = absurd (omega (arith, h))

task_steal_gives_up_example :
    ((task_steal 0 two_workers 0).1 ≡ none)
    × ((task_steal 0 two_workers 0).0.global_queue ≡ two_workers.global_queue)
task_steal_gives_up_example =
    task_steal_gives_up 0 two_workers 0 1 refl (omega arith) (refl, refl) has_one at_most
