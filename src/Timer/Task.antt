-- ===== src/Timer/Task.antt =====
-- include/faio/detail/runtime/core/timer/task.hpp: what a timer runs when its deadline passes. The
-- queues and the ring that `execute` writes to are parameters.
use faio.Base.{ℕ, List, [], ◌∷◌, Option, none, some}

-- A sleeping coroutine, by its handle, or a pending io_uring operation, by its user data.
pub data Target : Type 0 where
  resume : (handle : ℕ) → Target
  cancel : (user_data : ℕ) → Target

-- `address` stands for the pointer to the heap object, which `remove_task` compares.
pub record TimerTask : Type 0 where
  pub address : ℕ
  pub deadline : ℕ
  pub target : Target

-- What `execute` can change: the queues, the ring, and the user data whose `result` it has set to
-- `-ETIMEDOUT` and whose `timer_task` it has reset, newest first.
pub record World (Q U : Type 0) : Type 0 where
  pub queues : Q
  pub uring : U
  pub timed_out : List ℕ

module _ {Q U : Type 0} (push_back : ℕ → Q → Q) (get_sqe : U → Option U)
    (prep_cancel : ℕ → U → U) where
  -- Without a free submission entry the operation is marked, and not cancelled.
  unfoldable pub execute : TimerTask → World Q U → World Q U
  execute task w = elim task.target [
    | resume handle ↦ record w { queues = push_back handle w.queues }
    | cancel user_data ↦ elim (get_sqe w.uring) [
      | none ↦ record w { timed_out = user_data ∷ w.timed_out }
      | some u ↦ record w { uring = prep_cancel user_data u; timed_out = user_data ∷ w.timed_out }
    ]
  ]

  -- The calls of `execute` on a list of tasks, in order.
  unfoldable pub execute_all : List TimerTask → World Q U → World Q U
  execute_all [] w = w
  execute_all (task ∷ rest) w = execute_all rest (execute task w)
