-- ===== src/Runtime/Tests.antt =====
-- The scheduler's state machine with two workers.
use faio.Base.{◌≡◌, refl, false, List, [], ◌∷◌, none, arith}
use faio.Runtime.StateMachine.{
  StateMachine, ThreadCounters, new, should_wakeup, worker_to_notify, set_sleeping, set_searching,
  cancel_searching, cancel_sleeping, contains,
}
use faio.Runtime.StateMachine.Drift.{
  Call, sleep, cancel_sleep, calls, tally, calls-tally_new, worker_to_notify_deaf,
}

-- Opens the code for the tests below.
machine_code : Unit {0}
unfolding new should_wakeup worker_to_notify set_sleeping set_searching cancel_searching
    cancel_sleeping contains
machine_code = tt

-- Both workers sleep.
abbrev both_asleep : StateMachine
both_asleep = (set_sleeping (set_sleeping (new 2) 0 false).0 1 false).0

-- Worker 0 falls asleep and takes itself off the list twice, and then sleeps.
abbrev wearing : List Call
wearing = sleep 0 false ∷ cancel_sleep 0 ∷ sleep 0 false ∷ cancel_sleep 0 ∷ sleep 0 false ∷ []

wearing_counts : (calls wearing (new 2)).0.counters.working ≡ 18446744073709551615
unfolding machine_code
wearing_counts = refl

calls-tally_new_example : tally (calls wearing (new 2)).0 (calls wearing (new 2)).1 ≡ 2
calls-tally_new_example = calls-tally_new 2 wearing (omega arith)

worker_to_notify_deaf_example :
    worker_to_notify (record { working = 0; searching = 0 }) (calls wearing (new 2)).0
    ≡ ((calls wearing (new 2)).0, none)
unfolding machine_code
worker_to_notify_deaf_example =
    worker_to_notify_deaf 2 wearing (record { working = 0; searching = 0 }) (omega arith)
      (omega arith) (omega arith)

abbrev quiet : ThreadCounters
quiet = record { working = 0; searching = 0 }
