-- ===== src/Sync/ConditionVariable/Tests.antt =====
-- Three coroutines wait (condition_variable.hpp), one is woken, then the rest.
use mathlib.Core.List.{Perm}
use faio.Base.{List, [], ◌∷◌, ◌++◌}
use faio.Sync.Mutex.{Mutex, locked}
use faio.Sync.ConditionVariable.{
  ConditionVariable, Call, waits, notifies_one, notifies_all, calls, calls_wake,
}

abbrev unused : ConditionVariable
unused = record { awaiters = [] }

abbrev held : Mutex
held = record { state = locked []; fifo_awaiters = [] }

abbrev meeting : List Call
meeting = waits held 1 ∷ waits held 2 ∷ waits held 3 ∷ notifies_one ∷ notifies_all ∷ []

calls_wake_example :
    Perm
      ((calls meeting unused).woken ++ (calls meeting unused).variable.awaiters)
      ((calls meeting unused).came ++ unused.awaiters)
calls_wake_example = calls_wake meeting unused
