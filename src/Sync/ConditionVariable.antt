-- ===== src/Sync/ConditionVariable.antt =====
-- include/faio/detail/sync/condition_variable.hpp: a list of waiting coroutines, the latest first. A
-- call whose compare-exchange succeeds is one step.
mod Tests
use mathlib.Core.List.{Perm, perm_middle}
use mathlib.Core.List.Perm
use faio.Base.{
  ℕ, ◌≡◌, refl, sym, ap, subst, ◌∙◌, Bool, true, List, [], ◌∷◌, ◌++◌, Option, none, some,
  append-nil, append_assoc,
}
use faio.Sync.Mutex
use faio.Sync.Mutex.{Mutex}

pub record ConditionVariable : Type 0 where
  pub awaiters : List ℕ

-- `Awaiter::await_suspend`: the coroutine is put in the list, and the mutex that it holds is unlocked;
-- `none` where that terminates the program.
unfoldable pub await_suspend :
    ConditionVariable → Mutex → ℕ → ConditionVariable × Option (Mutex × Option ℕ)
await_suspend cv m handle = (record cv { awaiters = handle ∷ cv.awaiters }, Mutex.unlock m)

-- `resume`: the coroutines of a list go on the run queue, in its order.
abbrev pub resume : List ℕ → List ℕ
resume [] = []
resume (awaiter ∷ next) = awaiter ∷ resume next

abbrev pub notify_first : List ℕ → ConditionVariable × List ℕ
notify_first [] = (record { awaiters = [] }, [])
notify_first (awaiter ∷ next) = (record { awaiters = next }, resume (awaiter ∷ []))

-- The list afterwards, and the coroutines put on the run queue.
unfoldable pub notify_one : ConditionVariable → ConditionVariable × List ℕ
notify_one cv = notify_first cv.awaiters

unfoldable pub notify_all : ConditionVariable → ConditionVariable × List ℕ
notify_all cv = (record { awaiters = [] }, resume cv.awaiters)

pub data Call : Type 0 where
  waits : Mutex → ℕ → Call
  notifies_one : Call
  notifies_all : Call

-- The condition variable, who came to wait, and who was woken.
pub record Log : Type 0 where
  pub variable : ConditionVariable
  pub came : List ℕ
  pub woken : List ℕ

abbrev pub call : Call → ConditionVariable → Log
call (waits m handle) cv = record {
  variable = (await_suspend cv m handle).0;
  came = handle ∷ [];
  woken = [];
}
call notifies_one cv =
    let after = notify_one cv in record { variable = after.0; came = []; woken = after.1 }
call notifies_all cv =
    let after = notify_all cv in record { variable = after.0; came = []; woken = after.1 }

abbrev pub calls : List Call → ConditionVariable → Log
calls [] cv = record { variable = cv; came = []; woken = [] }
calls (c ∷ cs) cv =
    let one = call c cv in
    let rest = calls cs one.variable in
    record {
      variable = rest.variable;
      came = rest.came ++ one.came;
      woken = one.woken ++ rest.woken;
    }

resume-whole : (xs : List ℕ) → resume xs ≡ xs
resume-whole [] = refl
resume-whole (x ∷ xs) = ap (◌∷◌ x) (resume-whole xs)

first-whole : (xs : List ℕ) → (notify_first xs).1 ++ (notify_first xs).0.awaiters ≡ xs
first-whole [] = refl
first-whole (x ∷ xs) = refl

call-whole :
    (c : Call) (cv : ConditionVariable)
    → (call c cv).woken ++ (call c cv).variable.awaiters ≡ (call c cv).came ++ cv.awaiters
unfolding await_suspend notify_one notify_all
call-whole (waits m handle) cv = refl
call-whole notifies_one cv = first-whole cv.awaiters
call-whole notifies_all cv = append-nil (resume cv.awaiters) ∙ resume-whole cv.awaiters

-- Whatever waits and notifications a condition variable sees, no one who waits is lost or woken twice:
-- those woken and those who still wait are those who waited before and those who came.
pub calls_wake :
    (cs : List Call) (cv : ConditionVariable)
    → Perm
        ((calls cs cv).woken ++ (calls cs cv).variable.awaiters)
        ((calls cs cv).came ++ cv.awaiters)
calls_wake [] cv = Perm.refl cv.awaiters
calls_wake (c ∷ cs) cv =
    let one = call c cv in
    let rest = calls cs one.variable in
    let swapped =
      subst (λ l. Perm (one.woken ++ (rest.came ++ one.variable.awaiters)) l)
        (ap (◌++◌ rest.came) (call-whole c cv) ∙ sym (append_assoc rest.came one.came cv.awaiters))
        (swap_front one.woken rest.came one.variable.awaiters) in
    subst (λ l. Perm l ((rest.came ++ one.came) ++ cv.awaiters))
      (sym (append_assoc one.woken rest.woken rest.variable.awaiters))
      (Perm.trans (Perm.append_left one.woken (calls_wake cs one.variable)) swapped)
  where
    swap_front : (xs ys zs : List ℕ) → Perm (xs ++ (ys ++ zs)) (ys ++ (xs ++ zs))
    swap_front [] ys zs = Perm.refl _
    swap_front (x ∷ xs) ys zs =
        Perm.trans (Perm.cons x (swap_front xs ys zs)) (Perm.symm (perm_middle ys (xs ++ zs)))
