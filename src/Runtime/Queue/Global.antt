-- ===== src/Runtime/Queue/Global.antt =====
-- The pops of the global queue (queue.hpp), each under its mutex.
use faio.Base.{
  ℕ, zero, suc, ◌≤◌, ◌≡◌, ◌⊎◌, refl, ap, Bool, true, List, [], ◌∷◌, ◌++◌, Option, none, some, inl,
  inr, Bool-cases, arith, length, min, if◌then◌else◌, ◌==◌,
}
use faio.Runtime.Queue.{Handle, GlobalQueue}

abbrev pub close : GlobalQueue → GlobalQueue
close g = record g { closed = true }

abbrev pub is_empty : GlobalQueue → Bool
is_empty g = length g.queue == 0

abbrev pub front_of : GlobalQueue → List Handle → GlobalQueue × Option Handle
front_of g [] = (g, none)
front_of g (task ∷ rest) = (record g { queue = rest }, some task)

unfoldable pub try_pop_global : GlobalQueue → GlobalQueue × Option Handle
try_pop_global g = front_of g g.queue

-- The loop: `n` times the front is taken off. The tasks, and the queue that is left.
abbrev pub pop_fronts : ℕ → List Handle → List Handle × List Handle
pop_fronts zero queue = ([], queue)
pop_fronts (suc n) [] = ([], [])
pop_fronts (suc n) (task ∷ queue) = let rest = pop_fronts n queue in (task ∷ rest.0, rest.1)

unfoldable pub try_pop_batch : GlobalQueue → ℕ → GlobalQueue × Option (List Handle)
try_pop_batch g size =
    let n = min (length g.queue) size in
    let out = pop_fronts n g.queue in
    if is_empty g
    then (g, none)
    else (if n == 0 then (g, none) else (record g { queue = out.1 }, some out.0))

pop_fronts-append :
    (n : ℕ) (queue : List Handle) → queue ≡ (pop_fronts n queue).0 ++ (pop_fronts n queue).1
pop_fronts-append zero queue = refl
pop_fronts-append (suc n) [] = refl
pop_fronts-append (suc n) (task ∷ queue) = ap (◌∷◌ task) (pop_fronts-append n queue)

length-pop_fronts :
    (n : ℕ) (queue : List Handle) → n ≤ length queue → length (pop_fronts n queue).0 ≡ n
length-pop_fronts zero queue h = refl
length-pop_fronts (suc n) [] h = absurd (omega arith)
length-pop_fronts (suc n) (task ∷ queue) h = ap suc (length-pop_fronts n queue (omega arith))

-- Nothing is taken, or the front of the queue, of `size` tasks or of all there are.
abbrev pub Batch : GlobalQueue → ℕ → GlobalQueue × Option (List Handle) → Type 0
Batch g size (after, none) = (after ≡ g) × ((length g.queue ≡ 0) ⊎ (size ≡ 0))
Batch g size (after, some tasks) =
    (g.queue ≡ tasks ++ after.queue)
    × (length tasks ≡ min (length g.queue) size)
    × (after.closed ≡ g.closed)

-- `try_pop_batch` takes `size` tasks off the front of the queue, or all if there are fewer, in order;
-- it gives nothing only if the queue is empty or `size` is 0.
pub try_pop_batch-Batch : (g : GlobalQueue) (size : ℕ) → Batch g size (try_pop_batch g size)
unfolding try_pop_batch
try_pop_batch-Batch g size = elim (Bool-cases (length g.queue == 0)) [
  | inl none_left ↦ rw none_left (refl, inl (ground arith))
  | inr busy ↦ elim (Bool-cases (min (length g.queue) size == 0)) [
    | inl nothing ↦ rw (busy, nothing) (refl, inr (ground arith))
    | inr several ↦
        rw (busy, several)
          (
            pop_fronts-append (min (length g.queue) size) g.queue,
            length-pop_fronts (min (length g.queue) size) g.queue (omega arith),
            refl,
          )
  ]
]
