-- ===== src/Runtime/Queue/Laws.antt =====
-- The local queue (queue.hpp) is a queue of tasks.
use faio.Base.{
  ==→eq, ℕ, suc, ◌+◌, ◌-◌, ◌/◌, ◌^◌, ◌≤◌, ◌<◌, ◌≡◌, ◌≢◌, ◌⊎◌, refl, sym, ap, ap₂, ◌∙◌, false, List,
  [], ◌∷◌, ◌++◌, Option, none, some, inl, inr, Bool-cases, arith, get_or, set, length, length-set,
  ◌==◌, ltb,
}
use faio.Config.{local_queue_capacity}
use faio.Sync.RingBuffer.Laws.{take_front}
use faio.Runtime.Queue.{
  Handle, GlobalQueue, push_global, push_global_batch, add_32, sub_32, pack, unpack_steal,
  unpack_local_head, LocalQueue, slot, store, take_out, take_len, handle_overflow, push_back,
  try_pop, copy_stolen, steal_tasks, be_stolen_by,
}
use faio.Runtime.Queue.Window.{
  window, window-set, window-store, window-copy_stolen, length-copy_stolen, window-append,
  window-snoc, take_out-behind, take_out-window, length-take_out,
}

-- The tasks that no thief has claimed, from the local head to the tail.
abbrev pub contents : LocalQueue → List Handle
contents q = window q.tasks (unpack_local_head q.head) (sub_32 q.tail (unpack_local_head q.head))

-- The slots are 256, the tail is a number of 32 bits, and from `steal` to the tail, with the local
-- head between them, are at most as many tasks as there are slots.
pub record QueueIsValid (q : LocalQueue) : Type 0 where
  pub wide : length q.tasks ≡ local_queue_capacity
  pub tail_fits : q.tail < 2 ^ 32
  pub between : sub_32 q.tail (unpack_local_head q.head) ≤ sub_32 q.tail (unpack_steal q.head)
  pub held : sub_32 q.tail (unpack_steal q.head) ≤ local_queue_capacity

-- Of two numbers below 2 ^ 32, a packed head unpacks to its two halves.
pub unpack-pack :
    (s l : ℕ)
    → s < 2 ^ 32
    → l < 2 ^ 32
    → (unpack_steal (pack s l) ≡ s) × (unpack_local_head (pack s l) ≡ l)
unpack-pack s l hs hl = (omega arith, omega arith)

module _ (q : LocalQueue) (v : QueueIsValid q) where
  store-contents :
      (task : Handle)
      → sub_32 q.tail (unpack_steal q.head) < local_queue_capacity
      → QueueIsValid (store q task) × (contents (store q task) ≡ contents q ++ task ∷ [])
  unfolding store
  store-contents task room = (
    record {
      wide = length-set q.tasks (slot q.tail) task ∙ v.wide;
      tail_fits = omega arith;
      between = omega (arith, v.between, v.tail_fits);
      held = omega (arith, v.held, v.tail_fits);
    },
    ap (window (set q.tasks (slot q.tail) task) (unpack_local_head q.head))
          {y = suc (sub_32 q.tail (unpack_local_head q.head))}
          (omega (arith, v.between, v.tail_fits))
        ∙ window-store q.tasks task (sub_32 q.tail (unpack_local_head q.head))
            (unpack_local_head q.head) q.tail v.wide (omega (arith, v.tail_fits))
            (omega (arith, v.between)),
  )

  abbrev local_head : ℕ
  local_head = unpack_local_head q.head

  -- The first half of the tasks, which an overflow moves.
  abbrev pub first_half : List Handle
  first_half = window q.tasks local_head take_len

  overflow-contents :
      (task : Handle)
      → unpack_steal q.head ≡ local_head
      → sub_32 q.tail local_head ≡ local_queue_capacity
      → QueueIsValid (handle_overflow q task local_head).0
        × (contents q ≡ first_half ++ contents (handle_overflow q task local_head).0)
        × ((handle_overflow q task local_head).1 ≡ first_half ++ task ∷ [])
  unfolding handle_overflow
  overflow-contents task alone full =
      let fits : local_head < 2 ^ 32 = omega arith in
      let opened =
        unpack-pack (add_32 local_head take_len) (add_32 local_head take_len) (omega arith)
          (omega arith) in
      let left : sub_32 q.tail (add_32 local_head take_len) ≡ take_len =
        omega (arith, v.tail_fits) in
      let next_head = add_32 local_head take_len in
      let rest : sub_32 q.tail (unpack_local_head (pack next_head next_head)) ≡ take_len =
        omega (arith, opened.1, left) in
      (
        record {
          wide = length-take_out take_len local_head q.tasks ∙ v.wide;
          tail_fits = v.tail_fits;
          between = omega (arith, opened.0, opened.1);
          held = omega (arith, opened.0, left);
        },
        ap (window q.tasks local_head) {y = take_len + take_len} (omega arith)
            ∙ window-append q.tasks take_len take_len local_head
            ∙ ap (◌++◌ first_half) (
                sym (take_out-behind take_len take_len local_head q.tasks (omega arith))
                ∙ ap₂ (window (take_out q.tasks local_head take_len).0) (sym opened.1) (sym rest)),
        ap (λ xs. xs ++ task ∷ []) (take_out-window take_len local_head q.tasks (omega arith)),
      )

  -- From the first task that is not yet out of the queue to the tail there is room for one more.
  abbrev pub HasRoom : Type 0
  HasRoom = sub_32 q.tail (unpack_steal q.head) < local_queue_capacity

  -- No thief is taking tasks.
  abbrev pub NoThief : Type 0
  NoThief = unpack_steal q.head ≡ local_head

  -- Where there is room, the task is behind the others. Where there is none, the task is in the global
  -- queue if a thief is at work, and else the first half of the tasks and then the task are there.
  abbrev pub Placed : Handle → GlobalQueue → LocalQueue × Option GlobalQueue → Type 0
  Placed task g (after, none) = ⊥
  Placed task g (after, some global) =
      QueueIsValid after
      × ((HasRoom × (contents after ≡ contents q ++ task ∷ []) × (global ≡ g))
          ⊎ (((¬ HasRoom)
                × (¬ NoThief)
                × (after ≡ q)
                × (global ≡ record g { queue = g.queue ++ task ∷ [] }))
              ⊎ ((¬ HasRoom)
                  × NoThief
                  × (contents q ≡ first_half ++ contents after)
                  × (global ≡ record g { queue = g.queue ++ (first_half ++ task ∷ []) }))))

  -- With the global queue open, `push_back` keeps a well formed queue well formed. Where the queue has
  -- room it puts the task behind the others and leaves the global queue alone. Where it has none, it puts
  -- the task into the global queue and leaves the local one alone if a thief is at work, and else moves
  -- the first half of the tasks there, in order, and the task behind it.
  pub push_back-Placed :
      (task : Handle) (g : GlobalQueue) → g.closed ≡ false → Placed task g (push_back q task g)
  unfolding push_back push_global push_global_batch
  push_back-Placed task g open_queue =
      elim (Bool-cases (ltb (sub_32 q.tail (unpack_steal q.head)) local_queue_capacity)) [
        | inl room ↦
            let stored = store-contents task (ground arith) in
            rw room (stored.0, inl (ground arith, stored.1, refl))
        | inr full ↦
            let no_room : ¬ HasRoom = λ h. ground (arith, h) in
            elim (Bool-cases (unpack_steal q.head == unpack_local_head q.head)) [
              | inl alone ↦
                  let same = ==→eq _ _ alone in
                  let over = overflow-contents task same (ground (arith, same, v.held)) in
                  rw (full, alone, open_queue)
                    (
                      over.0,
                      inr (
                          inr (
                            no_room,
                            same,
                            over.1,
                            ap
                                (λ (xs : List Handle). record {
                                  queue = g.queue ++ xs;
                                  closed = false;
                                })
                                over.2,
                          )),
                    )
              | inr thief ↦
                  let at_work : ¬ NoThief = λ h. ground (arith, h) in
                  rw (full, thief, open_queue) (v, inr (inl (no_room, at_work, refl, refl)))
            ]
      ]

  popped_head : ℕ → LocalQueue
  popped_head head = record q { tasks = set q.tasks (slot local_head) none; head = head }

  -- The queue without its oldest task, for either way of moving the head on.
  advanced :
      (head : ℕ)
      → local_head ≢ q.tail
      → unpack_local_head head ≡ add_32 local_head 1
      → (unpack_steal head ≡ add_32 local_head 1) ⊎ (unpack_steal head ≡ unpack_steal q.head)
      → QueueIsValid (popped_head head)
        × (contents q ≡ get_or q.tasks (slot local_head) none ∷ contents (popped_head head))
  unfolding popped_head
  advanced head busy moved steal =
      let n = sub_32 q.tail local_head in
      let shorter : sub_32 q.tail (add_32 local_head 1) + 1 ≡ n =
        omega (arith, v.tail_fits, busy) in
      (
        record {
          wide = length-set q.tasks (slot local_head) none ∙ v.wide;
          tail_fits = v.tail_fits;
          between = elim steal [
            | inl both ↦ omega (arith, both, moved)
            | inr kept ↦ omega (arith, kept, moved, shorter, v.between)
          ];
          held = elim steal [
            | inl both ↦ omega (arith, both, shorter, v.between, v.held)
            | inr kept ↦ omega (arith, kept, v.held)
          ];
        },
        ap (window q.tasks local_head) {y = suc (sub_32 q.tail (add_32 local_head 1))}
              (omega (arith, shorter))
            ∙ ap (◌∷◌ (get_or q.tasks (slot local_head) none)) (
                sym (
                  window-set q.tasks none (sub_32 q.tail (add_32 local_head 1))
                    (add_32 local_head 1) local_head (local_queue_capacity - 1) (omega arith)
                    (omega (arith, shorter, v.between, v.held)) (omega arith))
                ∙ ap (λ (k : ℕ). window (set q.tasks (slot local_head) none) k (sub_32 q.tail k))
                    (sym moved)),
      )

  -- `try_pop` gives the oldest task that no thief has claimed and takes it off, or gives nothing where
  -- there is none; it keeps a well formed queue well formed.
  pub try_pop-contents :
      QueueIsValid (try_pop q).0
      × (((try_pop q).1, contents (try_pop q).0) ≡ take_front (contents q))
  unfolding try_pop popped_head
  try_pop-contents = elim (Bool-cases (local_head == q.tail)) [
    | inl drained ↦
        let empty : contents q ≡ [] =
          ap (window q.tasks local_head) {y = 0} (omega (arith, ==→eq local_head q.tail drained)) in
        rw drained (v, ap (λ xs. (none, xs)) empty ∙ sym (ap take_front empty))
    | inr busy ↦ elim (Bool-cases (local_head == unpack_steal q.head)) [
      | inl alone ↦
          let opened =
            unpack-pack (add_32 local_head 1) (add_32 local_head 1) (omega arith) (omega arith) in
          let both =
            advanced (pack (add_32 local_head 1) (add_32 local_head 1)) (ground arith) opened.1
              (inl opened.0) in
          rw (busy, alone) (both.0, sym (ap take_front both.1))
      | inr thief ↦
          let opened =
            unpack-pack (unpack_steal q.head) (add_32 local_head 1) (omega arith) (omega arith) in
          let both =
            advanced (pack (unpack_steal q.head) (add_32 local_head 1)) (ground arith) opened.1
              (inr opened.0) in
          rw (busy, thief) (both.0, sym (ap take_front both.1))
    ]
  ]

-- What the thief takes from `src`: the first half of its tasks. All but the last go behind those of
-- `dst`, and the last is returned.
pub record Stolen (src dst src' dst' : LocalQueue) (stolen : List Handle) (last : Handle)
    : Type 0 where
  pub src_is_valid : QueueIsValid src'
  pub dst_is_valid : QueueIsValid dst'
  pub from_front : contents src ≡ stolen ++ contents src'
  pub to_back : contents dst' ++ last ∷ [] ≡ contents dst ++ stolen

module _ (src dst : LocalQueue) (v : QueueIsValid src) (w : QueueIsValid dst) where
  steal_tasks-Stolen :
      (n : ℕ)
      → 0 < n
      → n ≤ 128
      → n + n ≤ sub_32 src.tail (unpack_local_head src.head)
      → unpack_steal src.head ≡ unpack_local_head src.head
      → sub_32 dst.tail (unpack_steal dst.head) ≤ 128
      → Stolen src dst
          (steal_tasks src dst n).0
          (steal_tasks src dst n).1
          (window src.tasks (unpack_local_head src.head) n)
          (get_or (steal_tasks src dst n).1.tasks (slot (steal_tasks src dst n).1.tail) none)
  unfolding steal_tasks
  steal_tasks-Stolen n some_task few half alone room =
      let head = unpack_local_head src.head in
      let next_head = add_32 head n in
      let opened = unpack-pack next_head next_head (omega arith) (omega arith) in
      let left : sub_32 src.tail next_head + n ≡ sub_32 src.tail head =
        omega (arith, v.tail_fits, half, v.held, alone) in
      let rest : sub_32 src.tail (unpack_local_head (pack next_head next_head))
          ≡ sub_32 src.tail next_head =
        omega (arith, opened.1) in
      let moved = copy_stolen src.tasks head dst.tasks dst.tail n in
      let size_dst = sub_32 dst.tail (unpack_local_head dst.head) in
      record {
        src_is_valid = record {
          wide = v.wide;
          tail_fits = v.tail_fits;
          between = omega (arith, opened.0, opened.1);
          held = omega (arith, opened.0, left, v.held, v.between);
        };
        dst_is_valid = record {
          wide = length-copy_stolen src.tasks n head dst.tasks dst.tail ∙ w.wide;
          tail_fits = omega arith;
          between = omega (arith, w.between, w.tail_fits);
          held = omega (arith, w.tail_fits, room, few);
        };
        from_front =
            ap (window src.tasks head) {y = n + sub_32 src.tail next_head} (omega (arith, left))
            ∙ window-append src.tasks n (sub_32 src.tail next_head) head
            ∙ ap (λ xs. window src.tasks head n ++ xs)
                (ap₂ (window src.tasks) (sym opened.1) (sym rest));
        to_back =
            ap
              (λ (k : ℕ).
                window moved (unpack_local_head dst.head) k
                ++ get_or moved (slot (add_32 dst.tail (n - 1))) none ∷ [])
              {y = size_dst + (n - 1)} (omega (arith, w.tail_fits, w.between, w.held))
            ∙ ap
                (λ (k : ℕ).
                  window moved (unpack_local_head dst.head) (size_dst + (n - 1))
                  ++ get_or moved (slot k) none ∷ [])
                {x = add_32 dst.tail (n - 1)}
                {y = add_32 (unpack_local_head dst.head) (size_dst + (n - 1))}
                (omega (arith, w.tail_fits))
            ∙ sym (window-snoc moved (size_dst + (n - 1)) (unpack_local_head dst.head))
            ∙ ap (window moved (unpack_local_head dst.head)) {x = suc (size_dst + (n - 1))}
                {y = size_dst + n} (omega arith)
            ∙ window-copy_stolen src.tasks n head dst.tasks size_dst (unpack_local_head dst.head)
                dst.tail w.wide (omega (arith, w.tail_fits)) (omega (arith, w.between, room, few));
      }

  -- Nothing happens, for a reason; or half of the source's tasks, rounded down, are taken.
  abbrev pub Robbed : LocalQueue × LocalQueue × Option Handle → Type 0
  Robbed (src', dst', none) =
      (src' ≡ src)
      × (dst' ≡ dst)
      × ((128 < sub_32 dst.tail (unpack_steal dst.head))
          ⊎ ((unpack_steal src.head ≢ unpack_local_head src.head)
              ⊎ (sub_32 src.tail (unpack_local_head src.head) < 2)))
  Robbed (src', dst', some last) =
      Stolen src dst src' dst'
        (window src.tasks (unpack_local_head src.head)
          (sub_32 src.tail (unpack_local_head src.head) / 2))
        last

  -- From one well formed queue to another, `be_stolen_by` takes the first half of the tasks, in order:
  -- the last of them is returned and the rest go behind those of the other queue, and both stay well
  -- formed. Nothing happens only if the other queue is more than half full, another thief is at work,
  -- or there are fewer than two tasks.
  pub be_stolen_by-Robbed : Robbed (be_stolen_by src dst)
  unfolding be_stolen_by steal_tasks
  be_stolen_by-Robbed = elim (Bool-cases (ltb 128 (sub_32 dst.tail (unpack_steal dst.head)))) [
    | inl crowded ↦ rw crowded (refl, refl, inl (ground arith))
    | inr roomy ↦ elim (Bool-cases (unpack_steal src.head == unpack_local_head src.head)) [
      | inr thief ↦ rw (roomy, thief) (refl, refl, inr (inl (ground arith)))
      | inl alone ↦ elim (Bool-cases (sub_32 src.tail (unpack_local_head src.head) / 2 == 0)) [
        | inl poor ↦ rw (roomy, alone, poor) (refl, refl, inr (inr (ground arith)))
        | inr rich ↦
            rw (roomy, alone, rich)
              (steal_tasks-Stolen (sub_32 src.tail (unpack_local_head src.head) / 2) (ground arith)
                (omega (arith, v.held, v.between)) (omega arith) (==→eq _ _ alone) (ground arith))
      ]
    ]
  ]
