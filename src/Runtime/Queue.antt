-- ===== src/Runtime/Queue.antt =====
-- include/faio/detail/runtime/core/queue.hpp: the global queue, and the local queue of a worker. A
-- coroutine is a number. A call of the
-- owner is one step, without a thief at work between its reads and writes, so its compare-exchange
-- succeeds; a thief that has begun and not finished shows in `steal` and `local_head`.
pub mod Window
pub mod Laws
pub mod Global
mod Tests
use faio.Base.{
  ℕ, zero, suc, ◌+◌, ◌-◌, ◌*◌, ◌/◌, ◌%◌, ◌^◌, Bool, true, false, not, List, [], ◌∷◌, ◌++◌, Option,
  none, some, get_or, set, replicate, if◌then◌else◌, ◌==◌, ltb, leb,
}
use faio.Config.{local_queue_capacity}

-- `std::coroutine_handle<>`: a coroutine, or null.
abbrev pub Handle : Type 0
Handle = Option ℕ

pub record GlobalQueue : Type 0 where
  pub queue : List Handle
  pub closed : Bool

-- `none` where it throws.
unfoldable pub push_global : GlobalQueue → Handle → Option GlobalQueue
push_global g task = if g.closed then none else some (record g { queue = g.queue ++ task ∷ [] })

unfoldable pub push_global_batch : GlobalQueue → List Handle → Option GlobalQueue
push_global_batch g tasks = if g.closed then none else some (record g { queue = g.queue ++ tasks })

-- Numbers of 32 bits.
abbrev pub add_32 : ℕ → ℕ → ℕ
add_32 a b = (a + b) % 2 ^ 32

abbrev pub sub_32 : ℕ → ℕ → ℕ
sub_32 a b = (a + 2 ^ 32 - b) % 2 ^ 32

abbrev pub pack : ℕ → ℕ → ℕ
pack steal local_head = steal * 2 ^ 32 + local_head

abbrev pub unpack_steal : ℕ → ℕ
unpack_steal head = head / 2 ^ 32 % 2 ^ 32

abbrev pub unpack_local_head : ℕ → ℕ
unpack_local_head head = head % 2 ^ 32

pub record LocalQueue : Type 0 where
  pub tasks : List Handle
  pub head : ℕ
  pub tail : ℕ

unfoldable pub new_local : LocalQueue
new_local = record { tasks = replicate local_queue_capacity none; head = 0; tail = 0 }

-- `index & _mask`.
abbrev pub slot : ℕ → ℕ
slot index = index % local_queue_capacity

unfoldable pub remain_size : LocalQueue → ℕ
remain_size q = local_queue_capacity - sub_32 q.tail (unpack_steal q.head)

unfoldable pub size : LocalQueue → ℕ
size q = sub_32 q.tail (unpack_local_head q.head)

abbrev pub store_batch : List Handle → ℕ → List Handle → List Handle
store_batch slots tail [] = slots
store_batch slots tail (task ∷ rest) = store_batch (set slots (slot tail) task) (add_32 tail 1) rest

abbrev pub tail_after : ℕ → List Handle → ℕ
tail_after tail [] = tail
tail_after tail (task ∷ rest) = tail_after (add_32 tail 1) rest

unfoldable pub push_back_batch : LocalQueue → List Handle → LocalQueue
push_back_batch q batch = record q {
  tasks = store_batch q.tasks q.tail batch;
  tail = tail_after q.tail batch;
}

-- The end of `push_back`: the task is stored at the tail.
unfoldable pub store : LocalQueue → Handle → LocalQueue
store q task = record q { tasks = set q.tasks (slot q.tail) task; tail = add_32 q.tail 1 }

-- The loop of `handle_overflow`: `n` slots from `index` on are emptied; their tasks come in order.
abbrev pub take_out : List Handle → ℕ → ℕ → List Handle × List Handle
take_out slots index zero = (slots, [])
take_out slots index (suc n) =
    let rest = take_out (set slots (slot index) none) (add_32 index 1) n in
    (rest.0, get_or slots (slot index) none ∷ rest.1)

-- `CAPACITY / 2`.
abbrev pub take_len : ℕ
take_len = local_queue_capacity / 2

-- `handle_overflow`: the queue, and what it pushes to the global queue.
unfoldable pub handle_overflow : LocalQueue → Handle → ℕ → LocalQueue × List Handle
handle_overflow q task local_head =
    let out = take_out q.tasks local_head take_len in
    let next_head = add_32 local_head take_len in
    (record q { tasks = out.0; head = pack next_head next_head }, out.1 ++ task ∷ [])

-- The queue, and the global queue, or `none` where it throws.
unfoldable pub push_back : LocalQueue → Handle → GlobalQueue → LocalQueue × Option GlobalQueue
push_back q task g =
    let steal = unpack_steal q.head in
    let local_head = unpack_local_head q.head in
    if ltb (sub_32 q.tail steal) local_queue_capacity
    then (store q task, some g)
    else (if not (steal == local_head)
        then (q, push_global g task)
        else (let over = handle_overflow q task local_head in (over.0, push_global_batch g over.1)))

unfoldable pub try_pop : LocalQueue → LocalQueue × Option Handle
try_pop q =
    let steal = unpack_steal q.head in
    let local_head = unpack_local_head q.head in
    let next_local_head = add_32 local_head 1 in
    if local_head == q.tail then (q, none) else (
      record q {
        tasks = set q.tasks (slot local_head) none;
        head =
            (if local_head == steal
              then pack next_local_head next_local_head
              else pack steal next_local_head);
      },
      some (get_or q.tasks (slot local_head) none),
    )

-- Step 2 of `be_stolen_by_impl`: `n` tasks from `src_index` on are copied to `dst_index` and on.
abbrev pub copy_stolen : List Handle → ℕ → List Handle → ℕ → ℕ → List Handle
copy_stolen src src_index dst dst_index zero = dst
copy_stolen src src_index dst dst_index (suc n) =
    copy_stolen src (add_32 src_index 1)
      (set dst (slot dst_index) (get_or src (slot src_index) none)) (add_32 dst_index 1) n

-- The thief's part of `be_stolen_by_impl` and the rest of `be_stolen_by`, for `n` tasks, at least one:
-- both heads of the source move on, and the last task copied is not left in the target but returned.
unfoldable pub steal_tasks : LocalQueue → LocalQueue → ℕ → LocalQueue × LocalQueue × Option Handle
steal_tasks src dst n =
    let local_head = unpack_local_head src.head in
    let moved = copy_stolen src.tasks local_head dst.tasks dst.tail n in
    let next_dst_tail = add_32 dst.tail (n - 1) in
    (
      record src { head = pack (add_32 local_head n) (add_32 local_head n) },
      record dst { tasks = moved; tail = next_dst_tail },
      some (get_or moved (slot next_dst_tail) none),
    )

-- The source and the target afterwards, and the task returned.
unfoldable pub be_stolen_by : LocalQueue → LocalQueue → LocalQueue × LocalQueue × Option Handle
be_stolen_by src dst =
    let n = sub_32 src.tail (unpack_local_head src.head) / 2 in
    if ltb (local_queue_capacity / 2) (sub_32 dst.tail (unpack_steal dst.head))
    then (src, dst, none)
    else (if unpack_steal src.head == unpack_local_head src.head
        then (if n == 0 then (src, dst, none) else steal_tasks src dst n)
        else (src, dst, none))
