-- ===== src/Timer/Wheel/Leaf.antt =====
-- `TimerWheel<0>` of include/faio/detail/runtime/core/timer/wheel.hpp: 64 slots of 1 ms, each a
-- linked list of tasks, and a bitmap of the slots in use (its bits, least first).
use faio.Base.{
  ℕ, zero, suc, Bool, true, false, List, [], ◌∷◌, ◌++◌, Option, none, some, min, get_or, set, drop,
  replicate, if◌then◌else◌, ◌==◌, ◌||◌, leb,
}
use mathlib.Core.Option
use faio.Config.{slot_size, slot_shift, low_bits}
use faio.Timer.Task.{TimerTask}
use faio.Timer.Sweep.{countr_zero, is_zero}
use faio.Timer.Wheel.Interface.{WheelOps}

pub record Leaf : Type 0 where
  pub task_slots : List (List TimerTask)
  pub slot_map : List Bool

abbrev pub leaf_span_ms : ℕ
leaf_span_ms = slot_size

abbrev pub new : Leaf
new = record { task_slots = replicate slot_size []; slot_map = replicate slot_size false }

-- `interval & SLOT_MASK`.
abbrev pub slot_of : ℕ → ℕ
slot_of interval = low_bits interval slot_shift

-- The task becomes the head of its slot's list.
unfoldable pub add_task : Leaf → TimerTask → ℕ → Leaf
add_task w task interval = record {
  task_slots =
      set w.task_slots (slot_of interval) (task ∷ get_or w.task_slots (slot_of interval) []);
  slot_map = set w.slot_map (slot_of interval) true;
}

-- The list without the node at `address`, if there is one.
unfoldable pub unlink : ℕ → List TimerTask → Option (List TimerTask)
unlink address [] = none
unlink address (t ∷ ts) =
    let rest = Option.map (λ us. t ∷ us) (unlink address ts) in
    if t.address == address then some ts else rest

abbrev pub is_null : List TimerTask → Bool
is_null [] = true
is_null (t ∷ ts) = false

unfoldable pub remove_task : Leaf → ℕ → ℕ → Leaf
unfolding unlink
remove_task w address interval = elim (unlink address (get_or w.task_slots (slot_of interval) [])) [
  | none ↦ w
  | some rest ↦ record {
    task_slots = set w.task_slots (slot_of interval) rest;
    slot_map = if is_null rest then set w.slot_map (slot_of interval) false else w.slot_map;
  }
]

-- The loop over the slots: the bitmap after it, the slots, and the tasks executed.
unfoldable pub expire_slots :
    ℕ → List Bool → List (List TimerTask) → List Bool × List (List TimerTask) × List TimerTask
expire_slots zero bs ss = (bs, ss, [])
expire_slots (suc n) (b ∷ bs) (s ∷ ss) =
    let (bs', ss', out) = expire_slots n bs ss in
    if b then (false ∷ bs', [] ∷ ss', s ++ out) else (b ∷ bs', s ∷ ss', out)
expire_slots (suc n) bs ss = (bs, ss, [])

unfoldable pub handle_expired_tasks : Leaf → ℕ → Leaf × List TimerTask
unfolding expire_slots
handle_expired_tasks w remaining_ms =
    let (bs, ss, out) = expire_slots (min remaining_ms slot_size) w.slot_map w.task_slots in
    (record { task_slots = ss; slot_map = bs }, out)

unfoldable pub next_deadline_time : Leaf → ℕ
next_deadline_time w = if is_zero w.slot_map then slot_size else countr_zero w.slot_map

-- Both loops of `rotate`: the slots move to the front, and the tail is reset.
unfoldable pub rotate : Leaf → ℕ → Leaf
rotate w start = if start == 0 || leb slot_size start then w else record {
  task_slots = drop start w.task_slots ++ replicate start [];
  slot_map = drop start w.slot_map ++ replicate start false;
}

unfoldable pub empty : Leaf → Bool
empty w = is_zero w.slot_map

-- `TimerWheel<0>` as the child of `TimerWheel<1>`.
abbrev pub leaf_ops : WheelOps Leaf
leaf_ops = record {
  span_ms = leaf_span_ms;
  new = new;
  add_task = add_task;
  remove_task = remove_task;
  handle_expired_tasks = handle_expired_tasks;
  next_deadline_time = next_deadline_time;
  empty = empty;
}
