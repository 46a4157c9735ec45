-- ===== src/Timer/Wheel/Node.antt =====
-- `TimerWheel<LEVEL>` with `LEVEL >= 1`, of include/faio/detail/runtime/core/timer/wheel.hpp: 64
-- slots that hold child wheels, made when first used, and a bitmap of the slots in use (its bits,
-- least first). The child wheel is the interface `ops`.
use faio.Base.{
  ℕ, zero, suc, ◌+◌, ◌-◌, ◌*◌, ◌^◌, Bool, true, false, ◌&&◌, ◌||◌, List, [], ◌∷◌, ◌++◌, Option,
  none, some, get_or, set, drop, replicate, if◌then◌else◌, ◌==◌, leb, ltb,
}
use faio.Config.{slot_size, slot_shift, shr, low_bits, static_pow}
use faio.Timer.Task.{TimerTask}
use faio.Timer.Sweep.{countr_zero, is_zero}
use faio.Timer.Wheel.Interface.{WheelOps}

pub record Node (C : Type 0) : Type 0 where
  pub wheels_slots : List (Option C)
  pub slot_map : List Bool

-- `CHILD_SHIFT` and `SPAN_MS`.
abbrev pub child_shift : ℕ → ℕ
child_shift level = slot_shift * level

abbrev pub span_ms : ℕ → ℕ
span_ms level = static_pow slot_size (level + 1)

abbrev pub new : {C : Type 0} → Node C
new = record { wheels_slots = replicate slot_size none; slot_map = replicate slot_size false }

-- The constructor from a child wheel, which `level_up` calls: `_slot_map(1ull)`, slot 0 filled.
unfoldable pub upgrade : {C : Type 0} → C → Node C
upgrade child = record {
  wheels_slots = set (replicate slot_size none) 0 (some child);
  slot_map = set (replicate slot_size false) 0 true;
}

module _ {C : Type 0} (ops : WheelOps C) where
  -- The second half of `add_task`: the child of the slot is made if it is missing, and takes the task.
  unfoldable pub place_task : Node C → TimerTask → ℕ → ℕ → Node C
  place_task w task slot_idx child_interval = elim (get_or w.wheels_slots slot_idx none) [
    | none ↦ record {
      wheels_slots = set w.wheels_slots slot_idx (some (ops.add_task ops.new task child_interval));
      slot_map = set w.slot_map slot_idx true;
    }
    | some child ↦ record w {
      wheels_slots = set w.wheels_slots slot_idx (some (ops.add_task child task child_interval));
    }
  ]

  -- A child put back, or released with its bit when it has become empty.
  unfoldable pub put_child : Node C → ℕ → C → Node C
  put_child w idx child =
      if ops.empty child
      then record {
        wheels_slots = set w.wheels_slots idx none;
        slot_map = set w.slot_map idx false;
      }
      else record w { wheels_slots = set w.wheels_slots idx (some child) }

  -- `remove_task` with the slot and the child's interval computed.
  unfoldable pub take_task : Node C → ℕ → ℕ → ℕ → Node C
  take_task w address slot_idx child_interval = elim (get_or w.wheels_slots slot_idx none) [
    | none ↦ w
    | some child ↦ put_child w slot_idx (ops.remove_task child address child_interval)
  ]

  -- The tasks of a child that is run over its whole span. (No slot with its bit set is null: then
  -- the C++ would be undefined.)
  unfoldable pub drain : Option C → List TimerTask
  drain none = []
  drain (some child) = (ops.handle_expired_tasks child ops.span_ms).1

  -- The loop over the slots that are due as a whole.
  unfoldable pub expire_full :
      ℕ → List Bool → List (Option C) → List Bool × List (Option C) × List TimerTask
  expire_full zero bs ss = (bs, ss, [])
  expire_full (suc n) (b ∷ bs) (s ∷ ss) =
      let (bs', ss', out) = expire_full n bs ss in
      if b then (false ∷ bs', none ∷ ss', drain s ++ out) else (b ∷ bs', s ∷ ss', out)
  expire_full (suc n) bs ss = (bs, ss, [])

  -- The slot that is due in part.
  unfoldable pub expire_partial : Node C → ℕ → ℕ → Node C × List TimerTask
  expire_partial w idx partial_remaining =
      if get_or w.slot_map idx false
      then elim (get_or w.wheels_slots idx none) [
        | none ↦ (w, [])
        | some child ↦
            let (child', out) = ops.handle_expired_tasks child partial_remaining in
            (put_child w idx child', out)
      ]
      else (w, [])

  -- `handle_expired_tasks` behind its first test, with both parts of `remaining_ms` computed.
  unfoldable pub expire : Node C → ℕ → ℕ → Node C × List TimerTask
  expire w full_slots partial_remaining =
      let (bs, ss, out) = expire_full full_slots w.slot_map w.wheels_slots in
      let swept : Node C = record { wheels_slots = ss; slot_map = bs } in
      if ltb 0 partial_remaining && ltb full_slots slot_size
      then (let (w', rest) = expire_partial swept full_slots partial_remaining in (w', out ++ rest))
      else (swept, out)

module _ {C : Type 0} (ops : WheelOps C) (level : ℕ) where
  -- The slot of an interval; one past the end is reported and clamped to the last.
  unfoldable pub slot_of : ℕ → ℕ
  slot_of interval =
      if leb slot_size (shr interval (child_shift level))
      then slot_size - 1
      else shr interval (child_shift level)

  unfoldable pub add_task : Node C → TimerTask → ℕ → Node C
  add_task w task interval =
      place_task ops w task (slot_of interval) (low_bits interval (child_shift level))

  unfoldable pub remove_task : Node C → ℕ → ℕ → Node C
  remove_task w address interval =
      if leb slot_size (shr interval (child_shift level))
      then w
      else take_task ops w address (shr interval (child_shift level))
          (low_bits interval (child_shift level))

  unfoldable pub handle_expired_tasks : Node C → ℕ → Node C × List TimerTask
  handle_expired_tasks w remaining_ms =
      if is_zero w.slot_map || remaining_ms == 0
      then (w, [])
      else expire ops w (shr remaining_ms (child_shift level))
          (low_bits remaining_ms (child_shift level))

  unfoldable pub next_deadline_time : Node C → ℕ
  next_deadline_time w =
      let first_slot = countr_zero w.slot_map in
      if is_zero w.slot_map then span_ms level else elim (get_or w.wheels_slots first_slot none) [
        | none ↦ span_ms level
        | some child ↦ first_slot * 2 ^ child_shift level + ops.next_deadline_time child
      ]

  unfoldable pub empty : Node C → Bool
  empty w = is_zero w.slot_map

  abbrev pub node_ops : WheelOps (Node C)
  node_ops = record {
    span_ms = span_ms level;
    new = new;
    add_task = add_task;
    remove_task = remove_task;
    handle_expired_tasks = handle_expired_tasks;
    next_deadline_time = next_deadline_time;
    empty = empty;
  }

-- Both loops of `rotate`: the slots move to the front, and the tail is reset.
unfoldable pub rotate : {C : Type 0} → Node C → ℕ → Node C
rotate w start = if start == 0 || leb slot_size start then w else record {
  wheels_slots = drop start w.wheels_slots ++ replicate start none;
  slot_map = drop start w.slot_map ++ replicate start false;
}

-- The child of slot 0 with the wheel that is left, or nothing if the slot is empty.
unfoldable pub level_down : {C : Type 0} → Node C → Option (C × Node C)
level_down w = elim (get_or w.wheels_slots 0 none) [
  | none ↦ none
  | some child ↦ some (
    child,
    record { wheels_slots = set w.wheels_slots 0 none; slot_map = set w.slot_map 0 false },
  )
]

-- `(_slot_map & ~1ull) == 0`.
unfoldable pub can_level_down : {C : Type 0} → Node C → Bool
can_level_down w = is_zero (set w.slot_map 0 false)
