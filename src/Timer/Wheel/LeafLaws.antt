-- ===== src/Timer/Wheel/LeafLaws.antt =====
-- `TimerWheel<0>` against its list of entries: the laws of the interface for a leaf.
use faio.Base.{
  ℕ, zero, suc, ◌*◌, ◌≤◌, ◌<◌, ◌≡◌, refl, sym, ap, ◌∙◌, ◌⊎◌, Bool, true, false, not, List, [], ◌∷◌,
  ◌++◌, map, none, some, min, arith, inl, inr, Bool-cases, length, get_or, set, take, replicate,
  keep, remove, length-set, length-replicate, map-set, map-append, set-get_or, get_or-map,
  length-map, if◌then◌else◌, ◌==◌,
}
use faio.Config.{slot_size}
use faio.Timer.Task.{TimerTask}
use faio.Timer.Offsets.{
  Entry, shift, tasks, due, later, is_task, insert, Below, From, IsSorted, tasks-shift, From-mono,
}
use faio.Timer.Gather.{
  gather, Narrow, SlotsSorted, gather-Below, gather-IsSorted, gather-insert, gather-remove,
}
use faio.Timer.Sweep.{
  countr_zero, is_zero, clear, length-clear, gather-clear, gather_first, gather_unmarked,
}
use faio.Timer.Wheel.Interface.{WheelLaws, Adds, Removes, Expires}
use faio.Timer.Wheel.Leaf.{
  Leaf, new, slot_of, add_task, unlink, is_null, remove_task, expire_slots, handle_expired_tasks,
  next_deadline_time, empty, leaf_ops,
}

abbrev pub slot_entries : List TimerTask → List Entry
slot_entries = map (λ t. (0, t))

abbrev pub occupied : List TimerTask → Bool
occupied s = not (is_null s)

abbrev pub leaf_entries : Leaf → List Entry
leaf_entries w = gather slot_entries 1 0 w.task_slots

-- 64 slots, and the bitmap marks exactly those that hold a task.
pub record LeafIsValid (w : Leaf) : Type 0 where
  pub slots : length w.task_slots ≡ slot_size
  pub mirror : w.slot_map ≡ map occupied w.task_slots

slot_entries-Below : (s : List TimerTask) → Below 1 (slot_entries s)
slot_entries-Below [] = tt
slot_entries-Below (t ∷ s) = (omega arith, slot_entries-Below s)

slot_entries-From : (s : List TimerTask) → From 0 (slot_entries s)
slot_entries-From [] = tt
slot_entries-From (t ∷ s) = (omega arith, slot_entries-From s)

slot_entries-IsSorted : (s : List TimerTask) → IsSorted (slot_entries s)
slot_entries-IsSorted [] = tt
slot_entries-IsSorted (t ∷ s) = (slot_entries-From s, slot_entries-IsSorted s)

pub slots-Narrow : (ss : List (List TimerTask)) → Narrow slot_entries 1 ss
slots-Narrow [] = tt
slots-Narrow (s ∷ ss) = (slot_entries-Below s, slots-Narrow ss)

slots-Sorted : (ss : List (List TimerTask)) → SlotsSorted slot_entries 1 ss
slots-Sorted [] = tt
slots-Sorted (s ∷ ss) = (slot_entries-IsSorted s, slots-Sorted ss)

slot_unoccupied : (s : List TimerTask) → occupied s ≡ false → slot_entries s ≡ []
slot_unoccupied [] h = refl
slot_unoccupied (t ∷ s) h = cc

tasks-slot_entries : (s : List TimerTask) → tasks (slot_entries s) ≡ s
tasks-slot_entries [] = refl
tasks-slot_entries (t ∷ s) = ap (◌∷◌ t) (tasks-slot_entries s)

insert_head :
    (t : TimerTask) (s : List TimerTask) → slot_entries (t ∷ s) ≡ insert (0, t) (slot_entries s)
insert_head t [] = refl
insert_head t (u ∷ s) = refl

gather_new : (i n : ℕ) → gather slot_entries 1 i (replicate n []) ≡ []
unfolding gather
gather_new i zero = refl
gather_new i (suc n) = gather_new (suc i) n

mirror_new : (n : ℕ) → replicate n false ≡ map occupied (replicate n [])
mirror_new zero = refl
mirror_new (suc n) = ap (◌∷◌ false) (mirror_new n)

leaf_new-IsValid : LeafIsValid new
leaf_new-IsValid = record {
  slots = length-replicate {A = List TimerTask} slot_size [];
  mirror = mirror_new slot_size;
}

pub leaf_entries-Below : (w : Leaf) → LeafIsValid w → Below slot_size (leaf_entries w)
leaf_entries-Below w v =
    gather-Below slot_entries 1 0 slot_size w.task_slots (slots-Narrow w.task_slots)
      (omega (arith, v.slots))

leaf_add_lem :
    (w : Leaf) (t : TimerTask) (o : ℕ)
    → LeafIsValid w
    → o < slot_size
    → Adds LeafIsValid leaf_entries w t o (add_task w t o)
unfolding add_task
leaf_add_lem w t o v h = (
  record {
    slots = length-set w.task_slots _ _ ∙ v.slots;
    mirror =
        ap (λ m. set m (slot_of o) true) v.mirror
        ∙ sym (map-set occupied w.task_slots (slot_of o) _);
  },
  gather-insert slot_entries 1 0 (slot_of o) o 0 t w.task_slots _ [] (slots-Narrow w.task_slots)
      (omega (arith, v.slots)) (omega arith) (omega arith) (insert_head t _),
)

-- `unlink` is `remove` on the slot's entries.
unlink-cases :
    (a : ℕ) (s : List TimerTask)
    → ((unlink a s ≡ none) × (slot_entries s ≡ remove (is_task 0 a) (slot_entries s)))
      ⊎ ((rest : List TimerTask) × (unlink a s ≡ some rest)
          × (slot_entries rest ≡ remove (is_task 0 a) (slot_entries s))
          × (occupied s ≡ true))
unfolding unlink
unlink-cases a [] = inl (refl, refl)
unlink-cases a (t ∷ s) = elim (Bool-cases (t.address == a)) [
  | inl hit ↦ inr (s, rw hit, rw hit, refl)
  | inr miss ↦ elim (unlink-cases a s) [
    | inl (e, same) ↦ inl (rw (miss, e), rw miss (ap (◌∷◌ (0, t)) same))
    | inr (rest, e, same, full) ↦ inr (t ∷ rest, rw (miss, e), rw miss (ap (◌∷◌ (0, t)) same), refl)
  ]
]

leaf_remove_lem :
    (w : Leaf) (a o : ℕ)
    → LeafIsValid w
    → o < slot_size
    → Removes LeafIsValid leaf_entries w a o (remove_task w a o)
unfolding remove_task
leaf_remove_lem w a o v h = elim (unlink-cases a (get_or w.task_slots (slot_of o) [])) [
  | inl (e, same) ↦
      rw (e, remove_task)
        (
          v,
          sym (ap (gather slot_entries 1 0) (set-get_or w.task_slots (slot_of o) []))
              ∙ gather-remove slot_entries 1 0 (slot_of o) o 0 a w.task_slots _ [] narrow
                  (omega (arith, v.slots)) (omega arith) (omega arith) same,
        )
  | inr (rest, e, same, full) ↦
      rw (e, remove_task)
        (
          record {
            slots = length-set w.task_slots _ _ ∙ v.slots;
            mirror = unmark rest full ∙ sym (map-set occupied w.task_slots (slot_of o) rest);
          },
          gather-remove slot_entries 1 0 (slot_of o) o 0 a w.task_slots rest [] narrow
              (omega (arith, v.slots)) (omega arith) (omega arith) same,
        )
]
  where
    narrow : Narrow slot_entries 1 w.task_slots
    narrow = slots-Narrow w.task_slots

    unmark :
        (rest : List TimerTask)
        → occupied (get_or w.task_slots (slot_of o) []) ≡ true
        → (if is_null rest then set w.slot_map (slot_of o) false else w.slot_map)
          ≡ set (map occupied w.task_slots) (slot_of o) (occupied rest)
    unmark [] full = ap (λ m. set m (slot_of o) false) v.mirror
    unmark (t ∷ rest) full =
        v.mirror
        ∙ sym (set-get_or (map occupied w.task_slots) (slot_of o) false)
        ∙ ap (set (map occupied w.task_slots) (slot_of o))
            (get_or-map occupied w.task_slots (slot_of o) [] ∙ full)

-- The loop empties the first `n` slots and executes their tasks in order.
expire_slots_lem :
    (i n : ℕ) (ss : List (List TimerTask))
    → expire_slots n (map occupied ss) ss
      ≡ (map occupied (clear n [] ss), clear n [] ss, tasks (gather slot_entries 1 i (take n ss)))
unfolding expire_slots gather
expire_slots_lem i zero ss = refl
expire_slots_lem i (suc n) [] = refl
expire_slots_lem i (suc n) ([] ∷ ss) = rw (expire_slots_lem (suc i) n ss)
expire_slots_lem i (suc n) ((t ∷ s) ∷ ss) = rw (expire_slots_lem (suc i) n ss) (
    ap
      (λ out.
        (map occupied (clear (suc n) [] ((t ∷ s) ∷ ss)), clear (suc n) [] ((t ∷ s) ∷ ss), out))
      (ap (λ us. us ++ tasks (gather slot_entries 1 (suc i) (take n ss)))
          (sym (tasks-slot_entries (t ∷ s)) ∙ sym (tasks-shift (i * 1) (slot_entries (t ∷ s))))
        ∙ sym (map-append (λ (e : Entry). e.1) (shift (i * 1) (slot_entries (t ∷ s))) _)))

-- Past the end of the span every entry is due.
due-min :
    (r : ℕ) (es : List Entry)
    → Below slot_size es
    → (keep (due (min r slot_size)) es ≡ keep (due r) es)
      × (keep (later (min r slot_size)) es ≡ keep (later r) es)
due-min r [] b = (refl, refl)
due-min r (e ∷ es) b = ground (arith, due-min r es b.1)

leaf_expired_lem :
    (w : Leaf) (r : ℕ)
    → LeafIsValid w
    → Expires LeafIsValid leaf_entries w r (handle_expired_tasks w r)
unfolding handle_expired_tasks
leaf_expired_lem w r v =
    let cleared =
      gather-clear slot_entries 1 0 (min r slot_size) (min r slot_size) [] w.task_slots
        (slots-Narrow w.task_slots) refl (omega arith) in
    let at_r = due-min r (leaf_entries w) (leaf_entries-Below w v) in
    rw (v.mirror, expire_slots_lem 0 (min r slot_size) w.task_slots, handle_expired_tasks)
      (
        record { slots = length-clear (min r slot_size) [] w.task_slots ∙ v.slots; mirror = refl },
        cleared.0 ∙ at_r.1,
        ap tasks (cleared.1 ∙ at_r.0),
      )

leaf_next_lem : (w : Leaf) → LeafIsValid w → From (next_deadline_time w) (leaf_entries w)
unfolding next_deadline_time
leaf_next_lem w v = elim (Bool-cases (is_zero w.slot_map)) [
  | inl zero_map ↦
      rw
        (gather_unmarked slot_entries 1 occupied slot_unoccupied 0 w.task_slots
          (ap is_zero (sym v.mirror) ∙ zero_map))
        tt
  | inr some_bit ↦
      rw (some_bit, next_deadline_time)
        (rw v.mirror (
          From-mono _ (omega arith) (
            gather_first slot_entries 1 occupied slot_unoccupied 0 0 [] w.task_slots
              (slot_entries-From _) (omega arith))))
]

pub countr_zero-le : (bs : List Bool) → countr_zero bs ≤ length bs
countr_zero-le [] = omega arith
countr_zero-le (true ∷ bs) = omega arith
countr_zero-le (false ∷ bs) = omega (arith, countr_zero-le bs)

leaf_next-le : (w : Leaf) → LeafIsValid w → next_deadline_time w ≤ slot_size
unfolding next_deadline_time
leaf_next-le w v =
    let wide : length w.slot_map ≡ slot_size =
      ap length v.mirror ∙ length-map occupied w.task_slots ∙ v.slots in
    ground (arith, countr_zero-le w.slot_map)

leaf_empty_lem : (w : Leaf) → LeafIsValid w → empty w ≡ true → leaf_entries w ≡ []
unfolding empty
leaf_empty_lem w v h =
    gather_unmarked slot_entries 1 occupied slot_unoccupied 0 w.task_slots
      (ap is_zero (sym v.mirror) ∙ h)

pub leaf_laws : WheelLaws LeafIsValid leaf_entries leaf_ops
leaf_laws = record {
  span_pos = omega arith;
  new-IsValid = leaf_new-IsValid;
  entries-new = gather_new 0 slot_size;
  entries-Below = leaf_entries-Below;
  entries-IsSorted = λ w v.
      gather-IsSorted slot_entries 1 0 w.task_slots (slots-Narrow w.task_slots)
        (slots-Sorted w.task_slots);
  add_task_lem = leaf_add_lem;
  remove_task_lem = leaf_remove_lem;
  expired_lem = leaf_expired_lem;
  next_deadline_lem = leaf_next_lem;
  next_deadline-le = leaf_next-le;
  empty_lem = leaf_empty_lem;
}
