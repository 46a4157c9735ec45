-- ===== src/Timer/Wheel/NodeLaws.antt =====
-- `TimerWheel<LEVEL>` with `LEVEL >= 1` keeps the laws of the interface, if its child does.
use faio.Base.{
  ℕ, ◌+◌, ◌*◌, ◌^◌, ◌≤◌, ◌<◌, ◌≡◌, refl, sym, ap, subst, ◌∙◌, Bool, true, false, List, [], ◌∷◌, map,
  none, some, arith, inl, inr, Bool-cases, Option-cases, length, length-map, get_or, get_or-map,
}
use mathlib.Core.Bool.{false≢true}
use faio.Config.{slot_size}
use faio.Timer.Offsets.{Entry, From, From-mono}
use faio.Timer.Sweep.{countr_zero, is_zero, gather_first, gather_unmarked}
use faio.Timer.Wheel.Interface.{WheelOps, WheelLaws}
use faio.Timer.Wheel.Node.{Node, child_shift, span_ms, next_deadline_time, empty, node_ops}
use faio.Timer.Wheel.NodeView.{
  is_some, child_entries, child_unoccupied, NodeIsValid, new-NodeIsValid, node_entries,
  node_entries-Below, node_entries-IsSorted, gather_nones,
}
use faio.Timer.Wheel.NodeChange.{child_at-IsValid, add_task_lem, remove_task_lem}
use faio.Timer.Wheel.NodeExpire.{expired_lem}

-- The lowest bit that is set marks a slot in use.
marked_at :
    (bs : List Bool)
    → is_zero bs ≡ false
    → (get_or bs (countr_zero bs) false ≡ true) × (countr_zero bs < length bs)
marked_at [] h = cc
marked_at (true ∷ bs) h = (refl, omega arith)
marked_at (false ∷ bs) h = let rest = marked_at bs h in (rest.0, omega (arith, rest.1))

module _ {C : Type 0} {IsValid : C → Type 0} {entries : C → List Entry} {ops : WheelOps C}
    (laws : WheelLaws IsValid entries ops) (level : ℕ) (wide : 2 ^ child_shift level ≡ ops.span_ms)
    (whole : span_ms level ≡ slot_size * ops.span_ms) where
  idle_entries :
      (w : Node C) → NodeIsValid IsValid w → is_zero w.slot_map ≡ true → node_entries laws w ≡ []
  idle_entries w v h =
      gather_unmarked (child_entries entries) ops.span_ms is_some (child_unoccupied entries) 0
        w.wheels_slots (ap is_zero (sym v.mirror) ∙ h)

  -- On a wheel in use: no entry lies before the answer, which is within the span.
  busy_next :
      (w : Node C)
      → NodeIsValid IsValid w
      → is_zero w.slot_map ≡ false
      → From (next_deadline_time ops level w) (node_entries laws w)
        × (next_deadline_time ops level w ≤ span_ms level)
  unfolding next_deadline_time
  busy_next w v busy = elim (Option-cases (get_or w.wheels_slots (countr_zero w.slot_map) none)) [
    | inl vacant ↦ absurd (false≢true (sym (ap (is_some {C = C}) vacant) ∙ at_first))
    | inr (child, held) ↦
        let child_valid = child_at-IsValid laws w (countr_zero w.slot_map) child v held in
        let held' : get_or w.wheels_slots (countr_zero (map is_some w.wheels_slots)) none
            ≡ some child =
          ap (λ bs. get_or w.wheels_slots (countr_zero bs) none) (sym v.mirror) ∙ held in
        let low = laws.next_deadline-le child child_valid in
        rw (busy, next_deadline_time)
          (rw (held, next_deadline_time)
            (rw wide (
              From-mono (node_entries laws w) (omega arith) (
                  subst
                    (λ (bs : List Bool).
                      From ((0 + countr_zero bs) * ops.span_ms + ops.next_deadline_time child)
                        (node_entries laws w))
                    (sym v.mirror)
                    (gather_first (child_entries entries) ops.span_ms is_some
                      (child_unoccupied entries) 0 (ops.next_deadline_time child) none
                      w.wheels_slots (rw held' (laws.next_deadline_lem child child_valid)) low)),
              grind (arith, marked.1, width, low, whole),
            )))
  ]
    where
      marked :
          (get_or w.slot_map (countr_zero w.slot_map) false ≡ true)
          × (countr_zero w.slot_map < length w.slot_map)
      marked = marked_at w.slot_map busy

      width : length w.slot_map ≡ slot_size
      width = ap length v.mirror ∙ length-map is_some w.wheels_slots ∙ v.slots

      at_first : is_some (get_or w.wheels_slots (countr_zero w.slot_map) none) ≡ true
      at_first =
          sym (get_or-map is_some w.wheels_slots (countr_zero w.slot_map) none)
          ∙ ap (λ bs. get_or bs (countr_zero w.slot_map) false) (sym v.mirror)
          ∙ marked.0

  next_lem :
      (w : Node C)
      → NodeIsValid IsValid w
      → From (next_deadline_time ops level w) (node_entries laws w)
        × (next_deadline_time ops level w ≤ span_ms level)
  unfolding next_deadline_time
  next_lem w v = elim (Bool-cases (is_zero w.slot_map)) [
    | inl idle ↦ rw (idle, next_deadline_time) (rw (idle_entries w v idle) (tt, omega arith))
    | inr busy ↦ busy_next w v busy
  ]

  node_empty_lem :
      (w : Node C) → NodeIsValid IsValid w → empty ops level w ≡ true → node_entries laws w ≡ []
  unfolding empty
  node_empty_lem w v h = idle_entries w v h

  pub node_laws : WheelLaws (NodeIsValid IsValid) (node_entries laws) (node_ops ops level)
  node_laws = record {
    span_pos = omega (arith, whole, laws.span_pos);
    new-IsValid = new-NodeIsValid IsValid;
    entries-new = gather_nones entries ops.span_ms 0 slot_size;
    entries-Below = λ w v. rw whole (node_entries-Below laws w v);
    entries-IsSorted = node_entries-IsSorted laws;
    add_task_lem = λ w t o v h. add_task_lem laws level wide w t o v (omega (arith, whole, h));
    remove_task_lem =
        λ w k o v h. remove_task_lem laws level wide w k o v (omega (arith, whole, h));
    expired_lem = expired_lem laws level wide;
    next_deadline_lem = λ w v. (next_lem w v).0;
    next_deadline-le = λ w v. (next_lem w v).1;
    empty_lem = node_empty_lem;
  }
