-- ===== src/Timer/Wheel/NodeChange.antt =====
-- `add_task` and `remove_task` of a wheel of level `LEVEL >= 1` against its list of entries.
use faio.Base.{
  ℕ, ◌+◌, ◌*◌, ◌/◌, ◌%◌, ◌^◌, ◌<◌, ◌≡◌, refl, sym, ap, subst, ◌∙◌, true, false, List, Option, none,
  some, arith, inl, inr, Bool-cases, Option-cases, get_or, set, remove, All-get_or, get_or-map,
  set-get_or, leb,
}
use faio.Config.{slot_size}
use faio.Timer.Task.{TimerTask}
use faio.Timer.Offsets.{Entry, insert, is_task}
use faio.Timer.Gather.{gather, gather-insert, gather-remove}
use faio.Timer.Wheel.Interface.{WheelOps, WheelLaws, Adds, Removes}
use faio.Timer.Wheel.Node.{
  Node, child_shift, place_task, add_task, put_child, take_task, remove_task,
}
use faio.Timer.Wheel.NodeView.{
  is_some, child_entries, ChildIsValid, NodeIsValid, set-NodeIsValid, node_entries, children-Narrow,
  split_interval, slot_of_lem,
}

module _ {C : Type 0} {IsValid : C → Type 0} {entries : C → List Entry} {ops : WheelOps C}
    (laws : WheelLaws IsValid entries ops) where
  pub child_at-IsValid :
      (w : Node C) (i : ℕ) (child : C)
      → NodeIsValid IsValid w
      → get_or w.wheels_slots i none ≡ some child
      → IsValid child
  child_at-IsValid w i child v e =
      subst (ChildIsValid IsValid) e
        (All-get_or (ChildIsValid IsValid) w.wheels_slots i none v.children tt)

  -- A slot that holds a child keeps its bit when the child is replaced.
  pub replace-NodeIsValid :
      (w : Node C) (i : ℕ) (old child : C)
      → NodeIsValid IsValid w
      → get_or w.wheels_slots i none ≡ some old
      → IsValid child
      → NodeIsValid IsValid (record w { wheels_slots = set w.wheels_slots i (some child) })
  replace-NodeIsValid w i old child v e h =
      let same : set w.slot_map i true ≡ w.slot_map =
        ap (set w.slot_map i) (
          sym (ap (is_some {C = C}) e)
          ∙ sym (get_or-map is_some w.wheels_slots i none)
          ∙ ap (λ m. get_or m i false) (sym v.mirror))
        ∙ set-get_or w.slot_map i false in
      let v' = set-NodeIsValid IsValid w i (some child) v h in
      record { slots = v'.slots; mirror = sym same ∙ v'.mirror; children = v'.children }

  -- `put_child` writes the child's entries into its slot.
  pub put_child_lem :
      (w : Node C) (i : ℕ) (old child : C)
      → NodeIsValid IsValid w
      → get_or w.wheels_slots i none ≡ some old
      → IsValid child
      → (s : Option C) × NodeIsValid IsValid (put_child ops w i child)
        × ((put_child ops w i child).wheels_slots ≡ set w.wheels_slots i s)
        × (child_entries entries s ≡ entries child)
  unfolding put_child
  put_child_lem w i old child v e h = elim (Bool-cases (ops.empty child)) [
    | inl gone ↦ (
      none,
      rw gone (set-NodeIsValid IsValid w i none v tt),
      rw gone,
      sym (laws.empty_lem child h gone),
    )
    | inr stays ↦ (some child, rw stays (replace-NodeIsValid w i old child v e h), rw stays, refl)
  ]

  pub place_task_lem :
      (w : Node C) (t : TimerTask) (i o a : ℕ)
      → NodeIsValid IsValid w
      → i < slot_size
      → o < ops.span_ms
      → a ≡ i * ops.span_ms + o
      → Adds (NodeIsValid IsValid) (node_entries laws) w t a (place_task ops w t i o)
  unfolding place_task
  place_task_lem w t i o a v hi ho e = elim (Option-cases (get_or w.wheels_slots i none)) [
    | inl vacant ↦
        let added = laws.add_task_lem ops.new t o laws.new-IsValid ho in
        rw (vacant, place_task)
          (
            set-NodeIsValid IsValid w i (some (ops.add_task ops.new t o)) v added.0,
            inserted (ops.add_task ops.new t o) (
                added.1
                ∙ ap (insert (o, t)) (laws.entries-new ∙ sym (ap (child_entries entries) vacant))),
          )
    | inr (child, held) ↦
        let added = laws.add_task_lem child t o (child_at-IsValid w i child v held) ho in
        rw (held, place_task)
          (
            replace-NodeIsValid w i child (ops.add_task child t o) v held added.0,
            inserted (ops.add_task child t o)
                (added.1 ∙ ap (λ s. insert (o, t) (child_entries entries s)) (sym held)),
          )
  ]
    where
      inserted :
          (child : C)
          → entries child ≡ insert (o, t) (child_entries entries (get_or w.wheels_slots i none))
          → gather (child_entries entries) ops.span_ms 0 (set w.wheels_slots i (some child))
            ≡ insert (a, t) (node_entries laws w)
      inserted child =
          gather-insert (child_entries entries) ops.span_ms 0 i a o t w.wheels_slots (some child)
            none (children-Narrow laws w.wheels_slots v.children) (omega (arith, v.slots)) ho
            (omega arith)

  pub take_task_lem :
      (w : Node C) (k i o a : ℕ)
      → NodeIsValid IsValid w
      → i < slot_size
      → o < ops.span_ms
      → a ≡ i * ops.span_ms + o
      → Removes (NodeIsValid IsValid) (node_entries laws) w k a (take_task ops w k i o)
  unfolding take_task
  take_task_lem w k i o a v hi ho e = elim (Option-cases (get_or w.wheels_slots i none)) [
    | inl vacant ↦
        rw (vacant, take_task)
          (
            v,
            sym (
                  ap (gather (child_entries entries) ops.span_ms 0)
                    (set-get_or w.wheels_slots i none))
                ∙ removed (get_or w.wheels_slots i none) (
                    ap (child_entries entries) vacant
                    ∙ sym (ap (λ s. remove (is_task o k) (child_entries entries s)) vacant)),
          )
    | inr (child, held) ↦
        let taken = laws.remove_task_lem child k o (child_at-IsValid w i child v held) ho in
        let put = put_child_lem w i child (ops.remove_task child k o) v held taken.0 in
        rw (held, take_task)
          (
            put.1,
            ap (gather (child_entries entries) ops.span_ms 0) put.2
                ∙ removed put.0 (
                    put.3
                    ∙ taken.1
                    ∙ ap (λ s. remove (is_task o k) (child_entries entries s)) (sym held)),
          )
  ]
    where
      removed :
          (s : Option C)
          → child_entries entries s
            ≡ remove (is_task o k) (child_entries entries (get_or w.wheels_slots i none))
          → gather (child_entries entries) ops.span_ms 0 (set w.wheels_slots i s)
            ≡ remove (is_task a k) (node_entries laws w)
      removed s =
          gather-remove (child_entries entries) ops.span_ms 0 i a o k w.wheels_slots s none
            (children-Narrow laws w.wheels_slots v.children) (omega (arith, v.slots)) ho
            (omega arith)

  module _ (level : ℕ) (wide : 2 ^ child_shift level ≡ ops.span_ms) where
    pub add_task_lem :
        (w : Node C) (t : TimerTask) (o : ℕ)
        → NodeIsValid IsValid w
        → o < slot_size * ops.span_ms
        → Adds (NodeIsValid IsValid) (node_entries laws) w t o (add_task ops level w t o)
    unfolding add_task
    add_task_lem w t o v h =
        let parts = split_interval o ops.span_ms laws.span_pos h in
        rw (slot_of_lem ops level o wide laws.span_pos h) (
          rw wide
            (place_task_lem w t (o / ops.span_ms) (o % ops.span_ms) o v parts.0 parts.1 parts.2))

    pub remove_task_lem :
        (w : Node C) (k o : ℕ)
        → NodeIsValid IsValid w
        → o < slot_size * ops.span_ms
        → Removes (NodeIsValid IsValid) (node_entries laws) w k o (remove_task ops level w k o)
    unfolding remove_task
    remove_task_lem w k o v h =
        let parts = split_interval o ops.span_ms laws.span_pos h in
        let inside : leb slot_size (o / ops.span_ms) ≡ false = ground (arith, parts.0) in
        rw wide (
          rw inside
            (take_task_lem w k (o / ops.span_ms) (o % ops.span_ms) o v parts.0 parts.1 parts.2))
