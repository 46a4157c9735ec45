-- ===== src/Timer/Wheel/Rotate.antt =====
-- `rotate`, `level_up` and `level_down` (wheel.hpp): what they do to the entries of a wheel.
use faio.Base.{
  ℕ, ◌*◌, ◌≤◌, ◌<◌, ◌≡◌, refl, sym, ap, ◌∙◌, Bool, true, false, List, [], ◌∷◌, ◌++◌, map,
  map-append, append-nil, ==→eq, Option, none, some, arith, inl, inr, Bool-cases, Option-cases,
  length, length-append, length-drop, length-replicate, get_or, set, drop, replicate, map-drop,
  map-replicate, All-append, All-drop, All-replicate, ◌==◌, ◌||◌, leb,
}
use faio.Config.{slot_size}
use faio.Timer.Offsets.{Entry, shift, Below, Below-mono, From, From-mono, shift_zero}
use faio.Timer.Gather.{gather}
use faio.Timer.Sweep.{is_zero, gather_rotate, gather_unmarked, none_between}
use faio.Timer.Wheel.Interface.{WheelOps, WheelLaws}
use faio.Timer.Wheel.Leaf
use faio.Timer.Wheel.Leaf.{Leaf}
use faio.Timer.Wheel.LeafLaws.{
  slot_entries, occupied, leaf_entries, LeafIsValid, slots-Narrow, leaf_entries-Below,
}
use faio.Timer.Wheel.Node.{Node, new, upgrade, rotate, level_down, can_level_down}
use faio.Timer.Wheel.NodeChange.{child_at-IsValid}
use faio.Timer.Wheel.NodeView.{
  is_some, child_entries, child_unoccupied, ChildIsValid, NodeIsValid, new-NodeIsValid,
  set-NodeIsValid, node_entries, node_entries-Below, children-Narrow, gather_nones,
}

-- The slots and the bitmap after both loops of `rotate`, for the bits that mark the slots.
rotate_slots :
    {S : Type 0} (mark : S → Bool) (e : S) (bs : List Bool) (ss : List S) (n : ℕ)
    → mark e ≡ false
    → bs ≡ map mark ss
    → n ≤ length ss
    → (drop n bs ++ replicate n false ≡ map mark (drop n ss ++ replicate n e))
      × (length (drop n ss ++ replicate n e) ≡ length ss)
rotate_slots mark e bs ss n h m le = (
  ap (λ xs. drop n xs ++ replicate n false) m
      ∙ ap (λ xs. xs ++ replicate n false) (sym (map-drop mark n ss))
      ∙ ap (◌++◌ (map mark (drop n ss))) (ap (replicate n) (sym h) ∙ sym (map-replicate mark n e))
      ∙ sym (map-append mark (drop n ss) (replicate n e)),
  omega (arith, length-append (drop n ss) (replicate n e), length-drop n ss, length-replicate n e),
)

-- `rotate` does nothing for 0, and for 64 or more, where the wheel is empty.
stays :
    (start width : ℕ) (es : List Entry)
    → Below (slot_size * width) es
    → From (start * width) es
    → (start == 0 || leb slot_size start) ≡ true
    → es ≡ shift (start * width) es
stays start width es b from h = elim (Bool-cases (start == 0)) [
  | inl z ↦
      let nowhere : 0 ≡ start * width = rw (==→eq start 0 z) (omega arith) in
      sym (shift_zero es) ∙ ap (λ (k : ℕ). shift k es) nowhere
  | inr pos ↦
      let le : slot_size ≤ start = ground arith in
      let nothing : es ≡ [] =
        none_between (start * width) es (Below-mono es (grind arith) b) from in
      nothing ∙ ap (shift (start * width)) (sym nothing)
]

turns : (start : ℕ) → (start == 0 || leb slot_size start) ≡ false → start < slot_size
turns start h = ground arith

-- A wheel whose first `start` slots are empty, turned by `start`: every offset falls by as much.
pub leaf_rotate :
    (w : Leaf) (start : ℕ)
    → LeafIsValid w
    → From start (leaf_entries w)
    → LeafIsValid (Leaf.rotate w start)
      × (leaf_entries w ≡ shift start (leaf_entries (Leaf.rotate w start)))
unfolding Leaf.rotate
leaf_rotate w start v from = elim (Bool-cases (start == 0 || leb slot_size start)) [
  | inl stay ↦ rw stay (
    v,
    stays start 1 (leaf_entries w) (leaf_entries-Below w v) from' stay
        ∙ ap (λ (k : ℕ). shift k (leaf_entries w)) (omega arith),
  )
  | inr turn ↦
      let moved =
        rotate_slots occupied [] w.slot_map w.task_slots start refl v.mirror
          (omega (arith, v.slots, turns start turn)) in
      rw turn (
        record { slots = moved.1 ∙ v.slots; mirror = moved.0 },
        gather_rotate slot_entries 1 start [] w.task_slots (slots-Narrow w.task_slots) refl from'
            ∙ ap
                (λ (k : ℕ).
                  shift k (gather slot_entries 1 0 (drop start w.task_slots ++ replicate start [])))
                (omega arith),
      )
]
  where
    from' : From (start * 1) (leaf_entries w)
    from' = From-mono (leaf_entries w) (omega arith) from

module _ {C : Type 0} {IsValid : C → Type 0} {entries : C → List Entry} {ops : WheelOps C}
    (laws : WheelLaws IsValid entries ops) where
  pub node_rotate :
      (w : Node C) (start : ℕ)
      → NodeIsValid IsValid w
      → From (start * ops.span_ms) (node_entries laws w)
      → NodeIsValid IsValid (rotate w start)
        × (node_entries laws w ≡ shift (start * ops.span_ms) (node_entries laws (rotate w start)))
  unfolding rotate
  node_rotate w start v from = elim (Bool-cases (start == 0 || leb slot_size start)) [
    | inl stay ↦
        rw stay
          (v, stays start ops.span_ms (node_entries laws w) (node_entries-Below laws w v) from stay)
    | inr turn ↦
        let moved =
          rotate_slots is_some none w.slot_map w.wheels_slots start refl v.mirror
            (omega (arith, v.slots, turns start turn)) in
        rw turn (
          record {
            slots = moved.1 ∙ v.slots;
            mirror = moved.0;
            children =
                All-append (ChildIsValid IsValid) (drop start w.wheels_slots) (replicate start none)
                  (All-drop (ChildIsValid IsValid) start w.wheels_slots v.children)
                  (All-replicate (ChildIsValid IsValid) start none tt);
          },
          gather_rotate (child_entries entries) ops.span_ms start none w.wheels_slots
              (children-Narrow laws w.wheels_slots v.children) refl from,
        )
  ]

  -- The parent made by `level_up` holds what the child held.
  pub upgrade_lem :
      (child : C)
      → IsValid child
      → NodeIsValid IsValid (upgrade child) × (node_entries laws (upgrade child) ≡ entries child)
  unfolding upgrade gather
  upgrade_lem child v = (
    set-NodeIsValid IsValid new 0 (some child) (new-NodeIsValid IsValid) v,
    ap (λ es. shift (0 * ops.span_ms) (entries child) ++ es) (gather_nones entries ops.span_ms 1 63)
        ∙ append-nil (shift (0 * ops.span_ms) (entries child))
        ∙ ap (λ (k : ℕ). shift k (entries child)) (omega arith)
        ∙ shift_zero (entries child),
  )

  only_first :
      (ss : List (Option C)) (child : C)
      → is_zero (set (map is_some ss) 0 false) ≡ true
      → get_or ss 0 none ≡ some child
      → gather (child_entries entries) ops.span_ms 0 ss ≡ entries child
  unfolding gather
  only_first [] child can held = cc
  only_first (s ∷ ss) child can held =
      ap (λ es. shift (0 * ops.span_ms) (child_entries entries s) ++ es)
        (gather_unmarked (child_entries entries) ops.span_ms is_some (child_unoccupied entries) 1 ss
          can)
      ∙ append-nil (shift (0 * ops.span_ms) (child_entries entries s))
      ∙ ap (λ (k : ℕ). shift k (child_entries entries s)) (omega arith)
      ∙ shift_zero (child_entries entries s)
      ∙ ap (child_entries entries) held

  -- The child that `level_down` returns holds all that the parent held.
  pub level_down_lem :
      (w rest : Node C) (child : C)
      → NodeIsValid IsValid w
      → can_level_down w ≡ true
      → level_down w ≡ some (child, rest)
      → IsValid child × (entries child ≡ node_entries laws w)
  unfolding level_down can_level_down
  level_down_lem w rest child v can h = elim (Option-cases (get_or w.wheels_slots 0 none)) [
    | inl vacant ↦ absurd (ground arith)
    | inr (found, held) ↦
        let same : found ≡ child = ground arith in
        let held' : get_or w.wheels_slots 0 none ≡ some child = held ∙ ap some same in
        (
          child_at-IsValid laws w 0 child v held',
          sym (
              only_first w.wheels_slots child
                (ap (λ bs. is_zero (set bs 0 false)) (sym v.mirror) ∙ can) held'),
        )
  ]
