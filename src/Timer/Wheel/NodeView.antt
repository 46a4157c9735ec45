-- ===== src/Timer/Wheel/NodeView.antt =====
-- A wheel of level `LEVEL >= 1` as a list of entries, and when it is well formed.
use faio.Base.{
  ℕ, zero, suc, ◌+◌, ◌*◌, ◌/◌, ◌%◌, ◌^◌, ◌<◌, ◌≡◌, refl, sym, ap, ◌∙◌, Bool, true, false, List, [],
  ◌∷◌, map, Option, none, some, arith, length, set, replicate, All, All-set, All-replicate,
  length-set, length-replicate, map-set, map-replicate,
}
use faio.Config.{slot_size}
use faio.Timer.Offsets.{Entry, Below, IsSorted}
use faio.Timer.Gather.{gather, Narrow, SlotsSorted, gather-Below, gather-IsSorted}
use faio.Timer.Wheel.Interface.{WheelOps, WheelLaws}
use faio.Timer.Wheel.Node.{Node, child_shift, slot_of, new}

abbrev pub is_some : {C : Type 0} → Option C → Bool
is_some none = false
is_some (some child) = true

module _ {C : Type 0} (entries : C → List Entry) where
  abbrev pub child_entries : Option C → List Entry
  child_entries none = []
  child_entries (some child) = entries child

  pub child_unoccupied : (s : Option C) → is_some s ≡ false → child_entries s ≡ []
  child_unoccupied none h = refl
  child_unoccupied (some child) h = cc

module _ {C : Type 0} (IsValid : C → Type 0) where
  abbrev pub ChildIsValid : Option C → Type 0
  ChildIsValid none = Unit
  ChildIsValid (some child) = IsValid child

  -- 64 slots, the bitmap marks exactly those that hold a child, and each child is well formed.
  pub record NodeIsValid (w : Node C) : Type 0 where
    pub slots : length w.wheels_slots ≡ slot_size
    pub mirror : w.slot_map ≡ map is_some w.wheels_slots
    pub children : All ChildIsValid w.wheels_slots

  -- One slot written, with its bit.
  pub set-NodeIsValid :
      (w : Node C) (i : ℕ) (s : Option C)
      → NodeIsValid w
      → ChildIsValid s
      → NodeIsValid (record {
        wheels_slots = set w.wheels_slots i s;
        slot_map = set w.slot_map i (is_some s);
      })
  set-NodeIsValid w i s v h = record {
    slots = length-set w.wheels_slots i s ∙ v.slots;
    mirror = ap (λ m. set m i (is_some s)) v.mirror ∙ sym (map-set is_some w.wheels_slots i s);
    children = All-set ChildIsValid w.wheels_slots i s v.children h;
  }

  pub new-NodeIsValid : NodeIsValid new
  new-NodeIsValid = record {
    slots = length-replicate {A = Option C} slot_size none;
    mirror = sym (map-replicate (is_some {C = C}) slot_size none);
    children = All-replicate ChildIsValid slot_size none tt;
  }

module _ {C : Type 0} {IsValid : C → Type 0} {entries : C → List Entry} {ops : WheelOps C}
    (laws : WheelLaws IsValid entries ops) where
  abbrev pub node_entries : Node C → List Entry
  node_entries w = gather (child_entries entries) ops.span_ms 0 w.wheels_slots

  pub children-Narrow :
      (ss : List (Option C))
      → All (ChildIsValid IsValid) ss
      → Narrow (child_entries entries) ops.span_ms ss
  children-Narrow [] h = tt
  children-Narrow (none ∷ ss) h = (tt, children-Narrow ss h.1)
  children-Narrow (some child ∷ ss) h = (laws.entries-Below child h.0, children-Narrow ss h.1)

  children-Sorted :
      (ss : List (Option C))
      → All (ChildIsValid IsValid) ss
      → SlotsSorted (child_entries entries) ops.span_ms ss
  children-Sorted [] h = tt
  children-Sorted (none ∷ ss) h = (tt, children-Sorted ss h.1)
  children-Sorted (some child ∷ ss) h = (laws.entries-IsSorted child h.0, children-Sorted ss h.1)

  pub node_entries-Below :
      (w : Node C) → NodeIsValid IsValid w → Below (slot_size * ops.span_ms) (node_entries w)
  node_entries-Below w v =
      gather-Below (child_entries entries) ops.span_ms 0 (slot_size * ops.span_ms) w.wheels_slots
        (children-Narrow w.wheels_slots v.children)
        (omega (arith, ap (λ (n : ℕ). n * ops.span_ms) v.slots))

  pub node_entries-IsSorted : (w : Node C) → NodeIsValid IsValid w → IsSorted (node_entries w)
  node_entries-IsSorted w v =
      gather-IsSorted (child_entries entries) ops.span_ms 0 w.wheels_slots
        (children-Narrow w.wheels_slots v.children) (children-Sorted w.wheels_slots v.children)

pub gather_nones :
    {C : Type 0} (entries : C → List Entry) (c i n : ℕ)
    → gather (child_entries entries) c i (replicate n none) ≡ []
unfolding gather
gather_nones entries c i zero = refl
gather_nones entries c i (suc n) = gather_nones entries c (suc i) n

-- An interval within the span is a slot and an interval within the child's span.
pub split_interval :
    (o c : ℕ)
    → 0 < c
    → o < slot_size * c
    → (o / c < slot_size) × (o % c < c) × (o ≡ o / c * c + o % c)
split_interval o c p h = grind arith

pub slot_of_lem :
    {C : Type 0} (ops : WheelOps C) (level o : ℕ)
    → 2 ^ child_shift level ≡ ops.span_ms
    → 0 < ops.span_ms
    → o < slot_size * ops.span_ms
    → slot_of ops level o ≡ o / ops.span_ms
unfolding slot_of
slot_of_lem ops level o wide p h = rw wide (ground (arith, split_interval o ops.span_ms p h))
