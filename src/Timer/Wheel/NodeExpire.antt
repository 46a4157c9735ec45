-- ===== src/Timer/Wheel/NodeExpire.antt =====
-- `handle_expired_tasks` of a wheel of level `LEVEL >= 1` against its list of entries.
use faio.Base.{
  ℕ, zero, suc, ◌+◌, ◌*◌, ◌/◌, ◌%◌, ◌^◌, ◌≤◌, ◌<◌, ◌≡◌, refl, sym, ap, ap₂, ◌∙◌, ◌&&◌, Bool, true,
  false, List, [], ◌∷◌, ◌++◌, map, Option, none, some, map-append, arith, inl, inr, Bool-cases,
  Option-cases, get_or, set, take, keep, All, get_or-map, set-get_or, if◌then◌else◌, ltb, ◌==◌,
  ==→eq,
}
use native.Mathlib.Nat.{div-add-mod'}
use faio.Config.{slot_size}
use faio.Timer.Task.{TimerTask}
use faio.Timer.Offsets.{
  Entry, shift, tasks, due, later, From, From-mono, Below, tasks-shift, keep-due-Below,
  keep-later-Below, keep-later-From, keep-due-From, Below-mono,
}
use faio.Timer.Gather.{gather}
use faio.Timer.Sweep.{
  is_zero, clear, length-clear, All-clear, keep_twice, gather-clear, gather_partial,
  gather_unmarked, From-keep,
}
use faio.Timer.Wheel.Interface.{WheelOps, WheelLaws, Expires}
use faio.Timer.Wheel.Node.{
  Node, child_shift, drain, expire_full, expire_partial, expire, handle_expired_tasks,
}
use faio.Timer.Wheel.NodeView.{
  is_some, child_entries, child_unoccupied, ChildIsValid, NodeIsValid, node_entries,
  children-Narrow, node_entries-Below, node_entries-IsSorted,
}
use faio.Timer.Wheel.NodeChange.{child_at-IsValid, put_child_lem}

module _ {C : Type 0} {IsValid : C → Type 0} {entries : C → List Entry} {ops : WheelOps C}
    (laws : WheelLaws IsValid entries ops) where
  drain_lem :
      (s : Option C) → ChildIsValid IsValid s → drain ops s ≡ tasks (child_entries entries s)
  unfolding drain
  drain_lem none v = refl
  drain_lem (some child) v =
      (laws.expired_lem child ops.span_ms v).2
      ∙ ap tasks (keep-due-Below ops.span_ms (entries child) (laws.entries-Below child v))

  -- The loop empties the first `n` slots and executes their tasks in order.
  expire_full_lem :
      (i n : ℕ) (ss : List (Option C))
      → All (ChildIsValid IsValid) ss
      → expire_full ops n (map is_some ss) ss ≡ (
        map is_some (clear n none ss),
        clear n none ss,
        tasks (gather (child_entries entries) ops.span_ms i (take n ss)),
      )
  unfolding expire_full gather
  expire_full_lem i zero ss v = refl
  expire_full_lem i (suc n) [] v = refl
  expire_full_lem i (suc n) (none ∷ ss) v = rw (expire_full_lem (suc i) n ss v.1)
  expire_full_lem i (suc n) (some child ∷ ss) v = rw (expire_full_lem (suc i) n ss v.1) (
      ap
        (λ out. (
          map is_some (clear (suc n) none (some child ∷ ss)),
          clear (suc n) none (some child ∷ ss),
          out,
        ))
        (ap (λ us. us ++ tasks (gather (child_entries entries) ops.span_ms (suc i) (take n ss)))
            (drain_lem (some child) v.0 ∙ sym (tasks-shift (i * ops.span_ms) (entries child)))
          ∙ sym (map-append (λ (e : Entry). e.1) (shift (i * ops.span_ms) (entries child)) _)))

  -- After the loop, the slot that is due in part.
  expire_partial_lem :
      (w : Node C) (i p r : ℕ)
      → NodeIsValid IsValid w
      → i < slot_size
      → p ≤ ops.span_ms
      → r ≡ i * ops.span_ms + p
      → From (i * ops.span_ms) (node_entries laws w)
      → Expires (NodeIsValid IsValid) (node_entries laws) w r (expire_partial ops w i p)
  unfolding expire_partial
  expire_partial_lem w i p r v hi hp e from = elim (Option-cases (get_or w.wheels_slots i none)) [
    | inl vacant ↦
        let unmarked : get_or w.slot_map i false ≡ false = marked ∙ ap is_some vacant in
        let split = parted none (sym (ap (λ s. keep (later p) (child_entries entries s)) vacant)) in
        rw (unmarked, expire_partial)
          (
            v,
            sym (
                  ap (gather (child_entries entries) ops.span_ms 0)
                    (ap (set w.wheels_slots i) (sym vacant) ∙ set-get_or w.wheels_slots i none))
                ∙ split.0,
            sym (ap (λ s. tasks (keep (due p) (child_entries entries s))) vacant) ∙ split.1,
          )
    | inr (child, held) ↦
        let is_marked : get_or w.slot_map i false ≡ true = marked ∙ ap is_some held in
        let out = laws.expired_lem child p (child_at-IsValid laws w i child v held) in
        let put = put_child_lem laws w i child (ops.handle_expired_tasks child p).0 v held out.0 in
        let split =
          parted put.0
            (put.3 ∙ out.1 ∙ sym (ap (λ s. keep (later p) (child_entries entries s)) held)) in
        rw (is_marked, expire_partial)
          (rw (held, expire_partial)
            (
              put.1,
              ap (gather (child_entries entries) ops.span_ms 0) put.2 ∙ split.0,
              out.2 ∙ sym (ap (λ s. tasks (keep (due p) (child_entries entries s))) held) ∙ split.1,
            ))
  ]
    where
      marked : get_or w.slot_map i false ≡ is_some (get_or w.wheels_slots i none)
      marked = ap (λ m. get_or m i false) v.mirror ∙ get_or-map is_some w.wheels_slots i none

      parted :
          (s : Option C)
          → child_entries entries s
            ≡ keep (later p) (child_entries entries (get_or w.wheels_slots i none))
          → (gather (child_entries entries) ops.span_ms 0 (set w.wheels_slots i s)
              ≡ keep (later r) (node_entries laws w))
            × (tasks (keep (due p) (child_entries entries (get_or w.wheels_slots i none)))
                ≡ tasks (keep (due r) (node_entries laws w)))
      parted s =
          gather_partial (child_entries entries) ops.span_ms 0 i r p s none w.wheels_slots
            (children-Narrow laws w.wheels_slots v.children) (From-mono _ (omega arith) from)
            (omega (arith, v.slots)) hp (omega arith)

  -- Past the span of the wheel a boundary takes everything.
  all_due :
      (r q : ℕ) (es : List Entry)
      → Below r es
      → r ≤ q
      → (keep (due r) es ≡ keep (due q) es) × (keep (later r) es ≡ keep (later q) es)
  all_due r q es b h =
      let b' = Below-mono es h b in
      (
        keep-due-Below r es b ∙ sym (keep-due-Below q es b'),
        keep-later-Below r es b ∙ sym (keep-later-Below q es b'),
      )

  expire_lem :
      (w : Node C) (n p r : ℕ)
      → NodeIsValid IsValid w
      → p ≤ ops.span_ms
      → r ≡ n * ops.span_ms + p
      → Expires (NodeIsValid IsValid) (node_entries laws) w r (expire ops w n p)
  unfolding expire
  expire_lem w n p r v hp e =
      rw (v.mirror, expire_full_lem 0 n w.wheels_slots v.children, expire)
        (finish (ltb 0 p && ltb n slot_size) refl)
    where
      es : List Entry
      es = node_entries laws w

      swept : Node C
      swept = record {
        wheels_slots = clear n none w.wheels_slots;
        slot_map = map is_some (clear n none w.wheels_slots);
      }

      swept-IsValid : NodeIsValid IsValid swept
      swept-IsValid = record {
        slots = length-clear n none w.wheels_slots ∙ v.slots;
        mirror = refl;
        children = All-clear (ChildIsValid IsValid) n none w.wheels_slots tt v.children;
      }

      cleared :
          (node_entries laws swept ≡ keep (later (n * ops.span_ms)) es)
          × (gather (child_entries entries) ops.span_ms 0 (take n w.wheels_slots)
              ≡ keep (due (n * ops.span_ms)) es)
      cleared =
          gather-clear (child_entries entries) ops.span_ms 0 n (n * ops.span_ms) none w.wheels_slots
            (children-Narrow laws w.wheels_slots v.children) refl (omega arith)

      executed : List TimerTask
      executed = tasks (gather (child_entries entries) ops.span_ms 0 (take n w.wheels_slots))

      finish :
          (b : Bool)
          → (ltb 0 p && ltb n slot_size) ≡ b
          → Expires (NodeIsValid IsValid) (node_entries laws) w r (
              if b
              then (let (w', rest) = expire_partial ops swept n p in (w', executed ++ rest))
              else (swept, executed))
      finish true h =
          let part =
            expire_partial_lem swept n p r swept-IsValid (ground arith) hp e
              (rw cleared.0 (From-keep (n * ops.span_ms) es)) in
          let twice =
            keep_twice (n * ops.span_ms) r es (omega arith) (node_entries-IsSorted laws w v) in
          (
            part.0,
            part.1 ∙ ap (keep (later r)) cleared.0 ∙ twice.1,
            ap₂ ◌++◌ (ap tasks cleared.1) (part.2 ∙ ap (λ us. tasks (keep (due r) us)) cleared.0)
                ∙ sym (map-append (λ (u : Entry). u.1) (keep (due (n * ops.span_ms)) es) _)
                ∙ ap tasks twice.0,
          )
      finish false h =
          let at_end : (keep (due (n * ops.span_ms)) es ≡ keep (due r) es)
              × (keep (later (n * ops.span_ms)) es ≡ keep (later r) es) =
            elim (Bool-cases (ltb 0 p)) [
              | inl pos ↦
                  all_due (n * ops.span_ms) r es
                    (Below-mono es (many pos) (node_entries-Below laws w v)) (omega arith)
              | inr none_left ↦
                  let same : n * ops.span_ms ≡ r = exactly none_left in
                  (ap (λ (q : ℕ). keep (due q) es) same, ap (λ (q : ℕ). keep (later q) es) same)
            ] in
          (swept-IsValid, cleared.0 ∙ at_end.1, ap tasks (cleared.1 ∙ at_end.0))
        where
          many : ltb 0 p ≡ true → slot_size * ops.span_ms ≤ n * ops.span_ms
          many pos = grind (arith, past pos)
            where
              past : ltb 0 p ≡ true → slot_size ≤ n
              past pos' = ground arith

          exactly : ltb 0 p ≡ false → n * ops.span_ms ≡ r
          exactly z = ground arith

  module _ (level : ℕ) (wide : 2 ^ child_shift level ≡ ops.span_ms) where
    pub expired_lem :
        (w : Node C) (r : ℕ)
        → NodeIsValid IsValid w
        → Expires (NodeIsValid IsValid) (node_entries laws) w r (handle_expired_tasks ops level w r)
    unfolding handle_expired_tasks
    expired_lem w r v = elim (Bool-cases (is_zero w.slot_map)) [
      | inl idle ↦
          let none_held =
            gather_unmarked (child_entries entries) ops.span_ms is_some (child_unoccupied entries) 0
              w.wheels_slots (ap is_zero (sym v.mirror) ∙ idle) in
          rw (idle, handle_expired_tasks) (rw none_held (v, refl, refl))
      | inr busy ↦ elim (Bool-cases (r == 0)) [
        | inl z ↦
            rw (busy, z, handle_expired_tasks)
              (rw (==→eq r 0 z) (
                v,
                sym (keep-later-From 0 _ (at_zero (node_entries laws w))),
                ap tasks (sym (keep-due-From 0 _ (at_zero (node_entries laws w)))),
              ))
        | inr pos ↦
            rw (busy, pos, handle_expired_tasks)
              (rw wide (
                expire_lem w (r / ops.span_ms) (r % ops.span_ms) r v (below_span r)
                  (sym (div-add-mod' r ops.span_ms))))
      ]
    ]
      where
        at_zero : (us : List Entry) → From 0 us
        at_zero [] = tt
        at_zero (u ∷ us) = (omega arith, at_zero us)

        below_span : (q : ℕ) → q % ops.span_ms ≤ ops.span_ms
        below_span q = grind (arith, laws.span_pos)
