-- ===== src/Timer/Polling.antt =====
-- `poll` of the class `Timer` (timer.hpp): which tasks it executes, in which order, and what it
-- leaves. The offsets that remain fall by what the root wheel turns, which at level 0 is the time
-- that has passed, and at a higher level its whole slots only.
use faio.Base.{
  ℕ, zero, suc, ◌+◌, ◌*◌, ◌/◌, ◌≤◌, ◌≡◌, refl, sym, ap, ◌∙◌, List, [], ◌∷◌, Bool, true, false, inl,
  inr, Bool-cases, Option-cases, arith, length, keep, ltb, ◌==◌, ==→eq,
}
use native.Mathlib.Nat.{div-mul-le_self}
use faio.Config.{max_level}
use faio.Timer.Task.{TimerTask}
use faio.Timer.Offsets.{
  Entry, shift, tasks, due, later, From, From-mono, IsSorted, IsSorted-keep, shift_zero,
  keep-due-From, keep-later-From, length-split, length-shift,
}
use faio.Timer.Sweep.{From-keep}
use faio.Timer.Wheel.Leaf
use faio.Timer.Wheel.Node
use faio.Timer.Wheel.Interface.{WheelLaws}
use faio.Timer.Wheel.Rotate.{leaf_rotate, node_rotate, level_down_lem}
use faio.Timer.Wheel.Levels.{Wheel, ops, IsValid, entries, child_shift_wide, wheel_laws}
use faio.Timer.Manager.{
  Root, monostate, at_level, Timer, shrink, try_level_down, turn, root_turn, root_expired, to_ms,
  advance_start, settle, poll,
}
use faio.Timer.Contents.{root_entries, RootIsValid, TimerIsValid}

-- By how much the offsets fall when a root of this level is turned by `ms`.
abbrev pub turned : ℕ → ℕ → ℕ
turned zero ms = ms
turned (suc level) ms = ms / (ops level).span_ms * (ops level).span_ms

abbrev pub root_turned : Root → ℕ → ℕ
root_turned monostate ms = 0
root_turned (at_level level w) ms = turned level ms

turn_lem :
    (level : ℕ) (w : Wheel level) (ms : ℕ)
    → IsValid level w
    → From ms (entries level w)
    → IsValid level (turn level w ms)
      × (entries level w ≡ shift (turned level ms) (entries level (turn level w ms)))
unfolding turn
turn_lem zero w ms v from = leaf_rotate w ms v from
turn_lem (suc level) w ms v from =
    rw (child_shift_wide level) (elim (Bool-cases (ltb 0 (ms / (ops level).span_ms))) [
      | inl moves ↦ rw moves (
          node_rotate (wheel_laws level) w (ms / (ops level).span_ms) v
            (From-mono _ (div-mul-le_self ms (ops level).span_ms) from))
      | inr stays ↦
          let none_moved : 0 ≡ ms / (ops level).span_ms * (ops level).span_ms =
            rw (at_zero stays) (omega arith) in
          rw stays
            (v, sym (shift_zero _) ∙ ap (λ (k : ℕ). shift k (entries (suc level) w)) none_moved)
    ])
  where
    at_zero : ltb 0 (ms / (ops level).span_ms) ≡ false → ms / (ops level).span_ms ≡ 0
    at_zero h = ground arith

-- Going down a level keeps every task.
pub shrink_lem :
    (level : ℕ) (w : Wheel level)
    → IsValid level w
    → level ≤ max_level
    → RootIsValid (shrink level w) × (root_entries (shrink level w) ≡ entries level w)
unfolding shrink
shrink_lem zero w v le = elim (Bool-cases (Leaf.empty w)) [
  | inl idle ↦ rw idle (tt, sym (WheelLaws.empty_lem (wheel_laws 0) w v idle))
  | inr busy ↦ rw busy ((v, le), refl)
]
shrink_lem (suc level) w v le = elim (Bool-cases ((ops (suc level)).empty w)) [
  | inl idle ↦ rw (idle, shrink) (tt, sym (WheelLaws.empty_lem (wheel_laws (suc level)) w v idle))
  | inr busy ↦ elim (Bool-cases (Node.can_level_down w)) [
    | inr wide ↦ rw (busy, shrink) (rw (wide, shrink) ((v, le), refl))
    | inl narrow ↦ elim (Option-cases (Node.level_down w)) [
      | inl vacant ↦ rw (busy, shrink) (rw (narrow, shrink) (rw (vacant, shrink) ((v, le), refl)))
      | inr ((child, rest), down) ↦
          let held = level_down_lem (wheel_laws level) w rest child v narrow down in
          let lower = shrink_lem level child held.0 (omega arith) in
          rw (busy, shrink) (rw (narrow, shrink) (rw (down, shrink) (lower.0, lower.1 ∙ held.1)))
    ]
  ]
]

pub try_level_down_lem :
    (root : Root)
    → RootIsValid root
    → RootIsValid (try_level_down root) × (root_entries (try_level_down root) ≡ root_entries root)
unfolding try_level_down
try_level_down_lem monostate v = (tt, refl)
try_level_down_lem (at_level level w) v = shrink_lem level w v.0 v.1

-- The wheel's part of `poll`: what is due is executed, and the rest is turned.
root_expired_lem :
    (root : Root) (elapsed : ℕ)
    → RootIsValid root
    → RootIsValid (root_turn (root_expired root elapsed).0 elapsed)
      × ((root_expired root elapsed).1 ≡ tasks (keep (due elapsed) (root_entries root)))
      × (keep (later elapsed) (root_entries root)
          ≡ shift
              (root_turned root elapsed)
              (root_entries (root_turn (root_expired root elapsed).0 elapsed)))
unfolding root_expired root_turn
root_expired_lem monostate elapsed v = (tt, refl, refl)
root_expired_lem (at_level level w) elapsed v =
    let out = WheelLaws.expired_lem (wheel_laws level) w elapsed v.0 in
    let moved =
      turn_lem level ((ops level).handle_expired_tasks w elapsed).0 elapsed out.0
        (rw out.1 (From-keep elapsed (entries level w))) in
    ((moved.0, v.1), out.2, sym out.1 ∙ moved.1)

pub root_IsSorted : (root : Root) → RootIsValid root → IsSorted (root_entries root)
root_IsSorted monostate v = tt
root_IsSorted (at_level level w) v = WheelLaws.entries-IsSorted (wheel_laws level) w v.0

-- The end of `poll` keeps the tasks, and the count is again their number.
settle_lem :
    (t : Timer) (count : ℕ)
    → RootIsValid t.root_wheel
    → t.num_entries ≡ length (root_entries t.root_wheel) + count
    → TimerIsValid (settle t count)
      × (root_entries (settle t count).root_wheel ≡ root_entries t.root_wheel)
      × ((settle t count).start ≡ t.start)
unfolding settle
settle_lem t count v h = elim (Bool-cases (count == 0)) [
  | inl z ↦ rw z (record { root = v; counted = omega (arith, h, ==→eq count 0 z) }, refl, refl)
  | inr pos ↦
      let lower = try_level_down_lem t.root_wheel v in
      rw pos
        (record { root = lower.0; counted = omega (arith, h, ap length lower.1) }, lower.1, refl)
]

settle_start : (t : Timer) (count : ℕ) → (settle t count).start ≡ t.start
unfolding settle
settle_start t count = elim (Bool-cases (count == 0)) [ inl z ↦ rw z refl | inr pos ↦ rw pos refl ]

nothing_held : (es : List Entry) → 0 ≡ length es → es ≡ []
nothing_held [] h = refl
nothing_held (e ∷ es) h = absurd (omega arith)

all_later : (es : List Entry) → From 0 es
all_later [] = tt
all_later (e ∷ es) = (omega arith, all_later es)

turned_zero : (root : Root) → root_turned root 0 ≡ 0
turned_zero monostate = refl
turned_zero (at_level zero w) = refl
turned_zero (at_level (suc level) w) = grind (arith, WheelLaws.span_pos (wheel_laws level))

module _ (ticks_per_ms : ℕ) (t : Timer) (now : ℕ) where
  abbrev pub elapsed : ℕ
  elapsed = to_ms ticks_per_ms t.start now

  -- What `poll` promises of its result.
  abbrev pub Polled : Timer × List TimerTask → Type 0
  Polled (t', out) =
      TimerIsValid t'
      × (out ≡ tasks (keep (due elapsed) (root_entries t.root_wheel)))
      × (keep (later elapsed) (root_entries t.root_wheel)
          ≡ shift (root_turned t.root_wheel elapsed) (root_entries t'.root_wheel))

  -- Where the base of the timer is after `poll`: a timer with no task (`idle`) or polled within a
  -- millisecond of its start (`early`) is unchanged, and else the whole milliseconds that have passed
  -- are added to `_start`.
  abbrev pub Started : (idle early : Bool) → Timer → Type 0
  Started true early t' = t' ≡ t
  Started false true t' = t' ≡ t
  Started false false t' = t'.start ≡ t.start + elapsed * ticks_per_ms

  poll-Started :
      TimerIsValid t → Started (t.num_entries == 0) (elapsed == 0) (poll ticks_per_ms t now).0
  unfolding poll advance_start
  poll-Started v = elim (Bool-cases (t.num_entries == 0)) [
    | inl idle ↦ rw idle refl
    | inr busy ↦ elim (Bool-cases (elapsed == 0)) [
      | inl early ↦ rw (busy, early) refl
      | inr late ↦
          rw (busy, late)
            (settle_start
              (advance_start ticks_per_ms
                (record t { root_wheel = (root_expired t.root_wheel elapsed).0 }) elapsed)
              (length (root_expired t.root_wheel elapsed).1))
    ]
  ]

  Polled-busy :
      TimerIsValid t
      → Polled (
        settle
            (advance_start ticks_per_ms
              (record t { root_wheel = (root_expired t.root_wheel elapsed).0 })
              elapsed)
            (length (root_expired t.root_wheel elapsed).1),
        (root_expired t.root_wheel elapsed).1,
      )
  unfolding advance_start
  Polled-busy v =
      let out = root_expired_lem t.root_wheel elapsed v.root in
      let count : t.num_entries
          ≡ length (root_entries (root_turn (root_expired t.root_wheel elapsed).0 elapsed))
            + length (root_expired t.root_wheel elapsed).1 =
        omega (
          arith,
          v.counted,
          ap length out.1,
          ap length out.2,
          length-split elapsed (root_entries t.root_wheel),
          length-shift (root_turned t.root_wheel elapsed)
              (root_entries (root_turn (root_expired t.root_wheel elapsed).0 elapsed)),
        ) in
      let settled =
        settle_lem
          (advance_start ticks_per_ms
            (record t { root_wheel = (root_expired t.root_wheel elapsed).0 }) elapsed)
          (length (root_expired t.root_wheel elapsed).1) out.0 count in
      (settled.0, out.1, out.2 ∙ ap (shift (root_turned t.root_wheel elapsed)) (sym settled.1))

  -- poll of a well formed timer runs exactly the tasks whose offset lies below the whole
  -- milliseconds passed since its start, sorted by their offsets, keeps the others with the
  -- offsets that the turned wheel gives them, and keeps the timer well formed. A timer with no
  -- task, or polled within a millisecond of its start, is unchanged; the start of any other moves on
  -- by the whole milliseconds passed.
  pub poll-Polled :
      TimerIsValid t
      → Polled (poll ticks_per_ms t now)
        × IsSorted (keep (due elapsed) (root_entries t.root_wheel))
        × Started (t.num_entries == 0) (elapsed == 0) (poll ticks_per_ms t now).0
  unfolding poll
  poll-Polled v = (
    elim (Bool-cases (t.num_entries == 0)) [
      | inl idle ↦
          let none_held : root_entries t.root_wheel ≡ [] =
            nothing_held _ (sym (==→eq t.num_entries 0 idle) ∙ v.counted) in
          rw idle (
            v,
            sym (ap (λ es. tasks (keep (due elapsed) es)) none_held),
            ap (keep (later elapsed)) none_held
                ∙ sym (ap (shift (root_turned t.root_wheel elapsed)) none_held),
          )
      | inr busy ↦ elim (Bool-cases (elapsed == 0)) [
        | inl early ↦
            let none_passed = ==→eq elapsed 0 early in
            rw (busy, early)
              (rw none_passed (
                v,
                sym (ap tasks (keep-due-From 0 _ (all_later (root_entries t.root_wheel)))),
                keep-later-From 0 _ (all_later (root_entries t.root_wheel))
                    ∙ sym (shift_zero _)
                    ∙ ap (λ (k : ℕ). shift k (root_entries t.root_wheel))
                        (sym (turned_zero t.root_wheel)),
              ))
        | inr late ↦ rw (busy, late) (Polled-busy v)
      ]
    ],
    IsSorted-keep (due elapsed) (root_entries t.root_wheel) (root_IsSorted t.root_wheel v.root),
    poll-Started v,
  )
