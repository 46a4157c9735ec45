-- ===== src/Timer/Wheel/Levels.antt =====
-- The instances `TimerWheel<0>`, `TimerWheel<1>`, … of wheel.hpp: each level is the node over the
-- level below, and every one of them stands for a sorted list of entries.
use faio.Base.{ℕ, zero, suc, ◌+◌, ◌*◌, ◌^◌, ◌≡◌, refl, sym, ap, ◌∙◌, List, arith}
use native.Mathlib.Nat.{pow-suc}
use faio.Config.{slot_size, static_pow-eq-pow, pow-shift}
use faio.Timer.Offsets.{Entry}
use faio.Timer.Gather.{gather}
use faio.Timer.Wheel.Interface.{WheelOps, WheelLaws}
use faio.Timer.Wheel.Leaf.{Leaf, leaf_ops}
use faio.Timer.Wheel.LeafLaws.{LeafIsValid, leaf_entries, leaf_laws}
use faio.Timer.Wheel.Node.{Node, child_shift, node_ops}
use faio.Timer.Wheel.NodeView.{NodeIsValid, child_entries}
use faio.Timer.Wheel.NodeLaws.{node_laws}

abbrev pub Wheel : ℕ → Type 0
Wheel zero = Leaf
Wheel (suc level) = Node (Wheel level)

abbrev pub ops : (level : ℕ) → WheelOps (Wheel level)
ops zero = leaf_ops
ops (suc level) = node_ops (ops level) (suc level)

abbrev pub IsValid : (level : ℕ) → Wheel level → Type 0
IsValid zero = LeafIsValid
IsValid (suc level) = NodeIsValid (IsValid level)

abbrev pub entries : (level : ℕ) → Wheel level → List Entry
entries zero = leaf_entries
entries (suc level) =
    λ w. gather (child_entries (entries level)) (ops level).span_ms 0 w.wheels_slots

-- Level `l` spans 64 ^ (l + 1) ms.
pub span_ms-eq-pow : (level : ℕ) → (ops level).span_ms ≡ slot_size ^ suc level
span_ms-eq-pow zero = refl
span_ms-eq-pow (suc level) =
    static_pow-eq-pow slot_size (suc level + 1) ∙ ap (λ (n : ℕ). slot_size ^ n) (omega arith)

pub child_shift_wide : (level : ℕ) → 2 ^ child_shift (suc level) ≡ (ops level).span_ms
child_shift_wide level = pow-shift (suc level) ∙ sym (span_ms-eq-pow level)

pub span_ms_whole : (level : ℕ) → (ops (suc level)).span_ms ≡ slot_size * (ops level).span_ms
span_ms_whole level =
    span_ms-eq-pow (suc level)
    ∙ pow-suc slot_size (suc level)
    ∙ omega (arith, ap (λ (n : ℕ). n * slot_size) (span_ms-eq-pow level))

pub wheel_laws : (level : ℕ) → WheelLaws (IsValid level) (entries level) (ops level)
wheel_laws zero = leaf_laws
wheel_laws (suc level) =
    node_laws (wheel_laws level) (suc level) (child_shift_wide level) (span_ms_whole level)
