-- ===== src/Config.antt =====
-- include/faio/detail/runtime/core/config.hpp and include/faio/detail/common/static_math.hpp:
-- the sizes of the timer wheels, and powers by repeated multiplication.
use faio.Base.{ℕ, zero, suc, ◌*◌, ◌/◌, ◌%◌, ◌^◌, ◌≡◌, refl, sym, ap, ◌∙◌, arith}
use native.Mathlib.Nat.{pow-zero, pow-suc, mul-one, one-mul}

abbrev pub max_level : ℕ
max_level = 6

abbrev pub slot_size : ℕ
slot_size = 64

abbrev pub slot_shift : ℕ
slot_shift = 6

abbrev pub local_queue_capacity : ℕ
local_queue_capacity = 256

-- `while (y--) expected *= x;`
power_loop : ℕ → ℕ → ℕ → ℕ
power_loop expected x zero = expected
power_loop expected x (suc y) = power_loop (expected * x) x y

unfoldable pub static_pow : ℕ → ℕ → ℕ
unfolding power_loop
static_pow x y = power_loop 1 x y

-- `x >> k` on an unsigned number.
abbrev pub shr : ℕ → ℕ → ℕ
shr x k = x / 2 ^ k

-- `x & (2 ^ k - 1)`.
abbrev pub low_bits : ℕ → ℕ → ℕ
low_bits x k = x % 2 ^ k

power_loop-eq-pow : (a x y : ℕ) → power_loop a x y ≡ a * x ^ y
unfolding power_loop
power_loop-eq-pow a x zero = rw pow-zero (sym (mul-one a))
power_loop-eq-pow a x (suc y) = power_loop-eq-pow (a * x) x y ∙ rw (pow-suc x y) (grind arith)

-- The loop is exponentiation.
pub static_pow-eq-pow : (x y : ℕ) → static_pow x y ≡ x ^ y
unfolding static_pow
static_pow-eq-pow x y = power_loop-eq-pow 1 x y ∙ one-mul (x ^ y)

-- A shift by `slot_shift * level` divides by `slot_size ^ level`.
pub pow-shift : (level : ℕ) → 2 ^ (slot_shift * level) ≡ slot_size ^ level
pow-shift zero = refl
pow-shift (suc level) = ap (λ n. 2 ^ n) six_more ∙ simp (pow-suc, pow-shift level) (omega arith)
  where
    six_more : slot_shift * suc level ≡ suc (suc (suc (suc (suc (suc (slot_shift * level))))))
    six_more = omega arith
