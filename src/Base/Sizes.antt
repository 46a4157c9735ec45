-- ===== src/Base/Sizes.antt =====
-- Arithmetic on `size_t`, which is 64 bits wide.
use Prim.Native.Nat.{ℕ, ◌+◌, ◌-◌, ◌%◌, ◌^◌}

abbrev pub next : ℕ → ℕ
next i = (i + 1) % 2 ^ 64

abbrev pub sub_size : ℕ → ℕ → ℕ
sub_size a b = (a + 2 ^ 64 - b) % 2 ^ 64
