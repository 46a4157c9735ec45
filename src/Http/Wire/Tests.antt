-- ===== src/Http/Wire/Tests.antt =====
-- A connection that takes three bytes at a time, and one that fails.
use faio.Base.{ℕ, zero, suc, ◌≡◌, refl, [], none, some}
use faio.Http.Text.{codes}
use faio.Http.Wire.{
  Write, written, write_failed, io_error, sent, write_from, write_all, write_parts,
}

abbrev by_three : ℕ → Write
by_three j = written 3

abbrev fails_then : ℕ → Write
fails_then zero = written 2
fails_then (suc j) = write_failed 32

all_arrives :
    write_parts 9 by_three 0 (codes "head") (codes "body") []
    ≡ some (sent none (codes "headbody") 3)
unfolding write_parts
all_arrives = refl

some_arrives :
    write_all fails_then 0 (codes "head") [] ≡ some (sent (some (io_error 32)) (codes "he") 2)
unfolding write_all write_from
some_arrives = refl
