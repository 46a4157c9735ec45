-- ===== src/Sync/RingBuffer.antt =====
-- include/faio/detail/sync/channel/ring_buffer.hpp: a FIFO in a vector of one more element than its
-- capacity. `blank` is the value-initialised element. An index is a `size_t`. (What the C++ moves
-- from is never read again; here it stays.)
pub mod Slices
pub mod Laws
pub mod Resize
use faio.Base.{
  ℕ, ◌+◌, ◌-◌, ◌%◌, ◌^◌, Bool, true, false, List, [], ◌∷◌, ◌++◌, Option, none, some, length, get_or,
  set, take, drop, replicate, if◌then◌else◌, ◌==◌, ltb, next, sub_size,
}

pub record RingBuffer (A : Type 0) : Type 0 where
  pub start : ℕ
  pub end : ℕ
  pub cells : List A

module _ {A : Type 0} (blank : A) where
  unfoldable pub new : ℕ → RingBuffer A
  new size = record { start = 0; end = 0; cells = replicate (next size) blank }

  -- The element that `safety_pop` and `pop` read.
  unfoldable pub front : RingBuffer A → A
  front r = get_or r.cells r.start blank

module _ {A : Type 0} where
  unfoldable pub is_empty : RingBuffer A → Bool
  is_empty r = r.start == r.end

  unfoldable pub is_fill : RingBuffer A → Bool
  is_fill r = next r.end % length r.cells == r.start

  unfoldable pub safety_push : RingBuffer A → A → RingBuffer A
  safety_push r val = record r { end = next r.end % length r.cells; cells = set r.cells r.end val }

  -- The buffer after `safety_pop`, which returns `front`.
  unfoldable pub advance : RingBuffer A → RingBuffer A
  advance r = record r { start = next r.start % length r.cells }

  unfoldable pub push : RingBuffer A → A → RingBuffer A × Bool
  push r val = if is_fill r then (r, false) else (safety_push r val, true)

  unfoldable pub pop : A → RingBuffer A → RingBuffer A × Option A
  pop blank r = if is_empty r then (r, none) else (advance r, some (front blank r))

  unfoldable pub size : RingBuffer A → ℕ
  size r = (sub_size r.end r.start + length r.cells) % 2 ^ 64 % length r.cells

  unfoldable pub capacity : RingBuffer A → ℕ
  capacity r = sub_size (length r.cells) 1

  -- The new vector with `xs` copied to its beginning.
  abbrev pub copied : A → ℕ → List A → List A
  copied blank n xs = xs ++ drop (length xs) (replicate n blank)

  unfoldable pub resize : A → RingBuffer A → ℕ → RingBuffer A × Bool
  resize blank r new_size =
      let n = next new_size in
      let stretch = take (r.end - r.start) (drop r.start r.cells) in
      let wrapped = drop r.start r.cells ++ take r.end r.cells in
      if n == length r.cells
      then (r, true)
      else (if ltb n (size r)
          then (r, false)
          else (if ltb r.start r.end
              then (
                record { start = 0; end = r.end - r.start; cells = copied blank n stretch },
                true,
              )
              else (if ltb r.end r.start
                  then (
                    record {
                      start = 0;
                      end = (r.end + sub_size (length r.cells) r.start) % 2 ^ 64;
                      cells = copied blank n wrapped;
                    },
                    true,
                  )
                  else (record r { cells = replicate n blank }, true))))
