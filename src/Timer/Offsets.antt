-- ===== src/Timer/Offsets.antt =====
-- The abstract view of a wheel: its tasks with their offsets from the wheel's start, in the order
-- of the slots, and what each operation does to such a list.
use faio.Base.{
  ℕ, ◌+◌, ◌≤◌, ◌<◌, suc, ◌≡◌, refl, ap, Bool, not, ◌&&◌, List, [], ◌∷◌, ◌++◌, map, arith, ltb, ◌==◌,
  if◌then◌else◌, keep, remove, All, length,
}
use faio.Timer.Task.{TimerTask}

abbrev pub Entry : Type 0
Entry = ℕ × TimerTask

abbrev pub shift : ℕ → List Entry → List Entry
shift k = map (λ e. (k + e.0, e.1))

abbrev pub tasks : List Entry → List TimerTask
tasks = map (λ e. e.1)

-- The tests of the specification: due before `r`, and the task at `address` with offset `o`.
abbrev pub due : ℕ → Entry → Bool
due r e = ltb e.0 r

abbrev pub later : ℕ → Entry → Bool
later r e = not (ltb e.0 r)

abbrev pub is_task : ℕ → ℕ → Entry → Bool
is_task o address e = e.0 == o && e.1.address == address

-- A new entry goes before those with the same offset.
abbrev pub insert : Entry → List Entry → List Entry
insert e [] = e ∷ []
insert e (x ∷ xs) = if ltb x.0 e.0 then x ∷ insert e xs else e ∷ x ∷ xs

abbrev pub Below : ℕ → List Entry → Type 0
Below n es = All (λ e. e.0 < n) es

abbrev pub From : ℕ → List Entry → Type 0
From n es = All (λ e. n ≤ e.0) es

-- Offsets do not fall along the list.
abbrev pub IsSorted : List Entry → Type 0
IsSorted [] = Unit
IsSorted (e ∷ es) = From e.0 es × IsSorted es

pub shift_zero : (es : List Entry) → shift 0 es ≡ es
shift_zero [] = refl
shift_zero (e ∷ es) = ground (arith, shift_zero es)

pub shift-shift : (j k : ℕ) (es : List Entry) → shift j (shift k es) ≡ shift (j + k) es
shift-shift j k [] = refl
shift-shift j k (e ∷ es) = ground (arith, shift-shift j k es)

pub tasks-shift : (k : ℕ) (es : List Entry) → tasks (shift k es) ≡ tasks es
tasks-shift k [] = refl
tasks-shift k (e ∷ es) = ap (◌∷◌ e.1) (tasks-shift k es)

pub From-shift : (k : ℕ) (es : List Entry) → From k (shift k es)
From-shift k [] = tt
From-shift k (e ∷ es) = (omega arith, From-shift k es)

pub From-shift_add : (k n : ℕ) (es : List Entry) → From n es → From (k + n) (shift k es)
From-shift_add k n [] h = tt
From-shift_add k n (e ∷ es) h = (omega arith, From-shift_add k n es h.1)

pub From-mono : {m n : ℕ} (es : List Entry) → m ≤ n → From n es → From m es
From-mono [] h b = tt
From-mono (e ∷ es) h b = (omega arith, From-mono es h b.1)

pub Below-shift : (k n : ℕ) (es : List Entry) → Below n es → Below (k + n) (shift k es)
Below-shift k n [] h = tt
Below-shift k n (e ∷ es) h = (omega arith, Below-shift k n es h.1)

pub Below-mono : {m n : ℕ} (es : List Entry) → m ≤ n → Below m es → Below n es
Below-mono [] h b = tt
Below-mono (e ∷ es) h b = (omega arith, Below-mono es h b.1)

pub IsSorted-shift : (k : ℕ) (es : List Entry) → IsSorted es → IsSorted (shift k es)
IsSorted-shift k [] h = tt
IsSorted-shift k (e ∷ es) h = (From-shift_add k e.0 es h.0, IsSorted-shift k es h.1)

pub From-append : (n : ℕ) (xs ys : List Entry) → From n xs → From n ys → From n (xs ++ ys)
From-append n [] ys hx hy = hy
From-append n (x ∷ xs) ys hx hy = (hx.0, From-append n xs ys hx.1 hy)

pub IsSorted-append :
    (n : ℕ) (xs ys : List Entry)
    → Below n xs
    → From n ys
    → IsSorted xs
    → IsSorted ys
    → IsSorted (xs ++ ys)
IsSorted-append n [] ys b f hx hy = hy
IsSorted-append n (x ∷ xs) ys b f hx hy = (
  From-append x.0 xs ys hx.0 (From-mono ys (omega arith) f),
  IsSorted-append n xs ys b.1 f hx.1 hy,
)

-- The operations on a list in two parts, of which one is out of reach.
pub insert-append_right :
    (e : Entry) (xs ys : List Entry) → Below e.0 xs → insert e (xs ++ ys) ≡ xs ++ insert e ys
insert-append_right e [] ys h = refl
insert-append_right e (x ∷ xs) ys h = ground (arith, insert-append_right e xs ys h.1)

insert_front : (e : Entry) (ys : List Entry) → From e.0 ys → insert e ys ≡ e ∷ ys
insert_front e [] h = refl
insert_front e (y ∷ ys) h = ground arith

pub insert-append_left :
    (e : Entry) (xs ys : List Entry) → From e.0 ys → insert e (xs ++ ys) ≡ insert e xs ++ ys
insert-append_left e [] ys h = insert_front e ys h
insert-append_left e (x ∷ xs) ys h = ground (arith, insert-append_left e xs ys h)

pub insert-shift :
    (k o : ℕ) (t : TimerTask) (es : List Entry)
    → insert (k + o, t) (shift k es) ≡ shift k (insert (o, t) es)
insert-shift k o t [] = refl
insert-shift k o t (e ∷ es) = ground (arith, insert-shift k o t es)

pub remove-append_right :
    (o a : ℕ) (xs ys : List Entry)
    → Below o xs
    → remove (is_task o a) (xs ++ ys) ≡ xs ++ remove (is_task o a) ys
remove-append_right o a [] ys h = refl
remove-append_right o a (x ∷ xs) ys h = ground (arith, remove-append_right o a xs ys h.1)

pub remove_above : (o a n : ℕ) (ys : List Entry) → o < n → From n ys → remove (is_task o a) ys ≡ ys
remove_above o a n [] lt h = refl
remove_above o a n (y ∷ ys) lt h = ground (arith, remove_above o a n ys lt h.1)

pub remove-append_left :
    (o a n : ℕ) (xs ys : List Entry)
    → o < n
    → From n ys
    → remove (is_task o a) (xs ++ ys) ≡ remove (is_task o a) xs ++ ys
remove-append_left o a n [] ys lt h = remove_above o a n ys lt h
remove-append_left o a n (x ∷ xs) ys lt h = ground (arith, remove-append_left o a n xs ys lt h)

pub remove-shift :
    (k o a : ℕ) (es : List Entry)
    → remove (is_task (k + o) a) (shift k es) ≡ shift k (remove (is_task o a) es)
remove-shift k o a [] = refl
remove-shift k o a (e ∷ es) = ground (arith, remove-shift k o a es)

pub keep-due-shift :
    (k r : ℕ) (es : List Entry) → keep (due (k + r)) (shift k es) ≡ shift k (keep (due r) es)
keep-due-shift k r [] = refl
keep-due-shift k r (e ∷ es) = ground (arith, keep-due-shift k r es)

pub keep-later-shift :
    (k r : ℕ) (es : List Entry) → keep (later (k + r)) (shift k es) ≡ shift k (keep (later r) es)
keep-later-shift k r [] = refl
keep-later-shift k r (e ∷ es) = ground (arith, keep-later-shift k r es)

module _ (r : ℕ) where
  pub keep-due-Below : (es : List Entry) → Below r es → keep (due r) es ≡ es
  keep-due-Below [] h = refl
  keep-due-Below (e ∷ es) h = ground (arith, keep-due-Below es h.1)

  pub keep-later-Below : (es : List Entry) → Below r es → keep (later r) es ≡ []
  keep-later-Below [] h = refl
  keep-later-Below (e ∷ es) h = ground (arith, keep-later-Below es h.1)

  pub keep-due-From : (es : List Entry) → From r es → keep (due r) es ≡ []
  keep-due-From [] h = refl
  keep-due-From (e ∷ es) h = ground (arith, keep-due-From es h.1)

  pub keep-later-From : (es : List Entry) → From r es → keep (later r) es ≡ es
  keep-later-From [] h = refl
  keep-later-From (e ∷ es) h = ground (arith, keep-later-From es h.1)

pub length-insert : (e : Entry) (es : List Entry) → length (insert e es) ≡ length es + 1
length-insert e [] = omega arith
length-insert e (x ∷ es) = ground (arith, length-insert e es)

pub length-split :
    (r : ℕ) (es : List Entry)
    → length (tasks (keep (due r) es)) + length (keep (later r) es) ≡ length es
length-split r [] = omega arith
length-split r (e ∷ es) = ground (arith, length-split r es)

From-keep_any : (p : Entry → Bool) (n : ℕ) (es : List Entry) → From n es → From n (keep p es)
From-keep_any p n [] h = tt
From-keep_any p n (e ∷ es) h = ground (arith, From-keep_any p n es h.1)

pub IsSorted-keep : (p : Entry → Bool) (es : List Entry) → IsSorted es → IsSorted (keep p es)
IsSorted-keep p [] h = tt
IsSorted-keep p (e ∷ es) h = ground (arith, IsSorted-keep p es h.1, From-keep_any p e.0 es h.0)

pub length-shift : (k : ℕ) (es : List Entry) → length (shift k es) ≡ length es
length-shift k [] = refl
length-shift k (e ∷ es) = ap suc (length-shift k es)
