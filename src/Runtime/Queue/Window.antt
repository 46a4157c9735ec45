-- ===== src/Runtime/Queue/Window.antt =====
-- The tasks in the slots from an index on, and what changes of a slot do to them.
use faio.Base.{
  append-nil, append_assoc, get_or-set_self, get_or-set_ne, ℕ, zero, suc, ◌+◌, ◌-◌, ◌≤◌, ◌<◌, ◌≡◌,
  refl, sym, ap, ap₂, ◌∙◌, List, [], ◌∷◌, ◌++◌, Option, none, get_or, set, length, length-set,
  arith,
}
use faio.Config.{local_queue_capacity}
use faio.Runtime.Queue.{slot, add_32, copy_stolen, take_out}

abbrev pub window : List (Option ℕ) → ℕ → ℕ → List (Option ℕ)
window slots i zero = []
window slots i (suc n) = get_or slots (slot i) none ∷ window slots (add_32 i 1) n

-- A slot `d` places on, at or behind the end of the window and not round at its start.
pub window-set :
    (slots : List (Option ℕ)) (v : Option ℕ) (n i j d : ℕ)
    → slot j ≡ slot (i + d)
    → n ≤ d
    → d < local_queue_capacity
    → window (set slots (slot j) v) i n ≡ window slots i n
window-set slots v zero i j d at past wide = refl
window-set slots v (suc n) i j d at past wide =
    ap₂ ◌∷◌ (get_or-set_ne slots (slot j) (slot i) v none (omega arith))
      (window-set slots v n (add_32 i 1) j (d - 1) (omega arith) (omega arith) (omega arith))

pub window-snoc :
    (slots : List (Option ℕ)) (n i : ℕ)
    → window slots i (suc n) ≡ window slots i n ++ get_or slots (slot (add_32 i n)) none ∷ []
window-snoc slots zero i = ap (λ (k : ℕ). get_or slots k none ∷ []) (omega arith)
window-snoc slots (suc n) i = ap (◌∷◌ (get_or slots (slot i) none)) (
    window-snoc slots n (add_32 i 1)
    ∙ ap (λ (k : ℕ). window slots (add_32 i 1) n ++ get_or slots k none ∷ []) (omega arith))

-- A task stored behind the window.
pub window-store :
    (slots : List (Option ℕ)) (v : Option ℕ) (n i j : ℕ)
    → length slots ≡ local_queue_capacity
    → j ≡ add_32 i n
    → n < local_queue_capacity
    → window (set slots (slot j) v) i (suc n) ≡ window slots i n ++ v ∷ []
window-store slots v n i j wide at room =
    window-snoc (set slots (slot j) v) n i
    ∙ ap₂ (λ xs x. xs ++ x ∷ []) (window-set slots v n i j n (omega arith) (omega arith) room)
        (ap (λ (k : ℕ). get_or (set slots (slot j) v) (slot k) none) (sym at)
          ∙ get_or-set_self slots (slot j) v none (omega arith))

-- Tasks copied one after the other behind the window.
pub window-copy_stolen :
    (src : List (Option ℕ)) (m src_index : ℕ) (dst : List (Option ℕ)) (n i dst_index : ℕ)
    → length dst ≡ local_queue_capacity
    → dst_index ≡ add_32 i n
    → n + m ≤ local_queue_capacity
    → window (copy_stolen src src_index dst dst_index m) i (n + m)
      ≡ window dst i n ++ window src src_index m
window-copy_stolen src zero src_index dst n i dst_index wide at room =
    ap (window dst i) {x = n + 0} {y = n} (omega arith) ∙ sym (append-nil (window dst i n))
window-copy_stolen src (suc m) src_index dst n i dst_index wide at room =
    let v = get_or src (slot src_index) none in
    let dst' = set dst (slot dst_index) v in
    ap (window (copy_stolen src (add_32 src_index 1) dst' (add_32 dst_index 1) m) i) {x = n + suc m}
      {y = suc n + m} (omega arith)
    ∙ window-copy_stolen src m (add_32 src_index 1) dst' (suc n) i (add_32 dst_index 1)
        (length-set dst (slot dst_index) v ∙ wide) (omega arith) (omega arith)
    ∙ ap (λ xs. xs ++ window src (add_32 src_index 1) m)
        (window-store dst v n i dst_index wide at (omega arith))
    ∙ append_assoc (window dst i n) (v ∷ []) (window src (add_32 src_index 1) m)

pub length-copy_stolen :
    (src : List (Option ℕ)) (m src_index : ℕ) (dst : List (Option ℕ)) (dst_index : ℕ)
    → length (copy_stolen src src_index dst dst_index m) ≡ length dst
length-copy_stolen src zero src_index dst dst_index = refl
length-copy_stolen src (suc m) src_index dst dst_index =
    length-copy_stolen src m (add_32 src_index 1) _ (add_32 dst_index 1)
    ∙ length-set dst (slot dst_index) (get_or src (slot src_index) none)

window-mod : (slots : List (Option ℕ)) (m i : ℕ) → window slots i m ≡ window slots (add_32 i 0) m
window-mod slots zero i = refl
window-mod slots (suc m) i =
    ap₂ (λ (k : ℕ) (l : ℕ). get_or slots k none ∷ window slots l m) (omega arith) (omega arith)

pub window-append :
    (slots : List (Option ℕ)) (n m i : ℕ)
    → window slots i (n + m) ≡ window slots i n ++ window slots (add_32 i n) m
window-append slots zero m i = ap (window slots i) (omega arith) ∙ window-mod slots m i
window-append slots (suc n) m i =
    ap (window slots i) {x = suc n + m} {y = suc (n + m)} (omega arith)
    ∙ ap (◌∷◌ (get_or slots (slot i) none)) (
        window-append slots n m (add_32 i 1)
        ∙ ap (λ (k : ℕ). window slots (add_32 i 1) n ++ window slots k m) (omega arith))

-- The slots emptied from an index on: the tasks behind them stay.
pub take_out-behind :
    (n m i : ℕ) (slots : List (Option ℕ))
    → n + m ≤ local_queue_capacity
    → window (take_out slots i n).0 (add_32 i n) m ≡ window slots (add_32 i n) m
take_out-behind zero m i slots room = refl
take_out-behind (suc n) m i slots room =
    ap (λ (k : ℕ). window (take_out (set slots (slot i) none) (add_32 i 1) n).0 k m)
      {x = add_32 i (suc n)} {y = add_32 (add_32 i 1) n} (omega arith)
    ∙ take_out-behind n m (add_32 i 1) (set slots (slot i) none) (omega arith)
    ∙ ap (λ (k : ℕ). window (set slots (slot i) none) k m) {x = add_32 (add_32 i 1) n}
        {y = add_32 i (suc n)} (omega arith)
    ∙ window-set slots none m (add_32 i (suc n)) i (local_queue_capacity - suc n) (omega arith)
        (omega arith) (omega arith)

-- Their tasks come in order.
pub take_out-window :
    (n i : ℕ) (slots : List (Option ℕ))
    → n ≤ local_queue_capacity
    → (take_out slots i n).1 ≡ window slots i n
take_out-window zero i slots room = refl
take_out-window (suc n) i slots room = ap (◌∷◌ (get_or slots (slot i) none)) (
    take_out-window n (add_32 i 1) (set slots (slot i) none) (omega arith)
    ∙ window-set slots none n (add_32 i 1) i (local_queue_capacity - 1) (omega arith) (omega arith)
        (omega arith))

pub length-take_out :
    (n i : ℕ) (slots : List (Option ℕ)) → length (take_out slots i n).0 ≡ length slots
length-take_out zero i slots = refl
length-take_out (suc n) i slots =
    length-take_out n (add_32 i 1) (set slots (slot i) none) ∙ length-set slots (slot i) none
