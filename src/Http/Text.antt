-- ===== src/Http/Text.antt =====
-- Strings as lists of bytes: comparison, search for a byte, and maps from strings.
use Prim.Native.Char.{code}
use Prim.Native.String.{String}
use faio.Base.{
  ℕ, ◌≤◌, ◌≡◌, ◌≢◌, refl, sym, ap, ap₂, ◌∙◌, Bool, true, false, List, [], ◌∷◌, ◌++◌, Option, none,
  some, inl, inr, Bool-cases, arith, length, if◌then◌else◌, ◌==◌, ==→eq, ==_refl,
}

abbrev pub Bytes : Type 0
Bytes = List ℕ

-- The bytes of an ASCII text.
abbrev pub codes : String → Bytes
codes String.[] = []
codes (String.◌∷◌ c s) = code c ∷ codes s

abbrev pub same : Bytes → Bytes → Bool
same [] [] = true
same [] (y ∷ ys) = false
same (x ∷ xs) [] = false
same (x ∷ xs) (y ∷ ys) = let rest = same xs ys in if x == y then rest else false

pub same→eq : (xs ys : Bytes) → same xs ys ≡ true → xs ≡ ys
same→eq [] [] h = refl
same→eq [] (y ∷ ys) h = ground arith
same→eq (x ∷ xs) [] h = ground arith
same→eq (x ∷ xs) (y ∷ ys) h = elim (Bool-cases (x == y)) [
  | inl e ↦ ap₂ ◌∷◌ (==→eq x y e) (same→eq xs ys (ground arith))
  | inr e ↦ ground arith
]

pub same_refl : (xs : Bytes) → same xs xs ≡ true
same_refl [] = refl
same_refl (x ∷ xs) = rw (==_refl x) (same_refl xs)

pub same_ne : (xs ys : Bytes) → xs ≢ ys → same xs ys ≡ false
same_ne xs ys h = elim (Bool-cases (same xs ys)) [
  | inl e ↦ absurd (h (same→eq xs ys e))
  | inr e ↦ e
]

abbrev pub concat : List Bytes → Bytes
concat [] = []
concat (part ∷ rest) = part ++ concat rest

-- The part before the first `c`, or all of it.
abbrev pub until : ℕ → Bytes → Bytes
until c [] = []
until c (x ∷ xs) = let rest = until c xs in if x == c then [] else x ∷ rest

-- The part behind the first `c`, or nothing.
abbrev pub beyond : ℕ → Bytes → Bytes
beyond c [] = []
beyond c (x ∷ xs) = let rest = beyond c xs in if x == c then xs else rest

abbrev pub has : ℕ → Bytes → Bool
has c [] = false
has c (x ∷ xs) = let rest = has c xs in if x == c then true else rest

pub length-beyond : (c : ℕ) (xs : Bytes) → length (beyond c xs) ≤ length xs
length-beyond c [] = omega arith
length-beyond c (x ∷ xs) = ground (arith, length-beyond c xs)

pub until_all : (c : ℕ) (xs : Bytes) → has c xs ≡ false → until c xs ≡ xs
until_all c [] h = refl
until_all c (x ∷ xs) h = ground (arith, until_all c xs)

pub until-append : (c : ℕ) (xs ys : Bytes) → has c xs ≡ false → until c (xs ++ c ∷ ys) ≡ xs
until-append c [] ys h = ground (arith, ==_refl c)
until-append c (x ∷ xs) ys h = ground (arith, until-append c xs ys)

pub beyond-append : (c : ℕ) (xs ys : Bytes) → has c xs ≡ false → beyond c (xs ++ c ∷ ys) ≡ ys
beyond-append c [] ys h = ground (arith, ==_refl c)
beyond-append c (x ∷ xs) ys h = ground (arith, beyond-append c xs ys)

pub beyond_none : (c : ℕ) (xs : Bytes) → has c xs ≡ false → beyond c xs ≡ []
beyond_none c [] h = refl
beyond_none c (x ∷ xs) h = ground (arith, beyond_none c xs)

pub has-append : (c : ℕ) (xs ys : Bytes) → has c xs ≡ false → has c (xs ++ ys) ≡ has c ys
has-append c [] ys h = refl
has-append c (x ∷ xs) ys h = ground (arith, has-append c xs ys)

pub has-until : (c : ℕ) (xs : Bytes) → has c (until c xs) ≡ false
has-until c [] = refl
has-until c (x ∷ xs) = ground (arith, has-until c xs)

-- A map from strings, `std::map` or `std::unordered_map`, as a list of its entries.
abbrev pub Table : Type 0 → Type 0
Table V = List (Bytes × V)

module _ {V : Type 0} where
  abbrev pub find : Bytes → Table V → Option V
  find k [] = none
  find k ((j, v) ∷ m) = let rest = find k m in if same j k then some v else rest

  -- `m[k] = v`.
  abbrev pub put : Bytes → V → Table V → Table V
  put k v [] = (k, v) ∷ []
  put k v ((j, w) ∷ m) = let rest = put k v m in if same j k then (j, v) ∷ m else (j, w) ∷ rest

  abbrev pub put_if : Option V → Bytes → V → Table V → Table V
  put_if none k v m = put k v m
  put_if (some w) k v m = m

  -- `m.emplace(k, v)`: an entry that is there stays.
  abbrev pub emplace : Bytes → V → Table V → Table V
  emplace k v m = put_if (find k m) k v m

  pub find-put_self : (k : Bytes) (v : V) (m : Table V) → find k (put k v m) ≡ some v
  find-put_self k v [] = rw (same_refl k) refl
  find-put_self k v ((j, w) ∷ m) = elim (Bool-cases (same j k)) [
    | inl e ↦ rw e (rw e refl)
    | inr e ↦ rw e (rw e (find-put_self k v m))
  ]

  pub find-put_ne : (k j : Bytes) (v : V) (m : Table V) → j ≢ k → find j (put k v m) ≡ find j m
  find-put_ne k j v [] h = rw (same_ne k j (λ e. h (sym e))) refl
  find-put_ne k j v ((i, w) ∷ m) h = elim (Bool-cases (same i k)) [
    | inl e ↦
        let other : same i j ≡ false = same_ne i j (λ f. h (sym f ∙ same→eq i k e)) in
        rw e (rw other refl)
    | inr e ↦ rw e (ap (λ r. if same i j then some w else r) (find-put_ne k j v m h))
  ]

  pub find-emplace_ne :
      (k j : Bytes) (v : V) (m : Table V) → j ≢ k → find j (emplace k v m) ≡ find j m
  find-emplace_ne k j v m h = go (find k m)
    where
      go : (o : Option V) → find j (put_if o k v m) ≡ find j m
      go none = find-put_ne k j v m h
      go (some w) = refl
