-- ===== src/Http/Router/Path.antt =====
-- Splitting a path into segments and joining them (`split_path` and `join_path_segments` of
-- http_server.hpp).
use faio.Base.{
  ℕ, zero, suc, ◌≤◌, ◌≡◌, ◌≢◌, refl, sym, ap, ap₂, ◌∙◌, false, List, [], ◌∷◌, ◌++◌, inl, inr, All,
  Bool-cases, arith, length, if◌then◌else◌, ◌==◌, append-nil, append_assoc,
}
use faio.Http.Text.{
  Bytes, until, beyond, has, until_all, until-append, beyond-append, beyond_none, length-beyond,
  has-append,
}
use faio.Http.Types.{strip_query}
use faio.Http.Router.{
  skip_slashes, push_segment, split_segments, split_path, join_from, join_path_segments,
}

-- The text before the first slash, and the parts behind it that are not empty.
abbrev pub parts : Bytes → Bytes × List Bytes
parts [] = ([], [])
parts (c ∷ s) =
    let rest = parts s in
    if c == b'/' then ([], push_segment rest.0 rest.1) else (c ∷ rest.0, rest.1)

-- The parts of a text between its slashes that are not empty.
abbrev pub fields : Bytes → List Bytes
fields s = push_segment (parts s).0 (parts s).1

parts_first : (s : Bytes) → (parts s).0 ≡ until b'/' s
parts_first [] = refl
parts_first (c ∷ s) = elim (Bool-cases (c == b'/')) [
  | inl e ↦ rw e refl
  | inr e ↦ rw e (ap (◌∷◌ c) (parts_first s))
]

parts_rest : (s : Bytes) → (parts s).1 ≡ fields (beyond b'/' s)
parts_rest [] = refl
parts_rest (c ∷ s) = elim (Bool-cases (c == b'/')) [
  | inl e ↦ rw e refl
  | inr e ↦ rw e (parts_rest s)
]

fields_step : (s : Bytes) → fields s ≡ push_segment (until b'/' s) (fields (beyond b'/' s))
fields_step s = ap₂ push_segment (parts_first s) (parts_rest s)

fields-skip_slashes : (s : Bytes) → fields (skip_slashes s) ≡ fields s
fields-skip_slashes [] = refl
fields-skip_slashes (c ∷ s) = elim (Bool-cases (c == b'/')) [
  | inl e ↦ rw e (fields-skip_slashes s)
  | inr e ↦ ap (λ b. fields (if b then skip_slashes s else c ∷ s)) e
]

length-skip_slashes : (s : Bytes) → length (skip_slashes s) ≤ length s
length-skip_slashes [] = omega arith
length-skip_slashes (c ∷ s) = ground (arith, length-skip_slashes s)

length-beyond_suc : (c : ℕ) (s : Bytes) → length (beyond b'/' (c ∷ s)) ≤ length s
length-beyond_suc c s = ground (arith, length-beyond b'/' s)

-- Rounds as many as there are bytes are enough.
split_segments-fields :
    (rounds : ℕ) (s : Bytes) → length s ≤ rounds → split_segments rounds s ≡ fields s
unfolding split_segments
split_segments-fields zero [] h = refl
split_segments-fields zero (c ∷ s) h = absurd (omega arith)
split_segments-fields (suc rounds) [] h = refl
split_segments-fields (suc rounds) (c ∷ s) h =
    let behind = beyond b'/' (c ∷ s) in
    let enough : length (skip_slashes behind) ≤ rounds =
      omega (arith, length-skip_slashes behind, length-beyond_suc c s) in
    ap (push_segment (until b'/' (c ∷ s)))
      (split_segments-fields rounds (skip_slashes behind) enough ∙ fields-skip_slashes behind)
    ∙ sym (fields_step (c ∷ s))

-- The loop of `split_path` ends, and gives the parts between the slashes of the path without its query
-- that are not empty, in their order.
pub split_path-fields : (path : Bytes) → split_path path ≡ fields (strip_query path)
unfolding split_path
split_path-fields path =
    let clean = strip_query path in
    split_segments-fields (length clean) (skip_slashes clean) (length-skip_slashes clean)
    ∙ fields-skip_slashes clean

-- A part of a path: not empty, and without a slash and a `?`.
abbrev pub IsSegment : Bytes → Type 0
IsSegment s = (s ≢ []) × (has b'/' s ≡ false) × (has b'?' s ≡ false)

abbrev slashed : List Bytes → Bytes
slashed [] = []
slashed (segment ∷ rest) = b'/' ∷ segment ++ slashed rest

join_from-slashed :
    (c : ℕ) (out : Bytes) (segments : List Bytes)
    → join_from (c ∷ out) segments ≡ c ∷ out ++ slashed segments
join_from-slashed c out [] = ap (◌∷◌ c) (sym (append-nil out))
join_from-slashed c out (segment ∷ rest) =
    join_from-slashed c (out ++ b'/' ∷ segment) rest
    ∙ ap (◌∷◌ c) (append_assoc out (b'/' ∷ segment) (slashed rest))

join_path_segments-slashed :
    (s : Bytes) (rest : List Bytes) → s ≢ [] → join_path_segments (s ∷ rest) 0 ≡ s ++ slashed rest
join_path_segments-slashed [] rest h = absurd (h refl)
join_path_segments-slashed (c ∷ s) rest h = join_from-slashed c s rest

push_segment_busy : (s : Bytes) (rest : List Bytes) → s ≢ [] → push_segment s rest ≡ s ∷ rest
push_segment_busy [] rest h = absurd (h refl)
push_segment_busy (c ∷ s) rest h = refl

fields-slashed :
    (s : Bytes) (rest : List Bytes)
    → All IsSegment (s ∷ rest)
    → fields (s ++ slashed rest) ≡ s ∷ rest
fields-slashed s [] h =
    ap fields (append-nil s)
    ∙ fields_step s
    ∙ ap₂ (λ a b. push_segment a (fields b)) (until_all b'/' s h.0.1) (beyond_none b'/' s h.0.1)
    ∙ push_segment_busy s [] h.0.0
fields-slashed s (other ∷ rest) h =
    let tail = other ++ slashed rest in
    fields_step (s ++ b'/' ∷ tail)
    ∙ ap₂ (λ a b. push_segment a (fields b)) (until-append b'/' s tail h.0.1)
        (beyond-append b'/' s tail h.0.1)
    ∙ push_segment_busy s (fields tail) h.0.0
    ∙ ap (◌∷◌ s) (fields-slashed other rest h.1)

has-slashed : (segments : List Bytes) → All IsSegment segments → has b'?' (slashed segments) ≡ false
has-slashed [] h = refl
has-slashed (s ∷ rest) h = has-append b'?' s (slashed rest) h.0.2 ∙ has-slashed rest h.1

-- Segments that are not empty and hold no slash and no `?` are given back by splitting the path that they
-- are joined to.
pub split_path-join_path_segments :
    (segments : List Bytes)
    → All IsSegment segments
    → split_path (join_path_segments segments 0) ≡ segments
split_path-join_path_segments [] h = split_path-fields []
split_path-join_path_segments (s ∷ rest) h =
    let clean = has-append b'?' s (slashed rest) h.0.2 ∙ has-slashed rest h.1 in
    ap split_path (join_path_segments-slashed s rest h.0.0)
    ∙ split_path-fields (s ++ slashed rest)
    ∙ ap fields (until_all b'?' (s ++ slashed rest) clean)
    ∙ fields-slashed s rest h
