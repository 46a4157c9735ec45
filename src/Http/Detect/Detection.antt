-- ===== src/Http/Detect/Detection.antt =====
-- Protocol detection ends and is right, however the bytes arrive (`detect_protocol` of http_server.hpp).
use mathlib.Core.Bool.{true≢false}
use Prim.Native.Nat.{min}
use faio.Base.{
  ℕ, zero, suc, ◌+◌, ◌≤◌, ◌<◌, ◌≡◌, refl, sym, ap, ap₂, subst, ◌∙◌, true, false, [], ◌∷◌, ◌++◌,
  Option, some, ◌⊎◌, inl, inr, Bool-cases, arith, length, length-append, if◌then◌else◌, ltb, take,
  drop, append-nil, append_assoc, ltb→lt, ltb→le, lt→ltb,
}
use faio.Http.Text.{Bytes, same, same→eq, same_refl}
use faio.Http.Wire.Delivery.{take-drop}
use faio.Http.Detect.{
  Read, data_read, failed, WireProtocol, http1, http2, Outcome, error, detected, preface,
  preface_size, is_h2_preface_prefix, is_h2_preface_complete, classify, detect_from,
  detect_protocol,
}

-- The bytes of `n` reads from read `i` on.
abbrev pub bytes_of : Read → Bytes
bytes_of (data_read bytes) = bytes
bytes_of (failed e) = []

abbrev pub received : (ℕ → Read) → ℕ → ℕ → Bytes
received reads i zero = []
received reads i (suc n) = bytes_of (reads i) ++ received reads (suc i) n

-- The first text is a beginning of the second.
abbrev pub Begins : Bytes → Bytes → Type 0
Begins xs ys = (rest : Bytes) × (ys ≡ xs ++ rest)

take-length : (xs ys : Bytes) → take (length xs) (xs ++ ys) ≡ xs
take-length [] ys = refl
take-length (x ∷ xs) ys = ap (◌∷◌ x) (take-length xs ys)

take_whole : (xs : Bytes) → take (length xs) xs ≡ xs
take_whole [] = refl
take_whole (x ∷ xs) = ap (◌∷◌ x) (take_whole xs)

-- What the two tests say of the bytes.
short_lem : (bytes : Bytes) → length bytes < preface_size → ¬ Begins preface bytes
short_lem bytes h begins =
    omega (arith, h, ap (λ (s : Bytes). length s) begins.1, length-append preface begins.0)

complete_lem : (bytes : Bytes) → is_h2_preface_complete bytes ≡ true → Begins preface bytes
unfolding is_h2_preface_complete
complete_lem bytes h = elim (Bool-cases (ltb (length bytes) preface_size)) [
  | inl e ↦
      absurd
        (ground (arith, ap (λ b. if b then false else same (take preface_size bytes) preface) e, h))
  | inr e ↦
      let whole : same (take preface_size bytes) preface ≡ true =
        sym (ap (λ b. if b then false else same (take preface_size bytes) preface) e) ∙ h in
      (
        drop preface_size bytes,
        sym (take-drop preface_size bytes)
            ∙ ap (λ s. s ++ drop preface_size bytes)
                (same→eq (take preface_size bytes) preface whole),
      )
]

long_min : (n m : ℕ) → m ≤ n → min n m ≡ m
long_min n m h = omega (arith, h)

-- A text that begins the preface, or begins with it, passes the first test.
prefix_of : (bytes : Bytes) → Begins bytes preface → is_h2_preface_prefix bytes ≡ true
unfolding is_h2_preface_prefix
prefix_of bytes begins =
    let at : min (length bytes) preface_size ≡ length bytes =
      omega (arith, ap (λ (s : Bytes). length s) begins.1, length-append bytes begins.0) in
    ap (λ n. same (take n bytes) (take n preface)) at
    ∙ ap₂ same (take_whole bytes) (ap (take (length bytes)) begins.1 ∙ take-length bytes begins.0)
    ∙ same_refl bytes

prefix_with : (bytes : Bytes) → Begins preface bytes → is_h2_preface_prefix bytes ≡ true
unfolding is_h2_preface_prefix
prefix_with bytes begins =
    let at : min (length bytes) preface_size ≡ preface_size =
      omega (arith, ap (λ (s : Bytes). length s) begins.1, length-append preface begins.0) in
    ap (λ n. same (take n bytes) (take n preface)) at
    ∙ ap (λ (s : Bytes). same (take preface_size s) preface) begins.1
    ∙ same_refl preface

other_lem :
    (bytes : Bytes)
    → is_h2_preface_prefix bytes ≡ false
    → (¬ Begins preface bytes) × (¬ Begins bytes preface)
other_lem bytes h = (
  λ begins. true≢false (sym (prefix_with bytes begins) ∙ h),
  λ begins. true≢false (sym (prefix_of bytes begins) ∙ h),
)

-- A prefix of the preface that is not all of it is shorter.
undecided_short :
    (bytes : Bytes)
    → is_h2_preface_prefix bytes ≡ true
    → is_h2_preface_complete bytes ≡ false
    → length bytes < preface_size
unfolding is_h2_preface_prefix is_h2_preface_complete
undecided_short bytes h k = elim (Bool-cases (ltb (length bytes) preface_size)) [
  | inl e ↦ ltb→lt (length bytes) preface_size e
  | inr e ↦
      let at = long_min (length bytes) preface_size (ltb→le (length bytes) preface_size e) in
      let whole : same (take preface_size bytes) preface ≡ true =
        sym (ap (λ n. same (take n bytes) (take n preface)) at) ∙ h in
      let none : same (take preface_size bytes) preface ≡ false =
        sym (ap (λ b. if b then false else same (take preface_size bytes) preface) e) ∙ k in
      absurd (ground (arith, whole, none))
]

undecided-Begins :
    (bytes : Bytes)
    → is_h2_preface_prefix bytes ≡ true
    → length bytes < preface_size
    → Begins bytes preface
unfolding is_h2_preface_prefix
undecided-Begins bytes h short =
    let at : min (length bytes) preface_size ≡ length bytes = omega (arith, short) in
    let begun : same bytes (take (length bytes) preface) ≡ true =
      ap (λ s. same s (take (length bytes) preface)) (sym (take_whole bytes))
      ∙ sym (ap (λ n. same (take n bytes) (take n preface)) at)
      ∙ h in
    (
      drop (length bytes) preface,
      sym (take-drop (length bytes) preface)
          ∙ ap (λ s. s ++ drop (length bytes) preface)
              (sym (same→eq bytes (take (length bytes) preface) begun)),
    )

-- The bytes show the protocol, or the end of the stream does: HTTP/2 where they begin with the preface,
-- HTTP/1 where they do not, and cannot any more.
abbrev pub IsDecided : WireProtocol → Read → Bytes → Type 0
IsDecided http2 read bytes = Begins preface bytes
IsDecided http1 read bytes =
    (¬ Begins preface bytes) × ((¬ Begins bytes preface) ⊎ (read ≡ data_read []))

-- In front of each of `n` reads the bytes so far are a proper beginning of the preface.
abbrev pub Undecided : (ℕ → Read) → ℕ → Bytes → ℕ → Type 0
Undecided reads i bytes zero = Unit
Undecided reads i bytes (suc n) =
    (Begins bytes preface × (length bytes < preface_size))
    × Undecided reads (suc i) (bytes ++ bytes_of (reads i)) n

abbrev pub IsDetected : (ℕ → Read) → ℕ → Bytes → Outcome → Type 0
IsDetected reads i initial_data (error e) =
    (n : ℕ) × (reads (i + n) ≡ failed e) × Undecided reads i initial_data (suc n)
IsDetected reads i initial_data (detected protocol bytes) =
    (n : ℕ) × (bytes ≡ initial_data ++ received reads i n)
    × IsDecided protocol (reads (i + n)) bytes
    × Undecided reads i initial_data n

abbrev Ends : (ℕ → Read) → ℕ → Bytes → Option Outcome → Type 0
Ends reads i initial_data found =
    (o : Outcome) × (found ≡ some o) × IsDetected reads i initial_data o

module _ (reads : ℕ → Read) (i : ℕ) (initial_data : Bytes) (begins : Begins initial_data preface)
    (short : length initial_data < preface_size) where
  -- One more read in front.
  IsDetected-suc :
      (bytes : Bytes) (o : Outcome)
      → reads i ≡ data_read bytes
      → IsDetected reads (suc i) (initial_data ++ bytes) o
      → IsDetected reads i initial_data o
  IsDetected-suc bytes (error e) at h = (
    suc h.0,
    ap reads (omega arith) ∙ h.1,
    (
      (begins, short),
      subst (λ r. Undecided reads (suc i) (initial_data ++ bytes_of r) (suc h.0)) (sym at) h.2,
    ),
  )
  IsDetected-suc bytes (detected protocol all) at h = (
    suc h.0,
    h.1
        ∙ append_assoc initial_data bytes (received reads (suc i) h.0)
        ∙ ap (λ r. initial_data ++ (bytes_of r ++ received reads (suc i) h.0)) (sym at),
    subst (λ k. IsDecided protocol (reads k) all) (omega arith) h.2,
    (
      (begins, short),
      subst (λ r. Undecided reads (suc i) (initial_data ++ bytes_of r) h.0) (sym at) h.3,
    ),
  )

  -- The read decides.
  decide_now :
      (bytes : Bytes) (protocol : WireProtocol)
      → reads i ≡ data_read bytes
      → IsDecided protocol (reads (i + 1)) (initial_data ++ bytes)
      → IsDetected reads i initial_data (detected protocol (initial_data ++ bytes))
  decide_now bytes protocol at h = (
    1,
    ap (λ x. initial_data ++ x) (sym (append-nil bytes) ∙ ap (λ r. bytes_of r ++ []) (sym at)),
    h,
    ((begins, short), tt),
  )

  classify-Ends :
      (bytes : Bytes) (rest : Option Outcome)
      → reads i ≡ data_read bytes
      → (Begins (initial_data ++ bytes) preface
          → length (initial_data ++ bytes) < preface_size
          → Ends reads (suc i) (initial_data ++ bytes) rest)
      → Ends reads i initial_data (classify (initial_data ++ bytes) rest)
  unfolding classify
  classify-Ends bytes rest at later =
      elim (Bool-cases (is_h2_preface_prefix (initial_data ++ bytes))) [
        | inr e ↦
            let other = other_lem (initial_data ++ bytes) e in
            (
              detected http1 (initial_data ++ bytes),
              rw e refl,
              decide_now bytes http1 at (other.0, inl other.1),
            )
        | inl e ↦ elim (Bool-cases (is_h2_preface_complete (initial_data ++ bytes))) [
          | inl f ↦ (
            detected http2 (initial_data ++ bytes),
            rw (e, f) refl,
            decide_now bytes http2 at (complete_lem (initial_data ++ bytes) f),
          )
          | inr f ↦
              let left = undecided_short (initial_data ++ bytes) e f in
              let more = later (undecided-Begins (initial_data ++ bytes) e left) left in
              (more.0, rw (e, f) more.1, IsDetected-suc bytes more.0 at more.2)
        ]
      ]

detect_from-Ends :
    (rounds : ℕ) (reads : ℕ → Read) (i : ℕ) (initial_data : Bytes)
    → Begins initial_data preface
    → length initial_data < preface_size
    → preface_size < rounds + length initial_data
    → Ends reads i initial_data (detect_from rounds reads i initial_data)
unfolding detect_from
detect_from-Ends zero reads i initial_data begins short fuel = absurd (omega (arith, short, fuel))
detect_from-Ends (suc rounds) reads i initial_data begins short fuel =
    rw (lt→ltb (length initial_data) preface_size short) (
      go (reads i) refl (λ b bytes begun h.
        detect_from-Ends rounds reads (suc i) (initial_data ++ (b ∷ bytes)) begun h
          (omega (arith, fuel, length-append initial_data (b ∷ bytes)))))
  where
    go :
        (read : Read)
        → reads i ≡ read
        → ((b : ℕ) (bytes : Bytes)
            → Begins (initial_data ++ (b ∷ bytes)) preface
            → length (initial_data ++ (b ∷ bytes)) < preface_size
            → Ends reads
                (suc i)
                (initial_data ++ (b ∷ bytes))
                (detect_from rounds reads (suc i) (initial_data ++ (b ∷ bytes))))
        → Ends reads i initial_data (elim read [
          | failed e ↦ some (error e)
          | data_read [] ↦ some (detected http1 initial_data)
          | data_read (b ∷ bytes) ↦
              classify
                (initial_data ++ (b ∷ bytes))
                (detect_from rounds reads (suc i) (initial_data ++ (b ∷ bytes)))
        ])
    go (failed e) at later =
        (error e, refl, (0, ap reads (omega arith) ∙ at, ((begins, short), tt)))
    go (data_read []) at later = (
      detected http1 initial_data,
      refl,
      (
        0,
        sym (append-nil initial_data),
        (short_lem initial_data short, inr (ap reads (omega arith) ∙ at)),
        tt,
      ),
    )
    go (data_read (b ∷ bytes)) at later =
        classify-Ends reads i initial_data begins short (b ∷ bytes)
          (detect_from rounds reads (suc i) (initial_data ++ (b ∷ bytes))) at (later b bytes)

-- Detection ends, whatever the reads give, and reads on only while the bytes so far are a proper
-- beginning of the preface. Its outcome is the error of a read, or the bytes of the reads so far, in
-- order, with the protocol: HTTP/2 if they begin with the preface; HTTP/1 if they do not, and either they
-- are no beginning of the preface or the next read is the end of the stream.
pub detect_protocol-IsDetected :
    (reads : ℕ → Read) → (o : Outcome) × (detect_protocol reads ≡ some o) × IsDetected reads 0 [] o
unfolding detect_protocol
detect_protocol-IsDetected reads =
    detect_from-Ends (suc preface_size) reads 0 [] (preface, refl) (omega arith) (omega arith)
