-- ===== src/Http/Ascii.antt =====
-- The text helpers of include/faio/detail/http/v1/server_session_v1.hpp, and decimal numbers as
-- `std::to_string` writes them. Case is that of the C locale.
pub mod Laws
use faio.Base.{
  ℕ, zero, suc, ◌+◌, ◌/◌, ◌%◌, Bool, true, false, not, ◌&&◌, ◌||◌, List, [], ◌∷◌, ◌++◌, map,
  if◌then◌else◌, ◌==◌, ltb, leb, length,
}
use faio.Http.Text.{Bytes}

abbrev pub tolower : ℕ → ℕ
tolower c = if leb b'A' c && leb c b'Z' then c + 32 else c

abbrev pub lower_ascii : Bytes → Bytes
lower_ascii [] = []
lower_ascii (c ∷ s) = tolower c ∷ lower_ascii s

abbrev pub not_space : ℕ → Bool
not_space c = not ((c == b' ') || (c == 9) || (c == 13) || (c == 10))

abbrev pub trim_start : Bytes → Bytes
trim_start [] = []
trim_start (c ∷ s) = let rest = trim_start s in if not_space c then c ∷ s else rest

abbrev pub keep_end : ℕ → Bytes → Bytes
keep_end c [] = if not_space c then c ∷ [] else []
keep_end c (d ∷ s) = c ∷ d ∷ s

abbrev pub trim_end : Bytes → Bytes
trim_end [] = []
trim_end (c ∷ s) = keep_end c (trim_end s)

-- `trim_inplace`, from the first byte that is no space to the last.
abbrev pub trim_copy : Bytes → Bytes
trim_copy s = trim_end (trim_start s)

abbrev pub all_equal : Bytes → Bytes → Bool
all_equal [] rhs = true
all_equal (a ∷ lhs) [] = true
all_equal (a ∷ lhs) (b ∷ rhs) =
    let rest = all_equal lhs rhs in if tolower a == tolower b then rest else false

-- `iequals_ascii`.
abbrev pub iequals_ascii : Bytes → Bytes → Bool
iequals_ascii lhs rhs = if length lhs == length rhs then all_equal lhs rhs else false

-- A round for each digit.
abbrev pub decimal_from : ℕ → ℕ → Bytes
decimal_from zero n = []
decimal_from (suc rounds) n =
    let rest = decimal_from rounds (n / 10) in
    if ltb n 10 then (b'0' + n) ∷ [] else rest ++ ((b'0' + n % 10) ∷ [])

abbrev pub to_string : ℕ → Bytes
to_string n = decimal_from (suc n) n
