-- ===== src/Config.antt =====
-- internal/config/config.go: `ParseAllowedPorts`. The text is ASCII: the other blanks that
-- `strings.TrimSpace` drops are not modelled.
pub mod Written
pub mod Allowed
pub mod Profile
pub mod Level
use tunel.Prelude.{
  ℕ, ◌+◌, ◌-◌, ◌*◌, ◌≡◌, Bool, true, false, List, [], ◌∷◌, ◌++◌, Str, Option, none, some,
  if◌then◌else◌, ltb, leb, ◌==◌, ◌||◌, ◌&&◌,
}

-- `strings.Split(s, ",")`.
unfoldable pub split_commas : Str → List Str
split_commas [] = [] ∷ []
split_commas (c ∷ s) =
    let parts = split_commas s in
    if c == b','
    then [] ∷ parts
    else elim parts [ [] ↦ (c ∷ []) ∷ [] | part ∷ rest ↦ (c ∷ part) ∷ rest ]

abbrev is_blank : ℕ → Bool
is_blank c = c == 32 || (leb 9 c && leb c 13)

unfoldable pub trim_left : Str → Str
trim_left [] = []
trim_left (c ∷ s) = let rest = trim_left s in if is_blank c then rest else c ∷ s

unfoldable pub trim_right : Str → Str
trim_right [] = []
trim_right (c ∷ s) =
    let rest = trim_right s in
    elim rest [ [] ↦ if is_blank c then [] else c ∷ [] | d ∷ t ↦ c ∷ (d ∷ t) ]

unfoldable pub trim_space : Str → Str
trim_space s = trim_left (trim_right s)

-- The digits at the front, after `acc`; what follows them is not looked at.
unfoldable pub digits_value : ℕ → Str → ℕ
digits_value acc [] = acc
digits_value acc (c ∷ s) =
    let rest = digits_value (acc * 10 + (c - b'0')) s in
    if leb b'0' c && leb c b'9' then rest else acc

abbrev unsigned : Str → Option ℕ
unsigned [] = none
unsigned (c ∷ s) = if leb b'0' c && leb c b'9' then some (digits_value 0 (c ∷ s)) else none

-- `fmt.Sscanf(part, "%d", &n)` as far as a positive number comes of it: a text too long for an int is
-- an error there, and out of range here.
unfoldable pub scan_positive : Str → Option ℕ
scan_positive [] = none
scan_positive (c ∷ s) = if c == b'+' then unsigned s else unsigned (c ∷ s)

-- The port that a part of the list stands for.
unfoldable pub part_port : Str → Option ℕ
part_port part = elim (scan_positive (trim_space part)) [
  | none ↦ none
  | some n ↦ if ltb 0 n && leb n 65535 then some n else none
]

unfoldable pub ports_of : List Str → List ℕ
ports_of [] = []
ports_of (part ∷ parts) = elim (part_port part) [
  | none ↦ ports_of parts
  | some n ↦ n ∷ ports_of parts
]

-- The keys of the set.
unfoldable pub parse_allowed_ports : Str → List ℕ
parse_allowed_ports [] = []
parse_allowed_ports (c ∷ s) = ports_of (split_commas (c ∷ s))
