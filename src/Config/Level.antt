-- ===== src/Config/Level.antt =====
-- The log level of internal/config/config.go: `Set`, `String` and the switch of `NewLogger`.
use tunel.Prelude.{
  ℕ, ◌+◌, ◌≡◌, Bool, [], ◌∷◌, Str, Option, none, some, arith, codes, if◌then◌else◌, str_eq,
  str_eq_iff, leb, ◌&&◌, ◌||◌,
}

-- `strings.ToLower` of ASCII text.
abbrev pub lower : ℕ → ℕ
lower c = if leb b'A' c && leb c b'Z' then c + 32 else c

unfoldable pub to_lower : Str → Str
to_lower [] = []
to_lower (c ∷ s) = lower c ∷ to_lower s

abbrev pub is_level : Str → Bool
is_level s =
    str_eq s (codes "debug")
    || (str_eq s (codes "info") || (str_eq s (codes "warn") || str_eq s (codes "error")))

-- `Set`: the new level, or `none` for its error, which leaves the old one.
unfoldable pub set_level : Str → Option Str
set_level s = if is_level (to_lower s) then some (to_lower s) else none

pub data Level : Type 0 where
  debug info warn error : Level

-- The level of the logger that `NewLogger` makes.
unfoldable pub logger_level : Str → Level
logger_level s =
    if str_eq s (codes "debug")
    then debug
    else if str_eq s (codes "warn")
    then warn
    else if str_eq s (codes "error")
    then error
    else info

-- The name of a level.
abbrev pub level_name : Level → Str
level_name debug = codes "debug"
level_name info = codes "info"
level_name warn = codes "warn"
level_name error = codes "error"

-- A text that `Set` accepts is, in lower case, the name of the level that the logger then has.
pub logger_level-set_level :
    (s level : Str)
    → set_level s ≡ some level
    → (level ≡ to_lower s) × (level_name (logger_level level) ≡ level)
unfolding set_level logger_level
logger_level-set_level s level e = (
  ground arith,
  let same : to_lower s ≡ level = ground arith in
      rw (← same) (
        ground (
          arith,
          str_eq_iff (to_lower s) (codes "debug"),
          str_eq_iff (to_lower s) (codes "info"),
          str_eq_iff (to_lower s) (codes "warn"),
          str_eq_iff (to_lower s) (codes "error"),
        )),
)
