-- ===== src/Client/Flag.antt =====
-- `parseTunnelFlag` of cmd/tunelc/cli_impl.go.
pub mod RoundTrip
use tunel.Prelude.{
  ℕ, zero, suc, ◌+◌, ◌-◌, ◌^◌, ◌≤◌, ◌<◌, Bool, true, false, List, [], ◌∷◌, ◌++◌, Str, ℤ, pos,
  negsuc, Option, none, some, codes, if◌then◌else◌, str_eq, ltb, leb, ◌==◌, value_onto,
}
use tunel.Client.Spec.{TunnelSpec}

pub data Parsed : Type 0 where
  parsed : TunnelSpec → Parsed
  failed : Str → Parsed

-- The text before and behind the first colon.
unfoldable pub cut : Str → Option (Str × Str)
cut [] = none
cut (c ∷ s) =
    let rest = cut s in
    if c == b':'
    then some ([], s)
    else elim rest [ none ↦ none | some parts ↦ some (c ∷ parts.0, parts.1) ]

-- `strings.SplitN(s, ":", 3)`.
unfoldable pub split3 : Str → List Str
unfolding cut
split3 s = elim (cut s) [
  | none ↦ s ∷ []
  | some parts ↦ elim (cut parts.1) [
    | none ↦ parts.0 ∷ parts.1 ∷ []
    | some parts' ↦ parts.0 ∷ parts'.0 ∷ parts'.1 ∷ []
  ]
]

abbrev positive : ℕ → Option ℤ
positive n = if ltb n (2 ^ 63) then some (pos n) else none

abbrev negative : ℕ → Option ℤ
negative n = elim n [
  | zero ↦ some (pos 0)
  | suc m ↦ if ltb m (2 ^ 63) then some (negsuc m) else none
]

-- Decimal digits, at least one.
abbrev natural : Str → Option ℕ
natural s = elim s [ [] ↦ none | c ∷ rest ↦ value_onto 0 (c ∷ rest) ]

abbrev signed : (ℕ → Option ℤ) → Str → Option ℤ
signed sign s = elim (natural s) [ none ↦ none | some n ↦ sign n ]

-- `strconv.Atoi` on a machine of 64 bits.
unfoldable pub atoi : Str → Option ℤ
atoi [] = none
atoi (c ∷ s) =
    if c == b'-'
    then signed negative s
    else if c == b'+'
    then signed positive s
    else signed positive (c ∷ s)

abbrev pub invalid_port : Str → Parsed
invalid_port text = failed (codes "invalid public_port: " ++ text)

abbrev pub spec : Str → Str → ℤ → Str → TunnelSpec
spec name proto port target = record {
  name = name;
  proto = proto;
  public_port = port;
  local_target = target;
}

abbrev pub with_port : Str → Str → Str → Str → Parsed
with_port name proto text target = elim (atoi text) [
  | none ↦ invalid_port text
  | some port ↦ parsed (spec name proto port target)
]

-- The switch over the number of parts.
unfoldable pub parse_parts : Str → List Str → Parsed
parse_parts name (proto ∷ port ∷ target ∷ []) =
    with_port name (if str_eq proto [] then codes "tcp" else proto) port target
parse_parts name (port ∷ target ∷ []) = with_port name (codes "tcp") port target
parse_parts name parts = failed (codes "expected [proto:]local:remote")

unfoldable pub parse_tunnel_flag : Str → Parsed
parse_tunnel_flag [] = parse_parts [] (split3 [])
parse_tunnel_flag (c ∷ s) =
    if c == b'@'
    then elim (cut s) [
      | none ↦ failed (codes "missing ':' after @name")
      | some parts ↦ parse_parts parts.0 (split3 parts.1)
    ]
    else parse_parts [] (split3 (c ∷ s))
