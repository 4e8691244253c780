-- ===== src/Client/Cli.antt =====
-- The command line of tunelc behind its flags: `maybeFillFromProfile`, `maybeFillFromProfileVPN` and the
-- part of `runCLI` that puts a configuration together, in cmd/tunelc/cli_impl.go. The flag package is
-- given as the values of the flags.
pub mod Filled
use tunel.Prelude.{
  Bool, true, false, List, [], ◌∷◌, ◌++◌, Str, ℤ, pos, negsuc, ℕ, zero, suc, Option, none, some,
  codes, if◌then◌else◌, str_eq, not, ◌&&◌, ◌||◌,
}
use tunel.Config.Profile.{TunnelEntry, Profile, File, Unmarshal, load_profile}
use tunel.Client.Spec.{TunnelSpec, Config, ConfigError, check_config}
use tunel.Client.Flag.{Parsed, parsed, failed, parse_tunnel_flag}

abbrev pub or_else : Str → Str → Str
or_else flag saved = if str_eq flag [] then saved else flag

-- A tunnel of the profile as the client's.
abbrev pub spec_of : TunnelEntry → TunnelSpec
spec_of t = record {
  proto = t.proto;
  public_port = t.public_port;
  local_target = t.local_target;
  name = t.name;
}

abbrev pub specs_of : List TunnelEntry → List TunnelSpec
specs_of [] = []
specs_of (t ∷ rest) = spec_of t ∷ specs_of rest

-- What `maybeFillFromProfileVPN` does with a profile that was loaded.
unfoldable pub fill_shared : Profile → Config → Config
fill_shared p cfg = record cfg {
  server = or_else cfg.server p.server;
  token = or_else cfg.token p.token;
  ca_cert = or_else cfg.ca_cert p.ca_cert;
  insecure = if not cfg.insecure then p.insecure else cfg.insecure;
}

unfoldable pub fill_tunnels : Profile → Config → Config
fill_tunnels p cfg = record cfg {
  tunnels = elim cfg.tunnels [ [] ↦ specs_of p.tunnels | t ∷ rest ↦ t ∷ rest ];
}

-- Both functions: a profile that cannot be loaded changes nothing, and is an error.
unfoldable pub maybe_fill_from_profile_vpn : Unmarshal → File → Config → Config × Bool
maybe_fill_from_profile_vpn unmarshal file cfg =
    let (p, loaded) = load_profile unmarshal file in
    if loaded then (fill_shared p cfg, true) else (cfg, false)

unfoldable pub maybe_fill_from_profile : Unmarshal → File → Config → Config × Bool
maybe_fill_from_profile unmarshal file cfg =
    let (p, loaded) = load_profile unmarshal file in
    if loaded then (fill_tunnels p (fill_shared p cfg), true) else (cfg, false)

-- The values of the flags.
pub record Flags : Type 0 where
  pub server : Str
  pub token : Str
  pub tls : Bool
  pub ca_cert : Str
  pub insecure : Bool
  pub max_attempts : ℤ
  pub tunnels : List Str
  pub remote : ℤ
  pub local : Str

-- The loop over the `--tunnel` values: `none` at the first that cannot be read.
unfoldable pub parse_all : List Str → Option (List TunnelSpec)
parse_all [] = some []
parse_all (v ∷ rest) =
    let later = parse_all rest in
    elim (parse_tunnel_flag v) [
      | failed e ↦ none
      | parsed t ↦ elim later [ none ↦ none | some ts ↦ some (t ∷ ts) ]
    ]

is_zero : ℤ → Bool
is_zero (pos zero) = true
is_zero n = false

-- The tunnel of `--remote` and `--local`.
unfoldable pub legacy : ℤ → Str → List TunnelSpec
unfolding is_zero
legacy remote local =
    if not (is_zero remote) && not (str_eq local [])
    then record { proto = codes "tcp"; public_port = remote; local_target = local; name = [] } ∷ []
    else []

abbrev pub flag_config : Flags → List TunnelSpec → Config
flag_config f specs = record {
  server = f.server;
  token = f.token;
  tunnels = specs;
  ca_cert = f.ca_cert;
  insecure = f.insecure;
  tls = f.tls;
  max_attempts = f.max_attempts;
}

-- How `runCLI` without `--vpn` comes to a client.
pub data Init : Type 0 where
  bad_flag : Init
  bad_config : ConfigError → Init
  ready : Config → Init

-- The error of the profile is only logged.
unfoldable pub init_client : Unmarshal → File → Flags → Init
init_client unmarshal file f = elim (parse_all f.tunnels) [
  | none ↦ bad_flag
  | some ts ↦
      let (cfg, filled) =
        maybe_fill_from_profile unmarshal file (flag_config f (ts ++ legacy f.remote f.local)) in
      elim (check_config cfg) [ some e ↦ bad_config e | none ↦ ready cfg ]
]

-- The two pairs of keys that `runCLI` with `--vpn` wants in the profile. A pair of which a half is missing
-- is generated; `none` if that fails.
unfoldable pub ensure_identity : Option (Str × Str) → Profile → Option Profile
ensure_identity generated p =
    if str_eq p.identity_key [] || str_eq p.private_key []
    then elim generated [
      | none ↦ none
      | some keys ↦ some (record p { identity_key = keys.0; private_key = keys.1 })
    ]
    else some p

unfoldable pub ensure_ed_keys : Option (Str × Str) → Profile → Option Profile
ensure_ed_keys generated p =
    if str_eq p.ed_pubkey [] || str_eq p.ed_privkey []
    then elim generated [
      | none ↦ none
      | some keys ↦ some (record p { ed_pubkey = keys.0; ed_privkey = keys.1 })
    ]
    else some p

-- `runCLI` with `--vpn`, up to its client: there are no tunnels.
unfoldable pub init_vpn_client : Unmarshal → File → Flags → Init
init_vpn_client unmarshal file f =
    let (cfg, filled) = maybe_fill_from_profile_vpn unmarshal file (flag_config f []) in
    elim (check_config cfg) [ some e ↦ bad_config e | none ↦ ready cfg ]
