-- ===== src/Client/Cli/Filled.antt =====
-- The configuration that the flags and the profile of tunelc come to: cmd/tunelc/cli_impl.go.
use tunel.Prelude.{
  ℕ, ◌≤◌, ◌≡◌, ◌≢◌, ◌⊎◌, inl, inr, refl, true, false, List, [], ◌∷◌, Str, pos, some, none, arith,
  str_eq_iff, ◌||◌, All, append-nil, Bool-cases,
}
use tunel.Config.Profile.{Profile, File, Unmarshal, load_profile}
use tunel.Client.Spec.{TunnelSpec, Config, check_config}
use tunel.Client.Spec.Checks.{IsUsable, check_config_iff}
use tunel.Client.Flag.{spec}
use tunel.Client.Flag.RoundTrip.{NoColon, IsTransport, flag_text, parse_tunnel_flag-flag_text}
use tunel.Client.Cli.{
  specs_of, fill_shared, fill_tunnels, maybe_fill_from_profile, maybe_fill_from_profile_vpn, Flags,
  parse_all, legacy, flag_config, ready, init_client, init_vpn_client,
}

-- A text that is set is kept, and one that is not is taken from the profile.
abbrev pub IsChosen : Str → Str → Str → Type 0
IsChosen flag saved result = (flag ≢ [] → result ≡ flag) × (flag ≡ [] → result ≡ saved)

-- What is filled in.
abbrev pub IsFilled : Profile → Config → Config → Type 0
IsFilled p cfg cfg' =
    IsChosen cfg.server p.server cfg'.server
    × IsChosen cfg.token p.token cfg'.token
    × IsChosen cfg.ca_cert p.ca_cert cfg'.ca_cert
    × (cfg'.insecure ≡ (cfg.insecure || p.insecure))
    × (cfg.tunnels ≢ [] → cfg'.tunnels ≡ cfg.tunnels)
    × (cfg.tunnels ≡ [] → cfg'.tunnels ≡ specs_of p.tunnels)
    × (cfg'.tls ≡ cfg.tls)
    × (cfg'.max_attempts ≡ cfg.max_attempts)

fill_tunnels-IsFilled :
    (p : Profile) (cfg : Config) → IsFilled p cfg (fill_tunnels p (fill_shared p cfg))
unfolding fill_tunnels fill_shared
fill_tunnels-IsFilled p cfg = (
  (
    (λ set. ground (arith, str_eq_iff cfg.server [])),
    λ unset. ground (arith, str_eq_iff cfg.server []),
  ),
  (
    (λ set. ground (arith, str_eq_iff cfg.token [])),
    λ unset. ground (arith, str_eq_iff cfg.token []),
  ),
  (
    (λ set. ground (arith, str_eq_iff cfg.ca_cert [])),
    λ unset. ground (arith, str_eq_iff cfg.ca_cert []),
  ),
  ground arith,
  kept cfg.tunnels,
  (λ unset. rw unset refl),
  refl,
  refl,
)
  where
    kept :
        (ts : List TunnelSpec)
        → ts ≢ []
        → elim ts as (λ _. List TunnelSpec) [ [] ↦ specs_of p.tunnels | t ∷ rest ↦ t ∷ rest ] ≡ ts
    kept [] full = absurd (full refl)
    kept (t ∷ rest) full = refl

-- Every text and the tunnels of the flags are kept where they are set, and taken from the profile where
-- they are not; but `--insecure` holds if either has it, whatever the flag says. A profile that cannot be
-- loaded changes nothing.
pub maybe_fill_from_profile-IsFilled :
    (unmarshal : Unmarshal) (file : File) (cfg : Config)
    → ((load_profile unmarshal file).1 ≡ true
        → IsFilled
            (load_profile unmarshal file).0
            cfg
            (maybe_fill_from_profile unmarshal file cfg).0)
      × ((load_profile unmarshal file).1 ≡ false
          → (maybe_fill_from_profile unmarshal file cfg).0 ≡ cfg)
unfolding maybe_fill_from_profile
maybe_fill_from_profile-IsFilled unmarshal file cfg = (
  (λ loaded. rw loaded (fill_tunnels-IsFilled (load_profile unmarshal file).0 cfg)),
  λ lost. rw lost refl,
)

-- A client that is started with a profile that says so never checks the server's certificate, even if it
-- is started with `--insecure=false`, in both modes.
pub insecure_profile_wins :
    (unmarshal : Unmarshal) (file : File) (f : Flags) (c : Config)
    → (load_profile unmarshal file).1 ≡ true
    → (load_profile unmarshal file).0.insecure ≡ true
    → (init_client unmarshal file f ≡ ready c) ⊎ (init_vpn_client unmarshal file f ≡ ready c)
    → c.insecure ≡ true
unfolding init_client init_vpn_client maybe_fill_from_profile maybe_fill_from_profile_vpn
    fill_tunnels fill_shared
insecure_profile_wins unmarshal file f c loaded saved (inl started) = ground arith
insecure_profile_wins unmarshal file f c loaded saved (inr started) = ground arith

-- A tunnel as it is written in a flag.
pub record Written : Type 0 where
  pub name : Str
  pub proto : Str
  pub port : ℕ
  pub target : Str

abbrev pub IsWellWritten : Written → Type 0
IsWellWritten t =
    NoColon t.name × IsTransport t.proto × (1 ≤ t.port) × (t.port ≤ 65535) × (t.target ≢ [])

abbrev pub texts : List Written → List Str
texts [] = []
texts (t ∷ ts) = flag_text t.name t.proto t.port t.target ∷ texts ts

abbrev pub specs : List Written → List TunnelSpec
specs [] = []
specs (t ∷ ts) = spec t.name t.proto (pos t.port) t.target ∷ specs ts

parse_all-texts :
    (ts : List Written) → All IsWellWritten ts → parse_all (texts ts) ≡ some (specs ts)
unfolding parse_all
parse_all-texts [] all = refl
parse_all-texts (t ∷ ts) ((plain, transport, low, high, full), all) = ground (
  arith,
  parse_tunnel_flag-flag_text t.name t.proto t.port t.target plain transport (omega arith),
  parse_all-texts ts all,
)

specs-IsUsable : (ts : List Written) → All IsWellWritten ts → All IsUsable (specs ts)
specs-IsUsable [] all = tt
specs-IsUsable (t ∷ ts) ((plain, transport, low, high, full), all) =
    (((t.port, refl, low, high), full, ground arith), specs-IsUsable ts all)

-- What is set of the tunnels, the server and the token, and no TLS.
abbrev IsKept : Config → Config → Type 0
IsKept cfg cfg' =
    (cfg'.server ≡ cfg.server)
    × (cfg'.token ≡ cfg.token)
    × (cfg'.tunnels ≡ cfg.tunnels)
    × (cfg'.tls ≡ cfg.tls)

maybe_fill_keeps :
    (unmarshal : Unmarshal) (file : File) (cfg : Config)
    → cfg.server ≢ []
    → cfg.token ≢ []
    → cfg.tunnels ≢ []
    → IsKept cfg (maybe_fill_from_profile unmarshal file cfg).0
maybe_fill_keeps unmarshal file cfg server token tunnels =
    elim (Bool-cases (load_profile unmarshal file).1) [
      | inl loaded ↦
          let filled = (maybe_fill_from_profile-IsFilled unmarshal file cfg).0 loaded in
          (filled.0.0 server, filled.1.0 token, filled.4 tunnels, filled.6)
      | inr lost ↦
          let same = (maybe_fill_from_profile-IsFilled unmarshal file cfg).1 lost in
          rw same (refl, refl, refl, refl)
    ]

legacy-none : (local : Str) → legacy (pos 0) local ≡ []
unfolding legacy
legacy-none local = refl

-- The tunnels that are written on the command line, with a server and a token and without TLS, lead to a
-- client with just these tunnels, that server and that token, whatever the profile is. Each is TCP or UDP
-- with its transport written, has a port from 1 to 65535 and a target, and no colon in its name; the
-- `--remote` of old is left out.
pub init_client_ready :
    (unmarshal : Unmarshal) (file : File) (f : Flags) (t : Written) (ts : List Written)
    → f.tunnels ≡ texts (t ∷ ts)
    → All IsWellWritten (t ∷ ts)
    → f.remote ≡ pos 0
    → f.server ≢ []
    → f.token ≢ []
    → f.tls ≡ false
    → (c : Config) × (init_client unmarshal file f ≡ ready c)
      × (c.tunnels ≡ specs (t ∷ ts))
      × (c.server ≡ f.server)
      × (c.token ≡ f.token)
unfolding init_client
init_client_ready unmarshal file f t ts written all old server token plain =
    let cfg : Config = flag_config f (specs (t ∷ ts)) in
    let cfg' : Config = (maybe_fill_from_profile unmarshal file cfg).0 in
    let (server', token', tunnels', tls') =
      maybe_fill_keeps unmarshal file cfg server token (λ e. cc) in
    let none_old : legacy f.remote f.local ≡ [] = rw old (legacy-none f.local) in
    let fine : check_config cfg' ≡ none =
      (check_config_iff cfg').1 (
        rw server' server,
        rw token' token,
        rw tunnels' (specs-IsUsable (t ∷ ts) all),
        λ tls. cc,
      ) in
    (
      cfg',
      ground (
        arith,
        written,
        parse_all-texts (t ∷ ts) all,
        none_old,
        append-nil (specs (t ∷ ts)),
        fine,
      ),
      tunnels',
      server',
      token',
    )
