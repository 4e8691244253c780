-- ===== src/Client/Spec.antt =====
-- `TunnelSpec`, and the checks of `New` and `validateTunnels` in internal/client/client.go.
pub mod Checks
use tunel.Prelude.{
  ℕ, zero, suc, ◌+◌, ◌<◌, Bool, true, false, List, [], ◌∷◌, ◌++◌, Str, ℤ, pos, negsuc, Option, none,
  some, codes, if◌then◌else◌, str_eq, ltb, ◌||◌, ◌&&◌, ◌==◌, not, decimal,
}

pub record TunnelSpec : Type 0 where
  pub proto : Str
  pub public_port : ℤ
  pub local_target : Str
  pub name : Str

-- The part of `client.Config` that `New` checks and `Run` uses.
pub record Config : Type 0 where
  pub server : Str
  pub token : Str
  pub tunnels : List TunnelSpec
  pub ca_cert : Str
  pub insecure : Bool
  pub tls : Bool
  pub max_attempts : ℤ

-- The errors of `New`, with the index of the tunnel that they name.
pub data ConfigError : Type 0 where
  no_server no_token no_cacert : ConfigError
  invalid_port no_local unsupported_proto : ℕ → ConfigError

unfoldable pub is_port : ℤ → Bool
is_port (negsuc n) = false
is_port (pos n) = not (n == 0 || ltb 65535 n)

unfoldable pub known_proto : Str → Bool
known_proto proto = str_eq proto (codes "tcp") || (str_eq proto (codes "udp") || str_eq proto [])

-- The loop over the tunnels, from index `i`: `none` if it ends.
unfoldable pub check_tunnels : ℕ → List TunnelSpec → Option ConfigError
check_tunnels i [] = none
check_tunnels i (t ∷ rest) =
    let later = check_tunnels (suc i) rest in
    if not (is_port t.public_port)
    then some (invalid_port i)
    else if str_eq t.local_target []
    then some (no_local i)
    else if not (known_proto t.proto)
    then some (unsupported_proto i)
    else later

-- The error of `New`, if it has one.
unfoldable pub check_config : Config → Option ConfigError
check_config cfg =
    if str_eq cfg.server []
    then some no_server
    else if str_eq cfg.token []
    then some no_token
    else elim (check_tunnels 0 cfg.tunnels) [
      | some e ↦ some e
      | none ↦
          if cfg.tls && (not cfg.insecure && str_eq cfg.ca_cert []) then some no_cacert else none
    ]

-- `validateTunnels`: true if there is no error.
abbrev pub validate_tunnels : Config → Bool
validate_tunnels cfg = elim cfg.tunnels [ [] ↦ false | t ∷ rest ↦ true ]
