-- ===== src/Client/Spec/Checks.antt =====
-- What a client that `New` of internal/client/client.go accepts has.
use tunel.Prelude.{
  ℕ, suc, ◌≤◌, ◌≡◌, ◌≢◌, ◌↔◌, refl, true, List, [], ◌∷◌, Str, ℤ, pos, negsuc, none, codes, arith,
  str_eq_iff, All, ◌⊎◌,
}
use tunel.Client.Spec.{Config, TunnelSpec, is_port, known_proto, check_tunnels, check_config}

-- What a tunnel must have.
abbrev pub IsUsable : TunnelSpec → Type 0
IsUsable t =
    ((port : ℕ) × (t.public_port ≡ pos port) × (1 ≤ port) × (port ≤ 65535))
    × (t.local_target ≢ [])
    × ((t.proto ≡ codes "tcp") ⊎ ((t.proto ≡ codes "udp") ⊎ (t.proto ≡ [])))

is_port_iff :
    (p : ℤ) → (is_port p ≡ true) ↔ ((port : ℕ) × (p ≡ pos port) × (1 ≤ port) × (port ≤ 65535))
unfolding is_port
is_port_iff (negsuc n) = ((λ e. cc), λ (port, e, low, high). cc)
is_port_iff (pos n) = (
  (λ e. (n, refl, ground arith, ground arith)),
  λ (port, e, low, high). let same : n ≡ port = cc in rw same (ground arith),
)

known_proto_iff :
    (proto : Str)
    → (known_proto proto ≡ true) ↔ ((proto ≡ codes "tcp") ⊎ ((proto ≡ codes "udp") ⊎ (proto ≡ [])))
unfolding known_proto
known_proto_iff proto =
    ground
      (arith, str_eq_iff proto (codes "tcp"), str_eq_iff proto (codes "udp"), str_eq_iff proto [])

check_tunnels_iff :
    (i : ℕ) (tunnels : List TunnelSpec) → (check_tunnels i tunnels ≡ none) ↔ All IsUsable tunnels
unfolding check_tunnels
check_tunnels_iff i [] = ((λ _. tt), λ _. refl)
check_tunnels_iff i (t ∷ rest) = ground (
  arith,
  is_port_iff t.public_port,
  known_proto_iff t.proto,
  str_eq_iff t.local_target [],
  check_tunnels_iff (suc i) rest,
)

abbrev pub IsAcceptable : Config → Type 0
IsAcceptable cfg =
    (cfg.server ≢ [])
    × (cfg.token ≢ [])
    × All IsUsable cfg.tunnels
    × (cfg.tls ≡ true → (cfg.insecure ≡ true) ⊎ (cfg.ca_cert ≢ []))

-- `New` accepts a configuration exactly if it names a server and a token, every tunnel has a port from
-- 1 to 65535, a local target and TCP, UDP or no transport, and with TLS it has a certificate or does
-- not check it.
pub check_config_iff : (cfg : Config) → (check_config cfg ≡ none) ↔ IsAcceptable cfg
unfolding check_config
check_config_iff cfg = ground (
  arith,
  str_eq_iff cfg.server [],
  str_eq_iff cfg.token [],
  str_eq_iff cfg.ca_cert [],
  check_tunnels_iff 0 cfg.tunnels,
)
