-- ===== src/Server/Control/Authorise.antt =====
-- Which first frames are let through: the checks of `handleControl` of internal/server/connection.go.
use tunel.Prelude.{
  ℕ, ◌≤◌, ◌≡◌, ◌↔◌, ◌⊎◌, inl, inr, refl, true, false, List, [], ◌∷◌, Str, pos, none, some, arith,
  string_eq, str_eq, str_eq_iff, ◌==◌, ==_iff, Bool-cases, Option-cases, ap,
}
use mathlib.Core.List.{Memᴰ}
use tunel.Protocol.Messages.{Auth, msg_auth}
use tunel.Server.Tunnels.{tcp_name, udp_name}
use tunel.Server.Control.{
  Config, Opening, unreadable, envelope, open_tunnel, vpn_name, has_port, port_allowed, valid_proto,
  check_port, check_auth, check_opening,
}

has_port→Mem : (port : ℕ) (ports : List ℕ) → has_port port ports ≡ true → Memᴰ port ports
unfolding has_port
has_port→Mem port [] e = cc
has_port→Mem port (p ∷ ports) e = elim (Bool-cases (p == port)) [
  | inl hit ↦ Memᴰ.head (ground (arith, ==_iff p port))
  | inr miss ↦ Memᴰ.tail (has_port→Mem port ports (ground arith))
]

Mem→has_port : (port : ℕ) (ports : List ℕ) → Memᴰ port ports → has_port port ports ≡ true
unfolding has_port
Mem→has_port port [] h = elim h [ ]
Mem→has_port port (p ∷ ports) (Memᴰ.head e) = ground (arith, ==_iff p port)
Mem→has_port port (p ∷ ports) (Memᴰ.tail h) = ground (arith, Mem→has_port port ports h)

List-cases {ℓ} :
    {A : Type ℓ} (xs : List A) → (xs ≡ []) ⊎ ((x : A) × (rest : List A) × (xs ≡ x ∷ rest))
List-cases [] = inl refl
List-cases (x ∷ rest) = inr (x, rest, refl)

-- The port is on the server's list, or the server has no list.
abbrev pub IsOpenTo : Config → ℕ → Type 0
IsOpenTo cfg port = (cfg.allowed_ports ≡ []) ⊎ Memᴰ port cfg.allowed_ports

port_allowed→IsOpenTo : (cfg : Config) (port : ℕ) → port_allowed cfg port ≡ true → IsOpenTo cfg port
unfolding port_allowed
port_allowed→IsOpenTo cfg port e = elim (List-cases cfg.allowed_ports) [
  | inl bare ↦ inl bare
  | inr (p, ports, more) ↦ inr (has_port→Mem port cfg.allowed_ports (ground (arith)))
]

IsOpenTo→port_allowed : (cfg : Config) (port : ℕ) → IsOpenTo cfg port → port_allowed cfg port ≡ true
unfolding port_allowed
IsOpenTo→port_allowed cfg port (inl bare) = ground arith
IsOpenTo→port_allowed cfg port (inr h) = elim (List-cases cfg.allowed_ports) [
  | inl bare ↦ ground arith
  | inr (p, ports, more) ↦ ground (arith, Mem→has_port port cfg.allowed_ports h)
]

-- The transport that is granted for the one that is asked for.
abbrev pub Serves : Str → Str → Type 0
Serves asked proto =
    ((proto ≡ tcp_name) × ((asked ≡ []) ⊎ (asked ≡ tcp_name)))
    ⊎ ((proto ≡ udp_name) × (asked ≡ udp_name))

-- What a client must show to be given a tunnel.
abbrev pub IsAuthorised : Config → Opening → Str → ℕ → Auth → Type 0
IsAuthorised cfg opening proto port a =
    (opening ≡ envelope msg_auth (some a))
    × (a.token ≡ cfg.token)
    × Serves a.proto proto
    × (a.public_port ≡ pos port)
    × (1 ≤ port)
    × (port ≤ 65535)
    × IsOpenTo cfg port

check_port→ :
    (cfg : Config) (proto proto' : Str) (port : ℕ) (a a' : Auth)
    → check_port cfg proto a ≡ open_tunnel proto' port a'
    → (proto ≡ proto')
      × (a ≡ a')
      × (a.public_port ≡ pos port)
      × (1 ≤ port)
      × (port ≤ 65535)
      × (port_allowed cfg port ≡ true)
unfolding check_port
check_port→ cfg proto proto' port a a' e = ground arith

check_port← :
    (cfg : Config) (proto : Str) (port : ℕ) (a : Auth)
    → (a.public_port ≡ pos port)
    → (1 ≤ port)
    → (port ≤ 65535)
    → (port_allowed cfg port ≡ true)
    → check_port cfg proto a ≡ open_tunnel proto port a
unfolding check_port
check_port← cfg proto port a e low high allowed = ground arith

valid_proto-Serves :
    (asked proto : Str)
    → ((valid_proto asked ≡ some proto) × (str_eq proto vpn_name ≡ false)) ↔ Serves asked proto
unfolding valid_proto
valid_proto-Serves asked proto = ground (
  arith,
  str_eq_iff asked [],
  str_eq_iff asked tcp_name,
  str_eq_iff asked udp_name,
  str_eq_iff asked vpn_name,
  str_eq_iff proto vpn_name,
  str_eq_iff vpn_name vpn_name,
)

check_auth→ :
    (cfg : Config) (a a' : Auth) (proto : Str) (port : ℕ)
    → check_auth cfg a ≡ open_tunnel proto port a'
    → IsAuthorised cfg (envelope msg_auth (some a)) proto port a'
unfolding check_auth
check_auth→ cfg a a' proto port e = elim (Option-cases (valid_proto a.proto)) [
  | inl bad ↦ ground arith
  | inr (p, valid) ↦
      let (token, not_vpn, checked) : (str_eq a.token cfg.token ≡ true)
          × (str_eq p vpn_name ≡ false)
          × (check_port cfg p a ≡ open_tunnel proto port a') =
        ground arith in
      let (same_proto, same, at, low, high, allowed) = check_port→ cfg p proto port a a' checked in
      (
        ap (λ x. envelope msg_auth (some x)) same,
        rw (← same) ((str_eq_iff a.token cfg.token).0 token),
        rw (← same, ← same_proto) ((valid_proto-Serves a.proto p).0 (valid, not_vpn)),
        rw (← same) at,
        low,
        high,
        port_allowed→IsOpenTo cfg port allowed,
      )
]

check_auth← :
    (cfg : Config) (a : Auth) (proto : Str) (port : ℕ)
    → IsAuthorised cfg (envelope msg_auth (some a)) proto port a
    → check_auth cfg a ≡ open_tunnel proto port a
unfolding check_auth
check_auth← cfg a proto port (opened, token, serves, at, low, high, allowed) =
    let (valid, not_vpn) = (valid_proto-Serves a.proto proto).1 serves in
    ground (
      arith,
      str_eq_iff a.token cfg.token,
      check_port← cfg proto port a at low high (IsOpenTo→port_allowed cfg port allowed),
    )

-- The first frame leads to a TCP or UDP tunnel exactly if it is an `auth` frame that can be read, with
-- the server's token, a transport that is TCP (or left out) or UDP, and a port from 1 to 65535 that the
-- server's list has, if it has a list.
pub check_opening_iff :
    (cfg : Config) (opening : Opening) (proto : Str) (port : ℕ) (a : Auth)
    → (check_opening cfg opening ≡ open_tunnel proto port a) ↔ IsAuthorised cfg opening proto port a
unfolding check_opening
check_opening_iff cfg unreadable proto port a = ((λ e. cc), λ h. absurd (cc (h.0)))
check_opening_iff cfg (envelope msg_auth none) proto port a = ((λ e. cc), λ h. absurd (cc (h.0)))
check_opening_iff cfg (envelope msg_auth (some b)) proto port a = (
  check_auth→ cfg b a proto port,
  λ h.
      let same : b ≡ a = cc (h.0) in
      rw same (check_auth← cfg a proto port (refl, h.1, h.2, h.3, h.4, h.5, h.6)),
)
check_opening_iff cfg (envelope type payload) proto port a = ((λ e. cc), λ h. absurd (cc (h.0)))
