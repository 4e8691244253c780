-- ===== src/Server/Tunnels/Registry.antt =====
-- What holds of the registry of a connection between the calls of internal/server/connection.go.
use tunel.Prelude.{
  ℕ, suc, ◌+◌, ◌≤◌, ◌<◌, ◌≡◌, true, false, none, some, arith, if◌then◌else◌, nat_eq, ◌==◌, ==_iff,
  Bool-cases, inl, inr, ◌⊎◌, sym, ◌∙◌,
}
use tunel.Prelude.Map.{get}
use tunel.Server.Tunnels.{Tunnel, Owner, tunnel, World}

-- The tunnel at `t` holds the listener of its port.
abbrev pub Listens : World → ℕ → Tunnel → Type 0
Listens w t tun =
    ((tun.tcp_ln ≡ true) × (get tun.public_port w.tcp ≡ some (tunnel t)))
    ⊎ ((tun.udp_ln ≡ true) × (get tun.public_port w.udp ≡ some (tunnel t)))

abbrev pub Live : World → ℕ → ℕ → Type 0
Live w port t =
    (tun : Tunnel) × (get t w.cells ≡ some tun)
    × (tun.public_port ≡ port)
    × (tun.closed ≡ false)
    × (get tun.id w.tunnels ≡ some t)
    × Listens w t tun

abbrev pub Named : World → ℕ → ℕ → Type 0
Named w id t =
    (tun : Tunnel) × (get t w.cells ≡ some tun)
    × (tun.id ≡ id)
    × (get tun.public_port w.ports ≡ some t)

-- A listener of a tunnel belongs to a registered one.
abbrev pub TcpOwned : World → ℕ → ℕ → Type 0
TcpOwned w port t =
    (get port w.ports ≡ some t) × (tun : Tunnel) × (get t w.cells ≡ some tun) × (tun.tcp_ln ≡ true)

abbrev pub UdpOwned : World → ℕ → ℕ → Type 0
UdpOwned w port t =
    (get port w.ports ≡ some t) × (tun : Tunnel) × (get t w.cells ≡ some tun) × (tun.udp_ln ≡ true)

pub record IsValid (w : World) : Type 0 where
  pub unused : (t : ℕ) → w.next_ref ≤ t → get t w.cells ≡ none
  pub live : (port t : ℕ) → get port w.ports ≡ some t → Live w port t
  pub named : (id t : ℕ) → get id w.tunnels ≡ some t → Named w id t
  pub below : (id t : ℕ) → get id w.tunnels ≡ some t → id < w.next_id
  pub tcp_owned : (port t : ℕ) → get port w.tcp ≡ some (tunnel t) → TcpOwned w port t
  pub udp_owned : (port t : ℕ) → get port w.udp ≡ some (tunnel t) → UdpOwned w port t
  pub shut : w.closed ≡ true → (port : ℕ) → get port w.ports ≡ none

-- A registered tunnel, at an address that was not used, with the listener that it has taken.
module _ (w w' : World) (port : ℕ) (granted : Tunnel) (v : IsValid w)
    (new_port : get port w.ports ≡ none) (of_port : granted.public_port ≡ port)
    (of_id : granted.id ≡ w.next_id) (is_live : granted.closed ≡ false)
    (next_id : w'.next_id ≡ w.next_id + 1) (next_ref : w'.next_ref ≡ suc w.next_ref)
    (is_open : w'.closed ≡ false)
    (cell : (t : ℕ) → get t w'.cells ≡ (if w.next_ref == t then some granted else get t w.cells))
    (tunnels : (id : ℕ)
      → get id w'.tunnels ≡ (if w.next_id == id then some w.next_ref else get id w.tunnels))
    (ports : (p : ℕ) → get p w'.ports ≡ (if port == p then some w.next_ref else get p w.ports))
    (keep_tcp : (p : ℕ) (o : Owner) → get p w.tcp ≡ some o → get p w'.tcp ≡ some o)
    (keep_udp : (p : ℕ) (o : Owner) → get p w.udp ≡ some o → get p w'.udp ≡ some o)
    (new_tcp : (p t : ℕ)
      → get p w'.tcp ≡ some (tunnel t)
      → ((p ≡ port) × (t ≡ w.next_ref) × (granted.tcp_ln ≡ true)) ⊎ (get p w.tcp ≡ some (tunnel t)))
    (new_udp : (p t : ℕ)
      → get p w'.udp ≡ some (tunnel t)
      → ((p ≡ port) × (t ≡ w.next_ref) × (granted.udp_ln ≡ true)) ⊎ (get p w.udp ≡ some (tunnel t)))
    (listening : Listens w' w.next_ref granted) where
  old_cell : (t : ℕ) (tun : Tunnel) → get t w.cells ≡ some tun → get t w'.cells ≡ some tun
  old_cell t tun e = ground (arith, cell t, v.unused t)

  extend-Live : (p t : ℕ) → get p w'.ports ≡ some t → Live w' p t
  extend-Live p t e = elim (Bool-cases (port == p)) [
    | inl hit ↦
        let same : w.next_ref ≡ t = ground (arith, ports p) in
        (
          granted,
          ground (arith, cell t),
          of_port ∙ (==_iff port p).0 hit,
          is_live,
          ground (arith, tunnels granted.id, ==_iff w.next_id granted.id),
          rw (← same) listening,
        )
    | inr miss ↦
        let (tun, here, at, live, by_id, listens) = v.live p t (ground (arith, ports p)) in
        (
          tun,
          old_cell t tun here,
          at,
          live,
          ground (arith, tunnels tun.id, ==_iff w.next_id tun.id, v.below tun.id t by_id),
          elim listens [
            | inl (on, held) ↦ inl (on, keep_tcp tun.public_port (tunnel t) held)
            | inr (on, held) ↦ inr (on, keep_udp tun.public_port (tunnel t) held)
          ],
        )
  ]

  extend-Named : (id t : ℕ) → get id w'.tunnels ≡ some t → Named w' id t
  extend-Named id t e = elim (Bool-cases (w.next_id == id)) [
    | inl hit ↦
        let same : w.next_ref ≡ t = ground (arith, tunnels id) in
        (
          granted,
          ground (arith, cell t),
          of_id ∙ (==_iff w.next_id id).0 hit,
          ground (arith, ports granted.public_port, ==_iff port granted.public_port),
        )
    | inr miss ↦
        let (tun, here, named, at) = v.named id t (ground (arith, tunnels id)) in
        (
          tun,
          old_cell t tun here,
          named,
          ground (arith, ports tun.public_port, ==_iff port tun.public_port),
        )
  ]

  extend-TcpOwned : (p t : ℕ) → get p w'.tcp ≡ some (tunnel t) → TcpOwned w' p t
  extend-TcpOwned p t e = elim (new_tcp p t e) [
    | inl (at, same, on) ↦ (
      ground (arith, ports p, ==_iff port p),
      granted,
      ground (arith, cell t, ==_iff w.next_ref t),
      on,
    )
    | inr old ↦
        let (at, tun, here, held) = v.tcp_owned p t old in
        (ground (arith, ports p, ==_iff port p), tun, old_cell t tun here, held)
  ]

  extend-UdpOwned : (p t : ℕ) → get p w'.udp ≡ some (tunnel t) → UdpOwned w' p t
  extend-UdpOwned p t e = elim (new_udp p t e) [
    | inl (at, same, on) ↦ (
      ground (arith, ports p, ==_iff port p),
      granted,
      ground (arith, cell t, ==_iff w.next_ref t),
      on,
    )
    | inr old ↦
        let (at, tun, here, held) = v.udp_owned p t old in
        (ground (arith, ports p, ==_iff port p), tun, old_cell t tun here, held)
  ]

  pub extended-IsValid : IsValid w'
  extended-IsValid = record {
    unused = λ t le. ground (arith, cell t, v.unused t);
    live = extend-Live;
    named = extend-Named;
    below = λ id t e. ground (arith, tunnels id, ==_iff w.next_id id, v.below id t);
    tcp_owned = extend-TcpOwned;
    udp_owned = extend-UdpOwned;
    shut = λ shut. absurd (cc);
  }

-- A tunnel that was made and taken out again: only its record is left.
module _ (w w' : World) (gone : Tunnel) (v : IsValid w) (next_id : w.next_id ≤ w'.next_id)
    (next_ref : w'.next_ref ≡ suc w.next_ref) (same_closed : w'.closed ≡ w.closed)
    (cell : (t : ℕ) → get t w'.cells ≡ (if w.next_ref == t then some gone else get t w.cells))
    (tunnels : (id : ℕ) → get id w'.tunnels ≡ get id w.tunnels)
    (ports : (p : ℕ) → get p w'.ports ≡ get p w.ports) (tcp : (p : ℕ) → get p w'.tcp ≡ get p w.tcp)
    (udp : (p : ℕ) → get p w'.udp ≡ get p w.udp) where
  kept_cell : (t : ℕ) (tun : Tunnel) → get t w.cells ≡ some tun → get t w'.cells ≡ some tun
  kept_cell t tun e = ground (arith, cell t, v.unused t)

  undone-Live : (p t : ℕ) → get p w'.ports ≡ some t → Live w' p t
  undone-Live p t e =
      let (tun, here, at, live, by_id, listens) = v.live p t (sym (ports p) ∙ e) in
      (
        tun,
        kept_cell t tun here,
        at,
        live,
        tunnels tun.id ∙ by_id,
        elim listens [
          | inl (on, held) ↦ inl (on, tcp tun.public_port ∙ held)
          | inr (on, held) ↦ inr (on, udp tun.public_port ∙ held)
        ],
      )

  pub undone-IsValid : IsValid w'
  undone-IsValid = record {
    unused = λ t le. ground (arith, cell t, v.unused t);
    live = undone-Live;
    named = λ id t e.
        let (tun, here, named, at) = v.named id t (sym (tunnels id) ∙ e) in
        (tun, kept_cell t tun here, named, ports tun.public_port ∙ at);
    below = λ id t e. ground (arith, v.below id t, tunnels id);
    tcp_owned = λ p t e.
        let (at, tun, here, on) = v.tcp_owned p t (sym (tcp p) ∙ e) in
        (ports p ∙ at, tun, kept_cell t tun here, on);
    udp_owned = λ p t e.
        let (at, tun, here, on) = v.udp_owned p t (sym (udp p) ∙ e) in
        (ports p ∙ at, tun, kept_cell t tun here, on);
    shut = λ c p. ports p ∙ v.shut (sym same_closed ∙ c) p;
  }
