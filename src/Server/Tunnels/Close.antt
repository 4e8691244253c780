-- ===== src/Server/Tunnels/Close.antt =====
-- Closing tunnels: `releaseTunnel` of internal/server/connection.go, `closePublic` of
-- internal/server/tunnel.go.
use tunel.Prelude.{ℕ, ◌≡◌, true, false, some, arith, if◌then◌else◌, nat_eq, ◌==◌, ==_iff, inl, inr}
use tunel.Prelude.Map.{get, put, delete, get-put, get-delete}
use tunel.Server.Tunnels.{Tunnel, tunnel, World, close_public, unregister, release_tunnel}
use tunel.Server.Tunnels.Registry.{IsValid, Live, Named, TcpOwned, UdpOwned}

-- The world from which an open tunnel is taken.
abbrev released : ℕ → Tunnel → World → World
released t tun w = record w {
  tunnels = delete tun.id w.tunnels;
  ports = delete tun.public_port w.ports;
  cells = put t (record tun { closed = true }) w.cells;
  tcp = if tun.tcp_ln then delete tun.public_port w.tcp else w.tcp;
  udp = if tun.udp_ln then delete tun.public_port w.udp else w.udp;
}

release_tunnel-released :
    (t : ℕ) (tun : Tunnel) (w : World)
    → get t w.cells ≡ some tun
    → tun.closed ≡ false
    → release_tunnel t w ≡ released t tun w
unfolding release_tunnel close_public unregister
release_tunnel-released t tun w here is_open = ground arith

module _ (t : ℕ) (tun : Tunnel) (w : World) (v : IsValid w) (here : get t w.cells ≡ some tun)
    (at : get tun.public_port w.ports ≡ some t) where
  by_id : get tun.id w.tunnels ≡ some t
  by_id =
      let (tun', here', at', live, named, listens) = v.live tun.public_port t at in ground (arith)

  released-Live :
      (p s : ℕ) → get p (delete tun.public_port w.ports) ≡ some s → Live (released t tun w) p s
  released-Live p s e =
      let old : (get p w.ports ≡ some s) × ((tun.public_port == p) ≡ false) =
        ground (arith, get-delete tun.public_port p w.ports) in
      let (tun', here', at', live, named, listens) = v.live p s old.0 in
      let other : (t == s) ≡ false = ground (arith, ==_iff t s, ==_iff tun.public_port p) in
      let apart : (tun.public_port == tun'.public_port) ≡ false =
        ground (arith, ==_iff tun.public_port tun'.public_port, ==_iff tun.public_port p) in
      (
        tun',
        ground (arith, get-put t s (record tun { closed = true }) w.cells),
        at',
        live,
        ground
            (arith, get-delete tun.id tun'.id w.tunnels, ==_iff tun.id tun'.id, by_id, ==_iff t s),
        elim listens [
          | inl (on, held) ↦
              inl (on, ground (arith, get-delete tun.public_port tun'.public_port w.tcp))
          | inr (on, held) ↦
              inr (on, ground (arith, get-delete tun.public_port tun'.public_port w.udp))
        ],
      )

  released-Named :
      (id s : ℕ) → get id (delete tun.id w.tunnels) ≡ some s → Named (released t tun w) id s
  released-Named id s e =
      let old : (get id w.tunnels ≡ some s) × ((tun.id == id) ≡ false) =
        ground (arith, get-delete tun.id id w.tunnels) in
      let (tun', here', named, at') = v.named id s old.0 in
      let other : (t == s) ≡ false = ground (arith, ==_iff t s, ==_iff tun.id id) in
      (
        tun',
        ground (arith, get-put t s (record tun { closed = true }) w.cells),
        named,
        ground (
          arith,
          get-delete tun.public_port tun'.public_port w.ports,
          ==_iff tun.public_port tun'.public_port,
          ==_iff t s,
        ),
      )

  released-TcpOwned :
      (p s : ℕ)
      → get p (if tun.tcp_ln then delete tun.public_port w.tcp else w.tcp) ≡ some (tunnel s)
      → TcpOwned (released t tun w) p s
  released-TcpOwned p s e =
      let old : get p w.tcp ≡ some (tunnel s) =
        ground (arith, get-delete tun.public_port p w.tcp) in
      let (at', tun', here', on) = v.tcp_owned p s old in
      let (tun2, here2, at2, live, named, listens) = v.live p s at' in
      let apart : (tun.public_port == p) ≡ false =
        ground (arith, get-delete tun.public_port p w.tcp, ==_iff tun.public_port p) in
      let other : (t == s) ≡ false = ground (arith, ==_iff t s, ==_iff tun.public_port p) in
      (
        ground (arith, get-delete tun.public_port p w.ports),
        tun',
        ground (arith, get-put t s (record tun { closed = true }) w.cells),
        on,
      )

  released-UdpOwned :
      (p s : ℕ)
      → get p (if tun.udp_ln then delete tun.public_port w.udp else w.udp) ≡ some (tunnel s)
      → UdpOwned (released t tun w) p s
  released-UdpOwned p s e =
      let old : get p w.udp ≡ some (tunnel s) =
        ground (arith, get-delete tun.public_port p w.udp) in
      let (at', tun', here', on) = v.udp_owned p s old in
      let (tun2, here2, at2, live, named, listens) = v.live p s at' in
      let apart : (tun.public_port == p) ≡ false =
        ground (arith, get-delete tun.public_port p w.udp, ==_iff tun.public_port p) in
      let other : (t == s) ≡ false = ground (arith, ==_iff t s, ==_iff tun.public_port p) in
      (
        ground (arith, get-delete tun.public_port p w.ports),
        tun',
        ground (arith, get-put t s (record tun { closed = true }) w.cells),
        on,
      )

  released-IsValid : IsValid (released t tun w)
  released-IsValid = record {
    unused = λ s le.
        ground (arith, v.unused s, get-put t s (record tun { closed = true }) w.cells, ==_iff t s);
    live = released-Live;
    named = released-Named;
    below = λ id s e. ground (arith, get-delete tun.id id w.tunnels, v.below id s);
    tcp_owned = released-TcpOwned;
    udp_owned = released-UdpOwned;
    shut = λ c p. ground (arith, get-delete tun.public_port p w.ports, v.shut c p);
  }

  registered-open : tun.closed ≡ false
  registered-open = let (tun', here', at', live, named, listens) = v.live tun.public_port t at in cc

-- `releaseTunnel` of a registered tunnel keeps the registry valid: every other tunnel stays registered
-- with its listener, and no listener is left of this one.
pub release_tunnel-IsValid :
    (t : ℕ) (tun : Tunnel) (w : World)
    → IsValid w
    → get t w.cells ≡ some tun
    → get tun.public_port w.ports ≡ some t
    → IsValid (release_tunnel t w)
release_tunnel-IsValid t tun w v here at =
    rw (release_tunnel-released t tun w here (registered-open t tun w v here at))
      (released-IsValid t tun w v here at)
