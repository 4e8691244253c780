-- ===== src/Server/Tunnels/CloseAll.antt =====
-- The end of a connection: `closeAll` of internal/server/connection.go.
use tunel.Prelude.{
  ℕ, ◌≡◌, ◌≢◌, true, false, [], ◌∷◌, Str, none, some, arith, if◌then◌else◌, nat_eq, ◌==◌, ==_iff,
  codes, Bool-cases, Option-cases, inl, inr, ◌⊎◌,
}
use tunel.Prelude.Map.{Map, get, get-put, get-delete, get-delete_self}
use tunel.Server.Tunnels.{
  Tunnel, Owner, tunnel, World, failed, register, close_public, close_each, close_all,
}
use tunel.Server.Tunnels.Registered.{register_closed}
use tunel.Server.Tunnels.Registry.{IsValid}

-- The tunnel at `t` listens by TCP on the port, or has given it up.
abbrev TcpOrFree : ℕ → ℕ → World → Type 0
TcpOrFree p t w =
    (tun : Tunnel) × (get t w.cells ≡ some tun)
    × (tun.public_port ≡ p)
    × (tun.tcp_ln ≡ true)
    × ((tun.closed ≡ false) ⊎ (get p w.tcp ≡ none))

abbrev UdpOrFree : ℕ → ℕ → World → Type 0
UdpOrFree p t w =
    (tun : Tunnel) × (get t w.cells ≡ some tun)
    × (tun.public_port ≡ p)
    × (tun.udp_ln ≡ true)
    × ((tun.closed ≡ false) ⊎ (get p w.udp ≡ none))

-- A record after the tunnel at `s` is closed.
pub close_public_cell :
    (s t : ℕ) (tun : Tunnel) (w : World)
    → get t w.cells ≡ some tun
    → get t (close_public s w).cells ≡ some (if s == t then record tun { closed = true } else tun)
unfolding close_public
close_public_cell s t tun w here = elim (Option-cases (get s w.cells)) [
  | inl e ↦ ground (arith, ==_iff s t)
  | inr (other, e) ↦
      ground (arith, get-put s t (record other { closed = true }) w.cells, ==_iff s t)
]

-- What closing the tunnel at `s` does to a port.
module _ (s p : ℕ) (w : World) where
  close_public_keeps :
      ((get p w.tcp ≡ none → get p (close_public s w).tcp ≡ none)
        × (get p w.udp ≡ none → get p (close_public s w).udp ≡ none))
      × ((o : Owner) → get p (close_public s w).tcp ≡ some o → get p w.tcp ≡ some o)
      × ((o : Owner) → get p (close_public s w).udp ≡ some o → get p w.udp ≡ some o)
  unfolding close_public
  close_public_keeps = elim (Option-cases (get s w.cells)) [
    | inl e ↦ ground arith
    | inr (tun, e) ↦
        ground (arith, get-delete tun.public_port p w.tcp, get-delete tun.public_port p w.udp)
  ]

  close_public_frees :
      (TcpOrFree p s w → get p (close_public s w).tcp ≡ none)
      × (UdpOrFree p s w → get p (close_public s w).udp ≡ none)
  unfolding close_public
  close_public_frees = (
    (λ (tun, here, at, on, or). ground (arith, get-delete_self p w.tcp)),
    λ (tun, here, at, on, or). ground (arith, get-delete_self p w.udp),
  )

  close_public-TcpOrFree : (t : ℕ) → TcpOrFree p t w → TcpOrFree p t (close_public s w)
  close_public-TcpOrFree t (tun, here, at, on, or) = (
    (if s == t then record tun { closed = true } else tun),
    close_public_cell s t tun w here,
    ground arith,
    ground arith,
    elim (Bool-cases (s == t)) [
      | inl same ↦ inr (
          ground (
            arith,
            ==_iff s t,
            close_public_frees.0 (rw ((==_iff s t).0 same) (tun, here, at, on, or)),
          ))
      | inr other ↦ elim or [
        | inl is_open ↦ inl (rw other is_open)
        | inr free ↦ inr (close_public_keeps.0.0 free)
      ]
    ],
  )

  close_public-UdpOrFree : (t : ℕ) → UdpOrFree p t w → UdpOrFree p t (close_public s w)
  close_public-UdpOrFree t (tun, here, at, on, or) = (
    (if s == t then record tun { closed = true } else tun),
    close_public_cell s t tun w here,
    ground arith,
    ground arith,
    elim (Bool-cases (s == t)) [
      | inl same ↦ inr (
          ground (
            arith,
            ==_iff s t,
            close_public_frees.1 (rw ((==_iff s t).0 same) (tun, here, at, on, or)),
          ))
      | inr other ↦ elim or [
        | inl is_open ↦ inl (rw other is_open)
        | inr free ↦ inr (close_public_keeps.0.1 free)
      ]
    ],
  )

-- What the loop keeps of a port: it stays free, and a listener that is there was there before.
pub close_each_keeps :
    (m : Map ℕ ℕ) (p : ℕ) (w : World)
    → ((get p w.tcp ≡ none → get p (close_each m w).tcp ≡ none)
        × (get p w.udp ≡ none → get p (close_each m w).udp ≡ none))
      × ((o : Owner) → get p (close_each m w).tcp ≡ some o → get p w.tcp ≡ some o)
      × ((o : Owner) → get p (close_each m w).udp ≡ some o → get p w.udp ≡ some o)
unfolding close_each
close_each_keeps [] p w = ground arith
close_each_keeps ((id, s) ∷ m) p w =
    let now = close_public_keeps s p w in
    let later = close_each_keeps m p (close_public s w) in
    (
      ((λ e. later.0.0 (now.0.0 e)), λ e. later.0.1 (now.0.1 e)),
      (λ o e. now.1 o (later.1 o e)),
      λ o e. now.2 o (later.2 o e),
    )

-- The loop closes the listeners of every tunnel in the list.
module _ (p id t : ℕ) where
  close_each_frees :
      (m : Map ℕ ℕ) (w : World)
      → get id m ≡ some t
      → (TcpOrFree p t w → get p (close_each m w).tcp ≡ none)
        × (UdpOrFree p t w → get p (close_each m w).udp ≡ none)
  unfolding close_each get
  close_each_frees [] w e = cc
  close_each_frees ((j, s) ∷ m) w e = elim (Bool-cases (j == id)) [
    | inl hit ↦
        let same : s ≡ t = ground arith in
        (
          (λ h.
              (close_each_keeps m p (close_public s w)).0.0
                ((close_public_frees s p w).0 (rw same h))),
          λ h.
              (close_each_keeps m p (close_public s w)).0.1
                ((close_public_frees s p w).1 (rw same h)),
        )
    | inr miss ↦
        let later = close_each_frees m (close_public s w) (ground arith) in
        (
          (λ h. later.0 (close_public-TcpOrFree s p w t h)),
          λ h. later.1 (close_public-UdpOrFree s p w t h),
        )
  ]

pub close_each_fields :
    (m : Map ℕ ℕ) (w : World)
    → ((close_each m w).closed ≡ w.closed)
      × ((close_each m w).tunnels ≡ w.tunnels)
      × ((close_each m w).ports ≡ w.ports)
unfolding close_each close_public
close_each_fields [] w = ground arith
close_each_fields ((id, s) ∷ m) w = ground (arith, close_each_fields m (close_public s w))

-- No tunnel of the connection holds a listener.
abbrev pub NoListener : World → Type 0
NoListener w = (p t : ℕ) → (get p w.tcp ≢ some (tunnel t)) × (get p w.udp ≢ some (tunnel t))

-- The connection that the loop starts from.
abbrev pub shut_down : World → World
shut_down w = record w { closed = true; tunnels = []; ports = [] }

pub close_all-close_each :
    (w : World) → w.closed ≡ false → close_all w ≡ close_each w.tunnels (shut_down w)
unfolding close_all
close_all-close_each w is_open = ground arith

close_each-NoListener : (w : World) → IsValid w → NoListener (close_each w.tunnels (shut_down w))
close_each-NoListener w v p t =
    let keeps = close_each_keeps w.tunnels p (shut_down w) in
    (
      (λ held.
          let (at, tun, here, on) = v.tcp_owned p t (keeps.1 (tunnel t) held) in
          let (tun', here', at', live, named, listens) = v.live p t at in
          let free : get p (close_each w.tunnels (shut_down w)).tcp ≡ none =
            (close_each_frees p tun'.id t w.tunnels (shut_down w) named).0
              (tun', here', at', ground arith, inl live) in
          cc),
      λ held.
          let (at, tun, here, on) = v.udp_owned p t (keeps.2 (tunnel t) held) in
          let (tun', here', at', live, named, listens) = v.live p t at in
          let free : get p (close_each w.tunnels (shut_down w)).udp ≡ none =
            (close_each_frees p tun'.id t w.tunnels (shut_down w) named).1
              (tun', here', at', ground arith, inl live) in
          cc,
    )

-- No listener is left, both maps are empty, and every tunnel that is asked for is refused.
abbrev pub IsShutDown : World → Type 0
IsShutDown w =
    NoListener w
    × (w.tunnels ≡ [])
    × (w.ports ≡ [])
    × ((proto : Str) (port : ℕ) (target : Str)
        → register proto port target w ≡ (w, failed (codes "connection closing")))

-- When its session ends, a connection with a valid registry has every public listener of its tunnels
-- closed and both its maps emptied, and whatever tunnel is asked for then is refused.
pub close_all_frees : (w : World) → IsValid w → w.closed ≡ false → IsShutDown (close_all w)
close_all_frees w v is_open =
    let fields = close_each_fields w.tunnels (shut_down w) in
    rw (close_all-close_each w is_open) (
      close_each-NoListener w v,
      fields.1,
      fields.2,
      λ proto port target.
          register_closed proto port target (close_each w.tunnels (shut_down w)) fields.0,
    )
