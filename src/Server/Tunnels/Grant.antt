-- ===== src/Server/Tunnels/Grant.antt =====
-- Granting a tunnel: `grantTunnel` of internal/server/connection.go.
use tunel.Prelude.{
  ℕ, ◌<◌, ◌≡◌, refl, false, Str, none, arith, nat_eq, codes, Bool-cases, Option-cases, inl, inr, ap,
}
use tunel.Prelude.Map.{get, get-put}
use tunel.Protocol.Messages.{Control, encode}
use tunel.Server.Tunnels.{
  World, Result, done, failed, tcp_name, udp_name, new_tunnel, in_use, register, close_public,
  unregister, acknowledge, open_and_acknowledge, grant_tunnel, granted_message,
}
use tunel.Server.Tunnels.Registry.{IsValid, undone-IsValid}
use tunel.Server.Tunnels.Registered.{
  registered_world, IsTransport, delete-put, register_new, register_closed, register-in_use,
}
use tunel.Server.Tunnels.Tcp.{
  tcp_world, open_tcp, open_tcp_bound, close_tcp, tcp_world-IsValid, tcp_undone-IsValid,
}
use tunel.Server.Tunnels.Udp.{
  udp_world, open_udp, open_udp_bound, close_udp, udp_world-IsValid, udp_undone-IsValid,
}

-- The next id is not given.
next_id_new : (w : World) → IsValid w → get w.next_id w.tunnels ≡ none
next_id_new w v = elim (Option-cases (get w.next_id w.tunnels)) [
  | inl e ↦ e
  | inr (t, e) ↦ absurd (omega (arith, v.below w.next_id t e))
]

-- A registration that is taken back.
unregistered-IsValid :
    (w : World) (proto : Str) (port : ℕ) (target : Str)
    → IsValid w
    → get port w.ports ≡ none
    → IsValid (unregister w.next_id port (registered_world w proto port target))
unfolding unregister
unregistered-IsValid w proto port target v new =
    undone-IsValid w (unregister w.next_id port (registered_world w proto port target))
      (new_tunnel w.next_id proto port target) v (omega arith) refl refl
      (λ t. get-put w.next_ref t (new_tunnel w.next_id proto port target) w.cells)
      (λ id. delete-put w.next_id id w.next_ref w.tunnels (next_id_new w v))
      (λ p. delete-put port p w.next_ref w.ports new) (λ p. refl) (λ p. refl)

-- What the acknowledgement leaves of an opened tunnel.
acknowledge-IsValid :
    (t id port : ℕ) (control : Control) (w : World)
    → IsValid w
    → IsValid (unregister id port (close_public t w))
    → IsValid (acknowledge t id port control w).0
unfolding acknowledge
acknowledge-IsValid t id port control w v u =
    elim (Bool-cases (encode (granted_message w.conn_id id) control).1) [
      | inl sent ↦ rw sent v
      | inr lost ↦ rw lost u
    ]

module _ (w : World) (port : ℕ) (target : Str) (control : Control) (v : IsValid w)
    (new : get port w.ports ≡ none) (is_open : w.closed ≡ false) where
  opened_tcp-IsValid :
      IsValid
        (open_and_acknowledge w.next_ref w.next_id port control
          (registered_world w tcp_name port target)).0
  unfolding open_and_acknowledge
  opened_tcp-IsValid = elim (Option-cases (get port w.tcp)) [
    | inl free ↦ rw (open_tcp w port target free) (
        acknowledge-IsValid w.next_ref w.next_id port control (tcp_world w port target)
          (tcp_world-IsValid w port target v new is_open free)
          (rw (close_tcp w port target)
            (tcp_undone-IsValid w port target v new (next_id_new w v) free)))
    | inr (o, bound) ↦
        rw (open_tcp_bound w port target o bound)
          (unregistered-IsValid w tcp_name port target v new)
  ]

  opened_udp-IsValid :
      IsValid
        (open_and_acknowledge w.next_ref w.next_id port control
          (registered_world w udp_name port target)).0
  unfolding open_and_acknowledge
  opened_udp-IsValid = elim (Option-cases (get port w.udp)) [
    | inl free ↦ rw (open_udp w port target free) (
        acknowledge-IsValid w.next_ref w.next_id port control (udp_world w port target)
          (udp_world-IsValid w port target v new is_open free)
          (rw (close_udp w port target)
            (udp_undone-IsValid w port target v new (next_id_new w v) free)))
    | inr (o, bound) ↦
        rw (open_udp_bound w port target o bound)
          (unregistered-IsValid w udp_name port target v new)
  ]

-- The rest of the grant, after a registration.
abbrev granted : Control → ℕ → World → World × Result ℕ → World × Control × Result ℕ
granted control port w r = elim r.1 [
  | failed e ↦ (r.0, control, failed e)
  | done t ↦ open_and_acknowledge t w.next_id port control r.0
]

grant_tunnel-register :
    (control : Control) (proto : Str) (port : ℕ) (target : Str) (w : World) (r : World × Result ℕ)
    → register proto port target w ≡ r
    → grant_tunnel control proto port target w ≡ granted control port w r
unfolding grant_tunnel
grant_tunnel-register control proto port target w r e = ap (granted control port w) e

-- Whatever `grantTunnel` answers, and whether or not its message is sent, the registry stays valid: a
-- refused or failed grant leaves no id, port or listener behind. The transport is TCP or UDP, and an
-- id below 65535 is next.
pub grant_tunnel-IsValid :
    (control : Control) (proto : Str) (port : ℕ) (target : Str) (w : World)
    → IsValid w
    → IsTransport proto
    → w.next_id < 65535
    → IsValid (grant_tunnel control proto port target w).0
grant_tunnel-IsValid control proto port target w v transport small = elim (Bool-cases w.closed) [
  | inl closing ↦
      rw
        (grant_tunnel-register control proto port target w (w, failed (codes "connection closing"))
          (register_closed proto port target w closing))
        v
  | inr is_open ↦ elim (Option-cases (get port w.ports)) [
    | inr (other, held) ↦
        rw
          (grant_tunnel-register control proto port target w (w, failed (in_use port))
            (register-in_use proto port target w other is_open held))
          v
    | inl new ↦
        rw
          (grant_tunnel-register control proto port target w
            (registered_world w proto port target, done w.next_ref)
            (register_new proto port target w is_open new small))
          (elim transport [
            | inl tcp ↦ rw tcp (opened_tcp-IsValid w port target control v new is_open)
            | inr udp ↦ rw udp (opened_udp-IsValid w port target control v new is_open)
          ])
  ]
]
