-- ===== src/Server/Tunnels/Granted.antt =====
-- The tunnel that `grantTunnel` of internal/server/connection.go returns.
use tunel.Prelude.{ℕ, suc, ◌+◌, ◌≡◌, Str, some, arith, nat_eq, Bool-cases, Option-cases, inl, inr}
use tunel.Prelude.Map.{get, put, get-put_self}
use tunel.Protocol.Messages.{Control}
use tunel.Protocol.Stream.{uint16}
use tunel.Server.Tunnels.{
  World, done, new_tunnel, register, listen_tcp, listen_udp, open_public, acknowledge,
  open_and_acknowledge, grant_tunnel,
}

open_public_ports : (t : ℕ) (w : World) → (open_public t w).0.ports ≡ w.ports
unfolding open_public listen_tcp listen_udp
open_public_ports t w = ground arith

open_and_acknowledge_done :
    (t s id port : ℕ) (control : Control) (w : World)
    → (open_and_acknowledge t id port control w).2 ≡ done s
    → (s ≡ t) × ((open_and_acknowledge t id port control w).0.ports ≡ w.ports)
unfolding open_and_acknowledge acknowledge
open_and_acknowledge_done t s id port control w e = ground (arith, open_public_ports t w)

abbrev entered : World → Str → ℕ → Str → World
entered w proto port target = record w {
  next_id = uint16 (w.next_id + 1);
  next_ref = suc w.next_ref;
  cells = put w.next_ref (new_tunnel w.next_id proto port target) w.cells;
  tunnels = put w.next_id w.next_ref w.tunnels;
  ports = put port w.next_ref w.ports;
}

-- The tunnel that is returned is registered under the port that was asked for.
pub grant_tunnel_done :
    (control : Control) (proto : Str) (port : ℕ) (target : Str) (w : World) (t : ℕ)
    → (grant_tunnel control proto port target w).2 ≡ done t
    → get port (grant_tunnel control proto port target w).0.ports ≡ some t
unfolding grant_tunnel register
grant_tunnel_done control proto port target w t e = elim (Bool-cases w.closed) [
  | inl closing ↦ ground arith
  | inr is_open ↦ elim (Option-cases (get port w.ports)) [
    | inl new ↦ ground (
      arith,
      open_and_acknowledge_done w.next_ref t w.next_id port control (entered w proto port target),
      get-put_self port w.next_ref w.ports,
    )
    | inr (other, held) ↦ ground arith
  ]
]
