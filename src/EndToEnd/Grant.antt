-- ===== src/EndToEnd/Grant.antt =====
-- How a tunnel comes about: `setupTunnel` of internal/client/client.go asks, `handleControl` and
-- `grantTunnel` of internal/server/connection.go answer.
use mathlib.Core.List.{Memᴰ}
use tunel.Prelude.{
  ℕ, ◌-◌, ◌≤◌, ◌<◌, ◌≡◌, refl, false, List, [], ◌∷◌, ◌++◌, Str, some, none, pos, arith, nat_eq,
  string_eq, str_eq_iff, str_eq, All, inl, inr,
}
use tunel.Prelude.Map.{get, put, get-put_self}
use tunel.Protocol.Messages.{AuthOk, Control, auth, auth_ok, encode, msg_auth}
use tunel.Client.Spec.{TunnelSpec, check_config}
use tunel.Client.Spec as ClientSpec
use tunel.Client.Spec.Checks.{IsUsable, check_config_iff}
use tunel.Client.Tunnels.{Session, accepted, auth_of, proto_of, remote_tunnel, setup_tunnel}
use tunel.Client.Tunnels.Established.{setup_tunnel_granted}
use tunel.Server.Tunnels.{
  Tunnel, World, done, tcp_name, udp_name, grant_tunnel, open_and_acknowledge, acknowledge,
}
use tunel.Server.Tunnels.Registered.{IsTransport, register_new}
use tunel.Server.Tunnels.Tcp.{tcp_world, tcp_tunnel, open_tcp}
use tunel.Server.Tunnels.Udp.{udp_world, udp_tunnel, open_udp}
use tunel.Server.Control.{Config, envelope, open_tunnel, check_opening}
use tunel.Server.Control.Authorise.{IsOpenTo, Serves, check_opening_iff}

-- The port is free, of the connection's tunnels and on the machine, and the connection is open.
abbrev pub IsFree : ℕ → World → Type 0
IsFree port w =
    (w.closed ≡ false)
    × (get port w.ports ≡ none)
    × (get port w.tcp ≡ none)
    × (get port w.udp ≡ none)
    × (w.next_id < 65535)

-- The acknowledgement of the tunnel that is registered next.
abbrev granted : World → AuthOk
granted w = record {
  session_id = w.conn_id;
  tunnel_id = w.next_id;
  vpn_ip = [];
  vpn_mask = [];
  vpn_gateway = [];
  vpn_subnet = [];
  room = [];
  room_size = 0;
}

abbrev acknowledged : Control → World → Control
acknowledged control w = record {
  sent = control.sent ++ (auth_ok (granted w) ∷ []);
  takes = control.takes - 1;
}

module _ (control : Control) (port : ℕ) (target : Str) (w : World) (room : 1 ≤ control.takes) where
  grant_tcp :
      IsFree port w
      → grant_tunnel control tcp_name port target w
        ≡ (tcp_world w port target, acknowledged control w, done w.next_ref)
  unfolding grant_tunnel open_and_acknowledge acknowledge encode
  grant_tcp (is_open, new, free, _, small) =
      ground
        (arith, register_new tcp_name port target w is_open new small, open_tcp w port target free)

  grant_udp :
      IsFree port w
      → grant_tunnel control udp_name port target w
        ≡ (udp_world w port target, acknowledged control w, done w.next_ref)
  unfolding grant_tunnel open_and_acknowledge acknowledge encode
  grant_udp (is_open, new, _, free, small) =
      ground
        (arith, register_new udp_name port target w is_open new small, open_udp w port target free)

-- What `grantTunnel` does of a request.
abbrev pub Grants : Control → Str → ℕ → Str → World → AuthOk → Type 0
Grants control proto port target w a =
    (tun : Tunnel) × ((grant_tunnel control proto port target w).2 ≡ done w.next_ref)
    × ((grant_tunnel control proto port target w).1.sent ≡ control.sent ++ (auth_ok a ∷ []))
    × (get a.tunnel_id (grant_tunnel control proto port target w).0.tunnels ≡ some w.next_ref)
    × (get w.next_ref (grant_tunnel control proto port target w).0.cells ≡ some tun)
    × (tun.proto ≡ proto)
    × (tun.public_port ≡ port)
    × (tun.local_target ≡ target)

grant_tunnel_free :
    (control : Control) (proto : Str) (port : ℕ) (target : Str) (w : World)
    → IsTransport proto
    → IsFree port w
    → 1 ≤ control.takes
    → Grants control proto port target w (granted w)
grant_tunnel_free control proto port target w (inl tcp) free room =
    rw (tcp, grant_tcp control port target w room free)
      (
        tcp_tunnel w port target,
        refl,
        refl,
        get-put_self w.next_id w.next_ref w.tunnels,
        get-put_self w.next_ref (tcp_tunnel w port target) _,
        refl,
        refl,
        refl,
      )
grant_tunnel_free control proto port target w (inr udp) free room =
    rw (udp, grant_udp control port target w room free)
      (
        udp_tunnel w port target,
        refl,
        refl,
        get-put_self w.next_id w.next_ref w.tunnels,
        get-put_self w.next_ref (udp_tunnel w port target) _,
        refl,
        refl,
        refl,
      )

-- A tunnel that `New` accepts is asked for with a transport that the server serves.
proto_of-Serves : (t : TunnelSpec) → IsUsable t → Serves (proto_of t) (proto_of t)
unfolding str_eq
proto_of-Serves t usable = ground (arith, str_eq_iff t.proto [], usable.2)

Serves-IsTransport : (asked proto : Str) → Serves asked proto → IsTransport proto
Serves-IsTransport asked proto (inl (tcp, _)) = inl tcp
Serves-IsTransport asked proto (inr (udp, _)) = inr udp

All-Mem {κ} : {A : Type 0} (P : A → Type κ) (xs : List A) (x : A) → All P xs → Memᴰ x xs → P x
All-Mem P [] x all h = elim h [ ]
All-Mem P (y ∷ ys) x (here, all) (Memᴰ.head e) = rw e here
All-Mem P (y ∷ ys) x (here, all) (Memᴰ.tail h) = All-Mem P ys x all h

-- Client and server come to one tunnel: the server lets the request through, acknowledges it by an id
-- under which it holds the tunnel, with the transport, port and target of the client's configuration, and
-- the client holds the tunnel under the same id.
abbrev pub IsAgreed : Str → Config → TunnelSpec → ℕ → Control → World → Control → Session → Type 0
IsAgreed token cfg t port control w mine s =
    (a : AuthOk) × (check_opening cfg (envelope msg_auth (some (auth_of token t)))
      ≡ open_tunnel (proto_of t) port (auth_of token t))
    × Grants control (proto_of t) port t.local_target w a
    × (setup_tunnel token t (some mine) (accepted a) s ≡ (
      put a.tunnel_id (remote_tunnel t) s,
      some (record { sent = mine.sent ++ (auth (auth_of token t) ∷ []); takes = mine.takes - 1 }),
      none,
    ))

-- A tunnel of a configuration that `New` accepts is granted by a server with the same token: its request
-- passes the checks, and server and client register it under one id, with one transport, port and target.
-- The port is on the server's list, if there is one, and free, an id below 65535 is next, and both ends of
-- the control stream take a message.
pub grant_tunnel-IsAgreed :
    (c : ClientSpec.Config) (cfg : Config) (t : TunnelSpec) (port : ℕ) (control : Control)
    (w : World) (mine : Control) (s : Session)
    → check_config c ≡ none
    → Memᴰ t c.tunnels
    → t.public_port ≡ pos port
    → c.token ≡ cfg.token
    → IsOpenTo cfg port
    → IsFree port w
    → 1 ≤ control.takes
    → 1 ≤ mine.takes
    → IsAgreed c.token cfg t port control w mine s
grant_tunnel-IsAgreed c cfg t port control w mine s accepts listed at token allowed free room
      room' =
    let (_, _, usable, _) = (check_config_iff c).0 accepts in
    let is : IsUsable t = All-Mem IsUsable c.tunnels t usable listed in
    let serves : Serves (proto_of t) (proto_of t) = proto_of-Serves t is in
    let ((p, at', low, high), _, _) = is in
    let same : p ≡ port = cc in
    (
      granted w,
      (check_opening_iff cfg (envelope msg_auth (some (auth_of c.token t))) (proto_of t) port
            (auth_of c.token t)).1
          (refl, token, serves, at, rw (← same) low, rw (← same) high, allowed),
      grant_tunnel_free control (proto_of t) port t.local_target w
          (Serves-IsTransport (proto_of t) (proto_of t) serves) free room,
      setup_tunnel_granted c.token t mine (granted w) s room',
    )
