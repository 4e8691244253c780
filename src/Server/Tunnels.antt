-- ===== src/Server/Tunnels.antt =====
-- The tunnels of one connection: the registry of internal/server/connection.go, and the listeners of
-- internal/server/tunnel.go with the ports that the machine has bound.
pub mod Registry
pub mod Registered
pub mod Tcp
pub mod Udp
pub mod Grant
pub mod Granted
pub mod Close
pub mod CloseAll
pub mod Race
use tunel.Prelude.{
  ℕ, zero, suc, ◌+◌, ◌%◌, Bool, true, false, List, [], ◌∷◌, ◌++◌, Str, Option, none, some, arith,
  if◌then◌else◌, nat_eq, str_eq, ◌==◌, codes, decimal,
}
use tunel.Prelude.Map.{Map, get, put, delete}
use tunel.Protocol.Stream.{uint16}
use tunel.Protocol.Messages.{AuthOk, Control, Message, auth_ok, encode}

-- `closed` is the sync.Once of `closePublic`; the listeners are those that the tunnel holds.
pub record Tunnel : Type 0 where
  pub id : ℕ
  pub proto : Str
  pub public_port : ℕ
  pub local_target : Str
  pub closed : Bool
  pub tcp_ln : Bool
  pub udp_ln : Bool

-- Who holds a public port of the machine: another program, or the tunnel at a pointer.
pub data Owner : Type 0 where
  outside : Owner
  tunnel : ℕ → Owner

-- The connection, with its tunnels behind pointers, and the ports of the machine. `refusal` is the
-- text of the error of a failing `net.Listen`.
pub record World : Type 0 where
  pub conn_id : Str
  pub tunnels : Map ℕ ℕ
  pub ports : Map ℕ ℕ
  pub next_id : ℕ
  pub closed : Bool
  pub next_ref : ℕ
  pub cells : Map ℕ Tunnel
  pub tcp : Map ℕ Owner
  pub udp : Map ℕ Owner
  pub refusal : Str

pub data Result {ℓ} (A : Type ℓ) : Type ℓ where
  done : A → Result A
  failed : Str → Result A

abbrev pub tcp_name : Str
tcp_name = codes "tcp"

abbrev pub udp_name : Str
udp_name = codes "udp"

-- The tunnel record that `grantTunnel` makes.
abbrev pub new_tunnel : ℕ → Str → ℕ → Str → Tunnel
new_tunnel id proto port target = record {
  id = id;
  proto = proto;
  public_port = port;
  local_target = target;
  closed = false;
  tcp_ln = false;
  udp_ln = false;
}

abbrev pub in_use : ℕ → Str
in_use port = codes "public_port " ++ (decimal port ++ codes " already in use on this server")

-- The part of `grantTunnel` under the lock.
unfoldable pub register : Str → ℕ → Str → World → World × Result ℕ
register proto port target w =
    if w.closed then (w, failed (codes "connection closing")) else elim (get port w.ports) [
      | some other ↦ (w, failed (in_use port))
      | none ↦ (
        record w {
          next_id = uint16 (w.next_id + 1);
          next_ref = suc w.next_ref;
          cells = put w.next_ref (new_tunnel w.next_id proto port target) w.cells;
          tunnels = put w.next_id w.next_ref w.tunnels;
          ports = put port w.next_ref w.ports;
        },
        done w.next_ref,
      )
    ]

-- `net.Listen` fails on a port that is bound.
unfoldable pub listen_tcp : ℕ → Tunnel → World → World × Bool
listen_tcp t tun w = elim (get tun.public_port w.tcp) [
  | some owner ↦ (w, false)
  | none ↦ (
    record w {
      tcp = put tun.public_port (tunnel t) w.tcp;
      cells = put t (record tun { tcp_ln = true }) w.cells;
    },
    true,
  )
]

unfoldable pub listen_udp : ℕ → Tunnel → World → World × Bool
listen_udp t tun w = elim (get tun.public_port w.udp) [
  | some owner ↦ (w, false)
  | none ↦ (
    record w {
      udp = put tun.public_port (tunnel t) w.udp;
      cells = put t (record tun { udp_ln = true }) w.cells;
    },
    true,
  )
]

-- `openPublic`: true if there was no error.
unfoldable pub open_public : ℕ → World → World × Bool
open_public t w = elim (get t w.cells) [
  | none ↦ (w, true)
  | some tun ↦
      if str_eq tun.proto tcp_name
      then listen_tcp t tun w
      else if str_eq tun.proto udp_name
      then listen_udp t tun w
      else (w, true)
]

-- `closePublic`, which acts once.
unfoldable pub close_public : ℕ → World → World
close_public t w = elim (get t w.cells) [
  | none ↦ w
  | some tun ↦ if tun.closed then w else record w {
    cells = put t (record tun { closed = true }) w.cells;
    tcp = if tun.tcp_ln then delete tun.public_port w.tcp else w.tcp;
    udp = if tun.udp_ln then delete tun.public_port w.udp else w.udp;
  }
]

-- The two deletions under the lock.
unfoldable pub unregister : ℕ → ℕ → World → World
unregister id port w = record w { tunnels = delete id w.tunnels; ports = delete port w.ports }

abbrev pub tunnel_id : ℕ → World → ℕ
tunnel_id t w = elim (get t w.cells) [ none ↦ 0 | some tun ↦ tun.id ]

abbrev pub granted_message : Str → ℕ → Message
granted_message session id = auth_ok (record {
  session_id = session;
  tunnel_id = id;
  vpn_ip = [];
  vpn_mask = [];
  vpn_gateway = [];
  vpn_subnet = [];
  room = [];
  room_size = 0;
})

-- The acknowledgement, and what is undone if it cannot be sent. The text of the stream's error, which
-- the code puts behind the colon, is left out.
unfoldable pub acknowledge : ℕ → ℕ → ℕ → Control → World → World × Control × Result ℕ
acknowledge t id port control w =
    let (control', sent) = encode (granted_message w.conn_id id) control in
    if sent
    then (w, control', done t)
    else (unregister id port (close_public t w), control', failed (codes "send auth_ok: "))

-- What follows `register`, for a tunnel with this id and port.
unfoldable pub open_and_acknowledge : ℕ → ℕ → ℕ → Control → World → World × Control × Result ℕ
open_and_acknowledge t id port control w =
    let (w', opened) = open_public t w in
    if opened
    then acknowledge t id port control w'
    else (unregister id port w', control, failed w'.refusal)

unfoldable pub grant_tunnel : Control → Str → ℕ → Str → World → World × Control × Result ℕ
grant_tunnel control proto port target w =
    let (w', registered) = register proto port target w in
    elim registered [
      | failed e ↦ (w', control, failed e)
      | done t ↦ open_and_acknowledge t w.next_id port control w'
    ]

unfoldable pub release_tunnel : ℕ → World → World
release_tunnel t w = elim (get t w.cells) [
  | none ↦ w
  | some tun ↦ close_public t (unregister tun.id tun.public_port w)
]

unfoldable pub close_each : Map ℕ ℕ → World → World
close_each [] w = w
close_each ((id, t) ∷ rest) w = close_each rest (close_public t w)

unfoldable pub close_all : World → World
close_all w =
    if w.closed
    then w
    else close_each w.tunnels (record w { closed = true; tunnels = []; ports = [] })
