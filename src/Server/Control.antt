-- ===== src/Server/Control.antt =====
-- The control streams of a client: `portAllowed` and `validProto` of internal/server/server.go,
-- `handleControl` and `handleVPNAuth` of internal/server/connection.go, `serveControl` of
-- internal/server/tunnel.go.
pub mod Authorise
pub mod Session
pub mod Token
pub mod Pongs
use tunel.Prelude.{
  ℕ, zero, suc, ◌+◌, ◌<◌, Bool, true, false, List, [], ◌∷◌, ◌++◌, Str, ℤ, pos, negsuc, Option, none,
  some, arith, codes, if◌then◌else◌, string_eq, str_eq, ltb, leb, ◌||◌, ◌==◌, not,
}
use tunel.Prelude.Map.{get}
use tunel.Protocol.Messages.{
  Auth, AuthOk, Control, Message, MessageType, auth_ok, auth_err, pong, encode, msg_auth, msg_ping,
}
use tunel.Server.Peer.{Peer, Heap, deref, modify, notify, ip_string}
use tunel.Server.Room.{Room, mask_dotted, cidr, gateway_ip, size}
use tunel.Server.Hub.{
  Hub, HubError, bad_password, no_ipv4, room_full, no_peer, lobby, send_room_members, notify_join,
}
use tunel.Server.Hub
use tunel.Server.Tunnels.{World, tcp_name, udp_name, grant_tunnel, release_tunnel}
use tunel.Server.Tunnels

-- The part of `server.Config` that a control stream depends on; the list is the keys of AllowedPorts.
pub record Config : Type 0 where
  pub token : Str
  pub allowed_ports : List ℕ

-- One connection with its tunnels, its number, and the hub of the server, if VPN mode is on.
pub record Server : Type 0 where
  pub config : Config
  pub conn : ℕ
  pub world : World
  pub hub : Option Hub

-- The first frame of a control stream: an error of the stream, or an envelope with the result of
-- `Bind` on it.
pub data Opening : Type 0 where
  unreadable : Opening
  envelope : MessageType → Option Auth → Opening

-- What the checks of `handleControl` come to: return, an `AuthErr`, or one of its two ways on.
pub data Decision : Type 0 where
  hang_up : Decision
  refuse : Str → Decision
  join_vpn : Auth → Decision
  open_tunnel : Str → ℕ → Auth → Decision

abbrev pub vpn_name : Str
vpn_name = codes "vpn"

unfoldable pub has_port : ℕ → List ℕ → Bool
has_port port [] = false
has_port port (p ∷ ports) = p == port || has_port port ports

unfoldable pub port_allowed : Config → ℕ → Bool
port_allowed cfg port = elim cfg.allowed_ports [ [] ↦ true | p ∷ ports ↦ has_port port (p ∷ ports) ]

-- `none` for a transport that is not supported.
unfoldable pub valid_proto : Str → Option Str
valid_proto proto =
    if str_eq proto [] || str_eq proto tcp_name
    then some tcp_name
    else if str_eq proto udp_name
    then some udp_name
    else if str_eq proto vpn_name
    then some vpn_name
    else none

-- The checks of the public port.
unfoldable pub check_port : Config → Str → Auth → Decision
check_port cfg proto a = elim a.public_port [
  | negsuc n ↦ refuse (codes "invalid public_port")
  | pos port ↦
      if port == 0 || ltb 65535 port
      then refuse (codes "invalid public_port")
      else if not (port_allowed cfg port)
      then refuse (codes "public_port not allowed")
      else open_tunnel proto port a
]

-- The checks of the transport and the token.
unfoldable pub check_auth : Config → Auth → Decision
check_auth cfg a = elim (valid_proto a.proto) [
  | none ↦ refuse (codes "unsupported proto: " ++ a.proto)
  | some proto ↦
      if not (str_eq a.token cfg.token)
      then refuse (codes "bad token")
      else if str_eq proto vpn_name
      then join_vpn a
      else check_port cfg proto a
]

unfoldable pub check_opening : Config → Opening → Decision
check_opening cfg unreadable = hang_up
check_opening cfg (envelope msg_auth none) = refuse (codes "bad auth payload")
check_opening cfg (envelope msg_auth (some a)) = check_auth cfg a
check_opening cfg (envelope type payload) = refuse (codes "first frame must be auth")

-- The reply to each frame until the stream ends; the reply's own error is dropped.
unfoldable pub serve_control : List MessageType → Control → Control
serve_control [] control = control
serve_control (msg_ping ∷ rest) control = serve_control rest (encode pong control).0
serve_control (type ∷ rest) control = serve_control rest control

-- The texts of the hub's errors.
abbrev pub error_text : HubError → Str
error_text bad_password = codes "bad room password"
error_text no_ipv4 = codes "room needs IPv4 /24 subnet"
error_text room_full = codes "room full"
error_text no_peer = codes "no vpn peer for connection"

abbrev pub welcome : Str → Str → Room → Peer → Message
welcome session room_name r peer = auth_ok (record {
  session_id = session;
  tunnel_id = peer.ip.d;
  vpn_ip = ip_string peer.ip;
  vpn_mask = mask_dotted r;
  vpn_gateway = ip_string (gateway_ip r);
  vpn_subnet = cidr r;
  room = room_name;
  room_size = size r;
})

-- What is sent to a new peer and its room: the acknowledgement, and if it is taken the members, to the
-- peer, and the join, to the others. The stream is then the peer's.
unfoldable pub greet : Str → Str → ℕ → Control → Hub → Hub × Control × Bool
greet session room_name p control hub = elim (deref hub.heap p) [
  | none ↦ (hub, control, false)
  | some peer ↦ elim (get peer.room hub.rooms) [
    | none ↦ (hub, control, false)
    | some r ↦
        let (control', sent) = encode (welcome session room_name r peer) control in
        if sent
        then (
          notify_join p r (
              send_room_members p
                (record hub { heap = modify (λ q. record q { ctrl = some control' }) p hub.heap })),
          control',
          true,
        )
        else (hub, control', false)
  ]
]

-- The pings of a peer are answered on the stream that the peer holds.
unfoldable pub serve_peer : List MessageType → ℕ → Hub → Hub
serve_peer [] p hub = hub
serve_peer (msg_ping ∷ rest) p hub =
    serve_peer rest p (record hub { heap = modify (notify pong) p hub.heap })
serve_peer (type ∷ rest) p hub = serve_peer rest p hub

abbrev pub room_of : Auth → Str
room_of a = if str_eq a.room [] then lobby else a.room

-- `handleVPNAuth`, with the frames that the client sends before its stream ends.
unfoldable pub handle_vpn_auth :
    ℕ → Str → Auth → List MessageType → Control → Option Hub → Option Hub × Control
handle_vpn_auth conn session a frames control none =
    (none, (encode (auth_err (codes "VPN mode disabled on this server")) control).0)
handle_vpn_auth conn session a frames control (some hub) =
    let (hub', granted) =
      Hub.grant_peer hub conn (room_of a) a.room_password a.identity_pubkey a.ed_pubkey
        a.stun_endpoint in
    elim granted [
      | Hub.failed e ↦ (some hub', (encode (auth_err (error_text e)) control).0)
      | Hub.done p ↦
          let (hub'', control', greeted) = greet session (room_of a) p control hub' in
          let served = serve_peer frames p hub'' in
          (some (Hub.release_peer (if greeted then served else hub'') conn), control')
    ]

-- The way of `handleControl` behind its checks, for a TCP or UDP tunnel.
unfoldable pub run_tunnel : Str → ℕ → Str → List MessageType → Control → World → World × Control
run_tunnel proto port target frames control w =
    let (w', control', granted) = grant_tunnel control proto port target w in
    elim granted [
      | Tunnels.failed e ↦ (w', (encode (auth_err e) control').0)
      | Tunnels.done t ↦ (release_tunnel t w', serve_control frames control')
    ]

-- `handleControl`, from the first frame to the end of the stream.
unfoldable pub handle_control : Opening → List MessageType → Control → Server → Server × Control
handle_control opening frames control s = elim (check_opening s.config opening) [
  | hang_up ↦ (s, control)
  | refuse reason ↦ (s, (encode (auth_err reason) control).0)
  | join_vpn a ↦
      let (hub', control') = handle_vpn_auth s.conn s.world.conn_id a frames control s.hub in
      (record s { hub = hub' }, control')
  | open_tunnel proto port a ↦
      let (w', control') = run_tunnel proto port a.local_target frames control s.world in
      (record s { world = w' }, control')
]
