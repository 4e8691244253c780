-- ===== src/Client/Vpn.antt =====
-- The VPN session of the client: `runOnceVPN`, `tunToStream`, `streamToTun`, `vpnControlReader` and
-- `RunVPN` of internal/client/vpn.go. What the TUN device and the context do is given as a list.
pub mod Pumps
pub mod Ends
use tunel.Prelude.{
  ℕ, suc, zero, Bool, true, false, List, [], ◌∷◌, ◌++◌, Str, Option, none, some, codes,
  if◌then◌else◌, str_eq, ◌||◌, not, pos,
}
use tunel.Protocol.Stream.{
  Reader, Writer, Outcome, ok, err, Error, eof, unexpected_eof, transport, write_failed,
}
use tunel.Protocol.Packet.{
  write_packet, read_packet, ipv4_dst, write_packet_stream_magic, max_packet_len,
}
use tunel.Protocol.Messages.{Auth, AuthOk, Control, MessageType, auth, ping, encode}
use tunel.Server.Peer.{ip_string}
use tunel.Client.Spec.{Config}
use tunel.Client.Run.{Attempt, ended, rejected, lost, Turn, Trace, run_loop}
use tunel.Client.Peers.{Peers, Signal, on_signal}
use tunel.Client.P2p.{Manager, route}
use tunel.Client.Tunnels.{Reply, unreadable, accepted, denied, unexpected}

-- A round of `tunToStream`: the context is cancelled before it, the device fails, or it gives a packet.
pub data TunRead : Type 0 where
  context_done device_failed : TunRead
  packet : List ℕ → TunRead

-- How a loop stands: it waits for more, it has returned without an error, or with one that is not of a
-- closed connection.
pub data Pump : Type 0 where
  waiting stopped broken : Pump

-- The direct way of a packet, if there is a manager: true if it was taken.
unfoldable pub go_direct : List ℕ → Option Manager → Option Manager × Bool
go_direct pkt none = (none, false)
go_direct pkt (some m) = elim (ipv4_dst pkt) [
  | none ↦ (some m, false)
  | some dst ↦ let (m', taken) = route (ip_string dst) pkt m in (some m', taken)
]

-- `tunToStream`: the device's error ends it as a cancelled context does.
unfoldable pub tun_to_stream :
    List TunRead → Option Manager → Writer → Option Manager × Writer × Pump
tun_to_stream [] m w = (m, w, waiting)
tun_to_stream (context_done ∷ rest) m w = (m, w, stopped)
tun_to_stream (device_failed ∷ rest) m w = (m, w, stopped)
tun_to_stream (packet [] ∷ rest) m w = tun_to_stream rest m w
tun_to_stream (packet (x ∷ xs) ∷ rest) m w =
    let (m', taken) = go_direct (x ∷ xs) m in
    elim taken [
      | true ↦ tun_to_stream rest m' w
      | false ↦ elim (write_packet (x ∷ xs) w) [
        | ok _ w' ↦ tun_to_stream rest m' w'
        | err e w' ↦ (m', w', broken)
      ]
    ]

-- The device as `streamToTun` writes to it: what it was given, and how many more packets it takes.
pub record Tun : Type 0 where
  pub given : List (List ℕ)
  pub takes : ℕ

unfoldable pub tun_write : List ℕ → Tun → Tun × Bool
tun_write pkt d = elim d.takes [
  | zero ↦ (d, false)
  | suc n ↦ (record { given = d.given ++ (pkt ∷ []); takes = n }, true)
]

-- A round of `streamToTun`: whether the context is cancelled before it, and when its write fails.
pub record Round : Type 0 where
  pub cancelled_before : Bool
  pub cancelled_writing : Bool

abbrev is_end : Error → Bool
is_end eof = true
is_end unexpected_eof = true
is_end e = false

unfoldable pub stream_to_tun : List Round → Reader → Tun → Tun × Pump
stream_to_tun [] stream d = (d, waiting)
stream_to_tun (t ∷ rounds) stream d = elim t.cancelled_before [
  | true ↦ (d, stopped)
  | false ↦ elim (read_packet max_packet_len stream) [
    | err e stream' ↦ (d, if is_end e then stopped else broken)
    | ok [] stream' ↦ stream_to_tun rounds stream' d
    | ok (x ∷ xs) stream' ↦
        let (d', written) = tun_write (x ∷ xs) d in
        elim written [
          | true ↦ stream_to_tun rounds stream' d'
          | false ↦ (d', if t.cancelled_writing then stopped else broken)
        ]
  ]
]

-- The fields of `client.Config` that only the VPN uses.
pub record Identity : Type 0 where
  pub identity_pubkey : Str
  pub ed_pubkey : Str
  pub stun_endpoint : Str
  pub room : Str
  pub room_password : Str

abbrev pub vpn_auth : Str → Identity → Auth
vpn_auth token i = record {
  token = token;
  public_port = pos 0;
  local_target = [];
  proto = codes "vpn";
  vpn_subnet_hint = [];
  identity_pubkey = i.identity_pubkey;
  ed_pubkey = i.ed_pubkey;
  stun_endpoint = i.stun_endpoint;
  room = i.room;
  room_password = i.room_password;
}

-- One session as its surroundings decide it. `ends` is how the first loop to return has returned, or that
-- the context was cancelled before.
pub data SessionEnd : Type 0 where
  by_pump : Pump → SessionEnd
  by_context : SessionEnd

pub record Session : Type 0 where
  pub connects : Bool
  pub control : Option Control
  pub reply : Reply
  pub packets : Option Writer
  pub tun_opens : Bool
  pub tun_configures : Bool
  pub ends : SessionEnd
  pub cancelled : Bool

-- The end of `runOnceVPN`, when a loop has returned.
unfoldable pub session_end : SessionEnd → Bool → Attempt
session_end by_context cancelled = ended
session_end (by_pump broken) cancelled = if cancelled then ended else lost
session_end (by_pump p) cancelled = ended

-- From the packet stream on.
unfoldable pub serve_packets : Session → Attempt
serve_packets s = elim s.packets [
  | none ↦ lost
  | some w ↦ elim (write_packet_stream_magic w) [
    | err e w' ↦ lost
    | ok _ w' ↦
        if not s.tun_opens || not s.tun_configures then lost else session_end s.ends s.cancelled
  ]
]

unfoldable pub on_vpn_reply : Reply → Session → Attempt
on_vpn_reply unreadable s = lost
on_vpn_reply (denied reason) s = rejected
on_vpn_reply (unexpected type) s = lost
on_vpn_reply (accepted a) s = if str_eq a.vpn_ip [] then lost else serve_packets s

-- `runOnceVPN`, as the loop of `RunVPN` sees its result. The direct connections, which may fail to start,
-- do not change it.
unfoldable pub run_once_vpn : Str → Identity → Session → Attempt
run_once_vpn token i s = elim s.connects [
  | false ↦ lost
  | true ↦ elim s.control [
    | none ↦ lost
    | some control ↦
        let (control', sent) = encode (auth (vpn_auth token i)) control in
        if sent then on_vpn_reply s.reply s else lost
  ]
]

-- `RunVPN`: the loop of `Run`, with no check of the tunnels before it.
unfoldable pub run_vpn : ℕ → Config → List Turn → Trace
run_vpn beyond cfg turns = run_loop beyond cfg.max_attempts 0 turns

-- A round of `vpnControlReader`: whether the context is cancelled or the ticker has fired before it, and
-- then the frame that it waits for: a signal, another frame, or an error of the stream.
pub data Arrival : Type 0 where
  signal : Signal → Arrival
  other closed failed : Arrival

pub record ControlRound : Type 0 where
  pub cancelled : Bool
  pub ticked : Bool
  pub arrival : Arrival

-- `connectPeer`, which the signals lead to, leaves the peers as they are.
unfoldable pub vpn_control_reader : List ControlRound → Control → Peers → Control × Peers × Pump
vpn_control_reader [] control peers = (control, peers, waiting)
vpn_control_reader (t ∷ rounds) control peers = elim t.cancelled [
  | true ↦ (control, peers, stopped)
  | false ↦
      let (control', sent) = if t.ticked then encode ping control else (control, true) in
      elim sent [
        | false ↦ (control', peers, broken)
        | true ↦ elim t.arrival [
          | signal s ↦ vpn_control_reader rounds control' (on_signal s peers)
          | other ↦ vpn_control_reader rounds control' peers
          | closed ↦ (control', peers, stopped)
          | failed ↦ (control', peers, broken)
        ]
      ]
]
