-- ===== src/Client/Tunnels.antt =====
-- The tunnels of a session of the client: `setupTunnel`, `runOnce`, `handleData`, `relayTCP` and
-- `relayUDP` of internal/client/client.go. Dialling a local target and opening a stream are decisions of the
-- surroundings.
pub mod Relay
pub mod Established
use tunel.Prelude.{
  ℕ, zero, suc, Bool, true, false, List, [], ◌∷◌, Str, Option, none, some, codes, if◌then◌else◌,
  nat_eq, str_eq, length, not,
}
use tunel.Prelude.Map.{Map, get, put}
use tunel.Protocol.Stream.{Reader, Writer, Outcome, ok, err, M, ◌>>=◌, ◌>>◌, pure}
use tunel.Protocol.Framing.{
  Frame, hello, datagram, goodbye, read_tunnel_id, read_hello_frame, read_frame,
  write_datagram_frame,
}
use tunel.Protocol.Messages.{Auth, AuthOk, Control, MessageType, auth, encode}
use tunel.Client.Spec.{TunnelSpec}
use tunel.Client.Run.{Attempt, ended, rejected, lost}

pub record RemoteTunnel : Type 0 where
  pub spec : TunnelSpec
  pub local : Str
  pub proto : Str
  pub name : Str

-- The `tuns` of a session.
abbrev pub Session : Type 0
Session = Map ℕ RemoteTunnel

-- The reply to an `Auth`; `accepted` and `denied` have what `Bind` leaves in the value.
pub data Reply : Type 0 where
  unreadable : Reply
  accepted : AuthOk → Reply
  denied : Str → Reply
  unexpected : MessageType → Reply

pub data SetupError : Type 0 where
  open_failed send_failed reply_failed : SetupError
  rejection : Str → SetupError
  unexpected_reply : MessageType → SetupError

abbrev pub proto_of : TunnelSpec → Str
proto_of t = if str_eq t.proto [] then codes "tcp" else t.proto

abbrev pub auth_of : Str → TunnelSpec → Auth
auth_of token t = record {
  token = token;
  public_port = t.public_port;
  local_target = t.local_target;
  proto = proto_of t;
  vpn_subnet_hint = [];
  identity_pubkey = [];
  ed_pubkey = [];
  stun_endpoint = [];
  room = [];
  room_password = [];
}

abbrev pub remote_tunnel : TunnelSpec → RemoteTunnel
remote_tunnel t = record { spec = t; local = t.local_target; proto = proto_of t; name = t.name }

-- A control stream that this end has closed takes no more.
abbrev pub close_control : Control → Control
close_control c = record c { takes = 0 }

-- The switch over the reply: the session, the control stream and the error, if there is one.
unfoldable pub on_reply :
    TunnelSpec → Reply → Control → Session → Session × Control × Option SetupError
on_reply t unreadable control s = (s, control, some reply_failed)
on_reply t (accepted a) control s = (put a.tunnel_id (remote_tunnel t) s, control, none)
on_reply t (denied reason) control s = (s, close_control control, some (rejection reason))
on_reply t (unexpected type) control s = (s, close_control control, some (unexpected_reply type))

-- `setupTunnel` on the stream that `Open` gives, if it gives one.
unfoldable pub setup_tunnel :
    Str
    → TunnelSpec
    → Option Control
    → Reply
    → Session
    → Session × Option Control × Option SetupError
setup_tunnel token t none reply s = (s, none, some open_failed)
setup_tunnel token t (some control) reply s =
    let (control', sent) = encode (auth (auth_of token t)) control in
    if sent
    then (let (s', control'', e) = on_reply t reply control' s in (s', some control'', e))
    else (s, some (close_control control'), some send_failed)

-- One tunnel as its surroundings treat it.
pub record Setup : Type 0 where
  pub spec : TunnelSpec
  pub opened : Option Control
  pub reply : Reply

-- The goroutines that set the tunnels up, in the order in which they reach the session; the errors are
-- those of the channel.
unfoldable pub setup_all : Str → List Setup → Session → Session × List SetupError
setup_all token [] s = (s, [])
setup_all token (u ∷ rest) s =
    let (s', control, e) = setup_tunnel token u.spec u.opened u.reply s in
    let (s'', errors) = setup_all token rest s' in
    elim e [ none ↦ (s'', errors) | some x ↦ (s'', x ∷ errors) ]

-- `isAuthErr`.
unfoldable pub is_auth_err : SetupError → Bool
is_auth_err (rejection reason) = true
is_auth_err e = false

-- `runOnce`, as the loop of `Run` sees its result: whether the server is reached and yamux starts, the
-- set-up of the tunnels, and whether the session ends by a cancelled context. `serveData` itself ends by
-- an error only.
unfoldable pub run_once : Bool → Str → List Setup → Bool → Session × Attempt
run_once connects token setups cancelled =
    if not connects
    then ([], lost)
    else let (s, errors) = setup_all token setups [] in
      elim errors [
        | e ∷ more ↦ (s, if is_auth_err e then rejected else lost)
        | [] ↦ (s, if cancelled then ended else lost)
      ]

-- What becomes of a data stream: nothing, the bytes that go to a local TCP target, or the datagrams that
-- are handed to the socket of a local UDP target.
pub data Relayed : Type 0 where
  dropped : Relayed
  piped : Str → List ℕ → Relayed
  handed : Str → List (List ℕ) → Relayed

-- The direction of `pipeBoth` from the stream to the target.
unfoldable pub relay_tcp : Str → Bool → Reader → Relayed
relay_tcp local dials stream = if dials then piped local stream.pending else dropped

-- The switch over a frame, with what the loop hands over behind it.
unfoldable pub on_frame : Frame → List (List ℕ) → List (List ℕ)
on_frame (hello peer) rest = rest
on_frame (datagram []) rest = rest
on_frame (datagram (x ∷ xs)) rest = (x ∷ xs) ∷ rest
on_frame goodbye rest = []

-- The loop from the stream to the local socket, with fuel for its rounds.
unfoldable pub stream_to_local : ℕ → Reader → List (List ℕ)
stream_to_local zero stream = []
stream_to_local (suc fuel) stream = elim (read_frame stream) [
  | err e stream' ↦ []
  | ok f stream' ↦ on_frame f (stream_to_local fuel stream')
]

-- A round takes a byte at least, so one more than there are bytes is enough.
unfoldable pub relay_udp : Str → Bool → Reader → Relayed
relay_udp local dials stream = elim (read_hello_frame stream) [
  | err e stream' ↦ dropped
  | ok peer stream' ↦
      if dials
      then handed local (stream_to_local (suc (length stream'.pending)) stream')
      else dropped
]

-- The loop from the local socket to the stream, over the datagrams that are read: empty ones too.
unfoldable pub local_to_stream : List (List ℕ) → M Writer (Unit {0})
local_to_stream [] = pure tt
local_to_stream (payload ∷ rest) = do write_datagram_frame payload; local_to_stream rest

-- The dispatch over the transport of a tunnel.
unfoldable pub relay : RemoteTunnel → Bool → Reader → Relayed
relay tun dials stream =
    if str_eq tun.proto (codes "tcp")
    then relay_tcp tun.local dials stream
    else if str_eq tun.proto (codes "udp")
    then relay_udp tun.local dials stream
    else relay_tcp tun.local dials stream

unfoldable pub handle_data : Session → Bool → Reader → Relayed
handle_data s dials stream = elim (read_tunnel_id stream) [
  | err e stream' ↦ dropped
  | ok id stream' ↦ elim (get id s) [ none ↦ dropped | some tun ↦ relay tun dials stream' ]
]
