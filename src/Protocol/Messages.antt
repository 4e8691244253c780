-- ===== src/Protocol/Messages.antt =====
-- internal/protocol/protocol.go: the control messages, as values. `Encode` and `ReadEnvelope` pass
-- them over a control stream; their JSON text is not modelled.
use tunel.Prelude.{ℕ, zero, suc, ◌++◌, Bool, true, false, List, [], ◌∷◌, Str, ℤ}

-- The `type` of an envelope; `other` is any text that no constant of the package has.
pub data MessageType : Type 0 where
  msg_auth msg_auth_ok msg_auth_err msg_ping msg_pong msg_goodbye : MessageType
  msg_room_members msg_peer_join msg_peer_leave : MessageType
  other : Str → MessageType

pub record Auth : Type 0 where
  pub token : Str
  pub public_port : ℤ
  pub local_target : Str
  pub proto : Str
  pub vpn_subnet_hint : Str
  pub identity_pubkey : Str
  pub ed_pubkey : Str
  pub stun_endpoint : Str
  pub room : Str
  pub room_password : Str

pub record AuthOk : Type 0 where
  pub session_id : Str
  pub tunnel_id : ℕ
  pub vpn_ip : Str
  pub vpn_mask : Str
  pub vpn_gateway : Str
  pub vpn_subnet : Str
  pub room : Str
  pub room_size : ℕ

pub record PeerInfo : Type 0 where
  pub pubkey : Str
  pub ed_pubkey : Str
  pub ip : Str
  pub stun_endpoint : Str

pub data Message : Type 0 where
  auth : Auth → Message
  auth_ok : AuthOk → Message
  auth_err : Str → Message
  ping pong goodbye : Message
  room_members : List PeerInfo → Message
  peer_join : PeerInfo → Message
  peer_leave : Str → Message

-- A control stream as its writer sees it: what it has taken, and how many more messages it takes.
pub record Control : Type 0 where
  pub sent : List Message
  pub takes : ℕ

-- `Encode`: false is an error of the stream.
unfoldable pub encode : Message → Control → Control × Bool
encode msg c = elim c.takes [
  | zero ↦ (c, false)
  | suc n ↦ (record { sent = c.sent ++ (msg ∷ []); takes = n }, true)
]
