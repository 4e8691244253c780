-- ===== src/Server/Hub.antt =====
-- internal/server/vpn.go: the hub, which holds the rooms of the VPN and their peers.
pub mod Invariant
pub mod Access
pub mod Subnets
pub mod ReadLoop
pub mod History
use tunel.Prelude.{
  ℕ, zero, suc, ◌+◌, Bool, true, false, List, [], ◌∷◌, ◌++◌, Str, Option, none, some, arith, codes,
  if◌then◌else◌, nat_eq, string_eq, str_eq, ◌==◌, ◌&&◌, not, length,
}
use tunel.Prelude.Map.{Map, get, put}
use tunel.Protocol.Stream.{Reader, Writer, Outcome, ok, err, byte}
use tunel.Protocol.Packet.{Ip4, read_packet, max_packet_len}
use tunel.Protocol.Packet.Laws.{ip4_eq}
use tunel.Protocol.Messages.{PeerInfo, Message, room_members, peer_join, peer_leave}
use tunel.Server.Peer.{Heap, Peer, deref, modify, notify, peer_info, ip_string, add_one}
use tunel.Server.Room.{Room, Subnet, new_room, peers_snapshot}
use tunel.Server.Room

pub record Hub : Type 0 where
  pub rooms : Map Str Room
  pub heap : Heap
  pub next_subnet : ℕ

pub data HubError : Type 0 where
  bad_password no_ipv4 room_full no_peer : HubError

pub data Result {ℓ} (A : Type ℓ) : Type ℓ where
  done : A → Result A
  failed : HubError → Result A

abbrev pub lobby : Str
lobby = codes "lobby"

-- `net.CIDRMask(24, 32)`.
abbrev pub mask24 : Ip4
mask24 = record { a = 255; b = 255; c = 255; d = 0 }

abbrev pub subnet_number : ℕ → Subnet
subnet_number x = record { ip = record { a = 10; b = 99; c = x; d = 0 }; mask = mask24 }

-- The number of a room's subnet is a byte.
unfoldable pub alloc_subnet : Hub → Hub × Subnet
alloc_subnet h = (record h { next_subnet = byte (h.next_subnet + 1) }, subnet_number h.next_subnet)

unfoldable pub create_room : Hub → Str → Str → Bool → Hub × Result Room
unfolding alloc_subnet
create_room h name password is_private =
    let (h', subnet) = alloc_subnet h in
    elim (new_room name (some subnet) is_private password) [
      | none ↦ (h', failed no_ipv4)
      | some r ↦ (record h' { rooms = put name r h'.rooms }, done r)
    ]

unfoldable pub ensure_room : Hub → Str → Str → Bool → Hub × Result Room
unfolding create_room
ensure_room h name password is_private = elim (get name h.rooms) [
  | some r ↦
      if r.is_private && not (str_eq r.password password)
      then (h, failed bad_password)
      else (h, done r)
  | none ↦ create_room h name password is_private
]

abbrev pub empty_hub : Hub
empty_hub = record { rooms = []; heap = record { next = 0; cells = [] }; next_subnet = 0 }

unfoldable pub new_hub : Hub × Result Room
new_hub = ensure_room empty_hub lobby [] false

-- `room.grantPeer` on a room of the hub.
unfoldable pub grant_in : Hub → Str → Room → ℕ → Str → Str → Str → Hub × Result ℕ
grant_in h name r conn pubkey ed_pubkey endpoint =
    let (heap', r', found) = Room.grant_peer h.heap r conn pubkey ed_pubkey endpoint in
    let h' : Hub = record h { heap = heap'; rooms = put name r' h.rooms } in
    elim found [ none ↦ (h', failed room_full) | some p ↦ (h', done p) ]

-- A room that this call creates is private if there is a password.
unfoldable pub grant_peer : Hub → ℕ → Str → Str → Str → Str → Str → Hub × Result ℕ
unfolding grant_in
grant_peer h conn room_name room_pass pubkey ed_pubkey endpoint =
    let (h', room) = ensure_room h room_name room_pass (not (str_eq room_pass [])) in
    elim room [
      | failed e ↦ (h', failed e)
      | done r ↦ grant_in h' room_name r conn pubkey ed_pubkey endpoint
    ]

-- The loop of `releasePeer`, over the rooms that are left.
unfoldable pub release_loop : Heap → ℕ → Map Str Room → Heap × Map Str Room
release_loop heap conn [] = (heap, [])
release_loop heap conn ((name, r) ∷ rest) =
    let (heap', r', found) = Room.release_peer heap r conn in
    let (heap'', rest') = release_loop heap conn rest in
    elim found [ none ↦ (heap'', (name, r) ∷ rest') | some p ↦ (heap', (name, r') ∷ rest) ]

unfoldable pub release_peer : Hub → ℕ → Hub
release_peer h conn =
    let (heap', rooms') = release_loop h.heap conn h.rooms in
    record h { heap = heap'; rooms = rooms' }

-- `from.room.route`.
unfoldable pub route : List ℕ → ℕ → Hub → Hub
route pkt from h = elim (deref h.heap from) [
  | none ↦ h
  | some peer ↦ elim (get peer.room h.rooms) [
    | none ↦ h
    | some r ↦ record h { heap = Room.route r pkt from h.heap }
  ]
]

-- The first room that knows the connection.
unfoldable pub find_peer : ℕ → Map Str Room → Option ℕ
find_peer conn [] = none
find_peer conn ((name, r) ∷ rest) =
    let later = find_peer conn rest in elim (get conn r.by_conn) [ some p ↦ some p | none ↦ later ]

-- The result names the peer whose `readLoop` is started.
unfoldable pub attach_packet_stream : Hub → ℕ → Writer → Hub × Result ℕ
attach_packet_stream h conn stream = elim (find_peer conn h.rooms) [
  | none ↦ (h, failed no_peer)
  | some p ↦
      (record h { heap = modify (λ peer. record peer { pkts = some stream }) p h.heap }, done p)
]

abbrev pub count_rx : Peer → Peer
count_rx peer = record peer { rx_packets = add_one peer.rx_packets }

-- What `readLoop` does with a packet that is not empty.
unfoldable pub take_packet : ℕ → List ℕ → Hub → Hub
take_packet p pkt h = route pkt p (record h { heap = modify count_rx p h.heap })

-- `readLoop`, with fuel for the rounds, and whether it has returned: it does at an error of the stream, and
-- has not when the rounds are over.
unfoldable pub read_loop : ℕ → ℕ → Reader → Hub → Hub × Bool
read_loop zero p stream h = (h, false)
read_loop (suc fuel) p stream h = elim (read_packet max_packet_len stream) [
  | err e stream' ↦ (h, true)
  | ok pkt stream' ↦ read_loop fuel p stream' (if length pkt == 0 then h else take_packet p pkt h)
]

unfoldable pub send_room_members : ℕ → Hub → Hub
send_room_members p h = elim (deref h.heap p) [
  | none ↦ h
  | some peer ↦ elim (get peer.room h.rooms) [
    | none ↦ h
    | some r ↦ record h { heap = modify (notify (room_members (peers_snapshot h.heap r))) p h.heap }
  ]
]

-- The loop of `notifyJoin` and of `notifyLeave`: a peer with no control stream is passed over.
unfoldable pub notify_loop : Message → ℕ → Map Ip4 ℕ → Heap → Heap
notify_loop msg src [] heap = heap
notify_loop msg src ((ip, p) ∷ rest) heap =
    notify_loop msg src rest (if p == src then heap else modify (notify msg) p heap)

unfoldable pub notify_join : ℕ → Room → Hub → Hub
notify_join src r h = elim (deref h.heap src) [
  | none ↦ h
  | some peer ↦ record h { heap = notify_loop (peer_join (peer_info peer)) src r.peers h.heap }
]

unfoldable pub notify_leave : ℕ → Room → Hub → Hub
notify_leave src r h = elim (deref h.heap src) [
  | none ↦ h
  | some peer ↦ record h { heap = notify_loop (peer_leave (ip_string peer.ip)) src r.peers h.heap }
]

unfoldable pub room_peers : Heap → Map Ip4 ℕ → List Peer
room_peers heap [] = []
room_peers heap ((ip, p) ∷ rest) = elim (deref heap p) [
  | none ↦ room_peers heap rest
  | some peer ↦ peer ∷ room_peers heap rest
]

unfoldable pub all_peers_loop : Heap → Map Str Room → List Peer
all_peers_loop heap [] = []
all_peers_loop heap ((name, r) ∷ rest) = room_peers heap r.peers ++ all_peers_loop heap rest

unfoldable pub all_peers : Hub → List Peer
all_peers h = all_peers_loop h.heap h.rooms

unfoldable pub rooms_loop : Map Str Room → List Room
rooms_loop [] = []
rooms_loop ((name, r) ∷ rest) = r ∷ rooms_loop rest

unfoldable pub rooms_list : Hub → List Room
rooms_list h = rooms_loop h.rooms
