-- ===== src/Server/Dashboard.antt =====
-- What the dashboard of internal/server/dashboard.go shows of the hub: the rows of the page, and the
-- rooms of its JSON. A server with no VPN has no hub.
pub mod Order
pub mod Rows
use tunel.Prelude.{
  ℕ, zero, suc, Bool, true, false, List, [], ◌∷◌, ◌++◌, Str, Option, none, some, codes,
  if◌then◌else◌, length, take, ltb,
}
use tunel.Prelude.Map.{Map}
use tunel.Protocol.Packet.{Ip4}
use tunel.Server.Peer.{Heap, Peer, deref, ip_string}
use tunel.Server.Room.{Room, cidr}
use tunel.Server.Hub.{Hub, all_peers, rooms_list}

pub record PeerRow : Type 0 where
  pub ip : Str
  pub pubkey : Str
  pub endpoint : Str
  pub tx : ℕ
  pub rx : ℕ

abbrev pub row_of : Ip4 → Peer → PeerRow
row_of ip p = record {
  ip = ip_string ip;
  pubkey = p.pubkey;
  endpoint = p.stun_endpoint;
  tx = p.tx_packets;
  rx = p.rx_packets;
}

-- The rows of peers, each with the address it holds itself.
unfoldable pub rows_of : List Peer → List PeerRow
rows_of [] = []
rows_of (p ∷ rest) = row_of p.ip p ∷ rows_of rest

unfoldable pub collect_rows : Option Hub → List PeerRow
collect_rows none = []
collect_rows (some h) = rows_of (all_peers h)

-- The rows of a room, each with the address under which the room has the peer.
unfoldable pub room_rows : Heap → Map Ip4 ℕ → List PeerRow
room_rows heap [] = []
room_rows heap ((ip, p) ∷ rest) = elim (deref heap p) [
  | none ↦ room_rows heap rest
  | some peer ↦ row_of ip peer ∷ room_rows heap rest
]

unfoldable pub collect_room_rows : Heap → Room → List PeerRow
collect_room_rows heap r = room_rows heap r.peers

pub record RoomData : Type 0 where
  pub name : Str
  pub subnet : Str
  pub size : ℕ
  pub rows : List PeerRow

unfoldable pub room_data : Heap → Room → RoomData
room_data heap r =
    let rows' = collect_room_rows heap r in
    record { name = r.name; subnet = cidr r; size = length rows'; rows = rows' }

-- The loop of `renderRoomsJSON`.
unfoldable pub room_items : Heap → List Room → List RoomData
room_items heap [] = []
room_items heap (r ∷ rest) = room_data heap r ∷ room_items heap rest

unfoldable pub render_rooms : Option Hub → List RoomData
render_rooms none = []
render_rooms (some h) = room_items h.heap (rooms_list h)

-- The page's `trunc` of a key.
unfoldable pub trunc : Str → Str
trunc s = if ltb 12 (length s) then take 12 s ++ codes "..." else s
