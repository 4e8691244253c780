-- ===== src/Server/Dashboard/Rows.antt =====
-- The two views of the dashboard of internal/server/dashboard.go, side by side.
use mathlib.Core.List.{Perm}
use tunel.Prelude.{
  ◌+◌, length-append, ℕ, ◌≡◌, refl, List, [], ◌∷◌, ◌++◌, Str, some, arith, length, ap, ◌∙◌,
}
use tunel.Prelude.Map.{Map, get, Distinct}
use tunel.Protocol.Packet.{Ip4}
use tunel.Protocol.Packet.Laws.{ip4_eq}
use tunel.Server.Peer.{Heap, Peer, deref}
use tunel.Server.Room.{Room}
use tunel.Server.Room.Invariant.{WellFormed}
use tunel.Server.Hub.{Hub, all_peers, all_peers_loop, room_peers, rooms_list, rooms_loop}
use tunel.Server.Hub.Invariant.{AllRooms, IsValid}
use tunel.Server.Dashboard.Order.{Reordered, all_peers-Reordered, rows_of-Perm, length-Perm}
use tunel.Server.Dashboard.{
  PeerRow, RoomData, row_of, rows_of, room_rows, room_items, room_data, render_rooms, collect_rows,
  collect_room_rows,
}

-- The rows of all the rooms, in their order.
abbrev pub all_rows : List RoomData → List PeerRow
all_rows [] = []
all_rows (x ∷ rest) = x.rows ++ all_rows rest

-- The sizes of all the rooms together.
abbrev pub total_size : List RoomData → ℕ
total_size [] = 0
total_size (x ∷ rest) = x.size + total_size rest

-- Every entry of a room points to a peer that has the entry's address.
abbrev Kept : Heap → Map Ip4 ℕ → Type 0
Kept heap [] = Unit {0}
Kept heap ((ip, p) ∷ rest) =
    ((peer : Peer) × (deref heap p ≡ some peer) × (peer.ip ≡ ip)) × Kept heap rest

Distinct-Kept :
    (heap : Heap) (m : Map Ip4 ℕ)
    → Distinct m
    → ((ip : Ip4) (p : ℕ)
        → get ip m ≡ some p
        → (peer : Peer) × (deref heap p ≡ some peer) × (peer.ip ≡ ip))
    → Kept heap m
unfolding get
Distinct-Kept heap [] d held = tt
Distinct-Kept heap ((ip, p) ∷ rest) (new, d) held = (
  held ip p (ground (arith, ip4_eq.beq_iff ip ip)),
  Distinct-Kept heap rest d (λ k q g. held k q (ground (arith, ip4_eq.beq_iff ip k))),
)

WellFormed-Kept : (heap : Heap) (r : Room) → WellFormed heap r → Kept heap r.peers
WellFormed-Kept heap r v =
    Distinct-Kept heap r.peers v.distinct
      (λ ip p g. let (peer, at, own, in_room) = v.held ip p g in (peer, at, own))

rows_of-append : (ps qs : List Peer) → rows_of (ps ++ qs) ≡ rows_of ps ++ rows_of qs
unfolding rows_of
rows_of-append [] qs = refl
rows_of-append (p ∷ ps) qs = ap (◌∷◌ (row_of p.ip p)) (rows_of-append ps qs)

rows_of-room_peers :
    (heap : Heap) (m : Map Ip4 ℕ) → Kept heap m → rows_of (room_peers heap m) ≡ room_rows heap m
unfolding rows_of room_rows room_peers
rows_of-room_peers heap [] kept = refl
rows_of-room_peers heap ((ip, p) ∷ rest) ((peer, at, own), kept) =
    ground (arith, at, own, rows_of-room_peers heap rest kept)

rows_agree_loop :
    (heap : Heap) (m : Map Str Room)
    → AllRooms heap m
    → all_rows (room_items heap (rooms_loop m)) ≡ rows_of (all_peers_loop heap m)
unfolding room_items room_data collect_room_rows all_peers_loop rooms_loop rows_of
rows_agree_loop heap [] all = refl
rows_agree_loop heap ((name, r) ∷ m) (v, named, all) =
    let own = rows_of-room_peers heap r.peers (WellFormed-Kept heap r v) in
    let rest = rows_agree_loop heap m all in
    let split = rows_of-append (room_peers heap r.peers) (all_peers_loop heap m) in cc

total_size-all_rows :
    (heap : Heap) (rs : List Room)
    → total_size (room_items heap rs) ≡ length (all_rows (room_items heap rs))
unfolding room_items room_data
total_size-all_rows heap [] = refl
total_size-all_rows heap (r ∷ rs) = ground (
  arith,
  length-append (collect_room_rows heap r) (all_rows (room_items heap rs)),
  total_size-all_rows heap rs,
)

-- On a valid hub the rooms of the JSON have together exactly the rows of the page, each as often, in whatever
-- order the two range over the rooms and the peers; although the first take the address of a peer from the
-- map of the room, and the page takes it from the peer. And the sizes of the rooms add up to the number of
-- peers that the page shows.
pub views_agree :
    (h h' : Hub)
    → IsValid h
    → Reordered h h'
    → Perm (all_rows (render_rooms (some h))) (collect_rows (some h'))
      × (total_size (render_rooms (some h)) ≡ length (collect_rows (some h')))
unfolding render_rooms collect_rows all_peers rooms_list
views_agree h h' v order =
    let same = rows_agree_loop h.heap h.rooms v.all_rooms in
    let other = rows_of-Perm (all_peers-Reordered h h' order) in
    (
      rw same other,
      total_size-all_rows h.heap (rooms_loop h.rooms) ∙ (ap length same ∙ length-Perm other),
    )
