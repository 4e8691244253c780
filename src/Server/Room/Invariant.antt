-- ===== src/Server/Room/Invariant.antt =====
-- What holds of a room of internal/server/room.go whatever has been asked of it.
use tunel.Prelude.{
  ℕ, ◌≤◌, ◌≡◌, Bool, none, some, arith, ◌==◌, Bool-cases, Option-cases, inl, inr, Str, List, [],
  length, nat_eq, ◌∙◌,
}
use tunel.Prelude.Map.{Map, get, Distinct}
use tunel.Protocol.Packet.{Ip4}
use tunel.Protocol.Packet.Laws.{ip4_eq}
use tunel.Server.Peer.{Peer, Heap, deref, modify, cleanup, send_packet, deref-modify, next-modify}
use tunel.Server.Room.{Room, Subnet, with_host, subnet_base, allocate, new_room}
use tunel.Server.Room.Allocate.{IsHost, allocate-IsHost}

-- Pointers that the heap has not handed out point to nothing.
abbrev pub IsFresh : Heap → Type 0
IsFresh h = (p : ℕ) → h.next ≤ p → deref h p ≡ none

abbrev pub InSubnet : Ip4 → Ip4 → Type 0
InSubnet base ip = (oct : ℕ) × (ip ≡ with_host base oct) × IsHost oct

-- The peer at `p` belongs to the room `name` and has the address `ip`.
abbrev pub Holds : Heap → Str → Ip4 → ℕ → Type 0
Holds h name ip p = (peer : Peer) × (deref h p ≡ some peer) × (peer.ip ≡ ip) × (peer.room ≡ name)

-- The peer at `p` was granted to `conn`, and the room has it under its address.
abbrev pub Serves : Heap → Map Ip4 ℕ → ℕ → ℕ → Type 0
Serves h peers conn p =
    (peer : Peer) × (deref h p ≡ some peer) × (peer.conn ≡ conn) × (get peer.ip peers ≡ some p)

pub record WellFormed (h : Heap) (r : Room) : Type 0 where
  pub cursor : IsHost r.next_ip
  pub distinct : Distinct r.peers
  pub counted : r.peer_count ≡ length r.peers
  pub inside : (ip : Ip4) (p : ℕ) → get ip r.peers ≡ some p → InSubnet (subnet_base r) ip
  pub held : (ip : Ip4) (p : ℕ) → get ip r.peers ≡ some p → Holds h r.name ip p
  pub served : (conn p : ℕ) → get conn r.by_conn ≡ some p → Serves h r.peers conn p

-- A new room is well formed.
pub new_room-WellFormed :
    (h : Heap) (name : Str) (subnet : Subnet) (is_private : Bool) (password : Str) (r : Room)
    → new_room name (some subnet) is_private password ≡ some r
    → WellFormed h r
unfolding new_room get
new_room-WellFormed h name subnet is_private password r e = record {
  cursor = ground arith;
  distinct = let e' : r.peers ≡ [] = ground arith in rw e' tt;
  counted = ground arith;
  inside = λ ip p g. ground arith;
  held = λ ip p g. ground arith;
  served = λ conn p g. ground arith;
}

-- A change of a peer that leaves it who it is.
abbrev pub Keeps : (Peer → Peer) → Type 0
Keeps f =
    (peer : Peer)
    → ((f peer).ip ≡ peer.ip) × ((f peer).room ≡ peer.room) × ((f peer).conn ≡ peer.conn)

pub cleanup-Keeps : Keeps cleanup
unfolding cleanup
cleanup-Keeps peer = ground arith

pub send_packet-Keeps : (pkt : List ℕ) → Keeps (send_packet pkt)
unfolding send_packet
send_packet-Keeps pkt peer = ground arith

pub modify-IsFresh : (f : Peer → Peer) (p : ℕ) (h : Heap) → IsFresh h → IsFresh (modify f p h)
modify-IsFresh f p h fresh q le = elim (Option-cases (deref h q)) [
  | inl gone ↦ ground (arith, deref-modify f p q h)
  | inr (peer, here) ↦ absurd (cc (fresh q (rw (next-modify f p h) at le), here))
]

pub modify-Holds :
    (f : Peer → Peer) (p : ℕ) (h : Heap) (name : Str) (ip : Ip4) (q : ℕ)
    → Keeps f
    → Holds h name ip q
    → Holds (modify f p h) name ip q
modify-Holds f p h name ip q keep (peer, here, at, in_room) = elim (Bool-cases (p == q)) [
  | inl hit ↦ (
    f peer,
    ground (arith, deref-modify f p q h),
    ground (arith, keep peer),
    ground (arith, keep peer),
  )
  | inr miss ↦ (peer, ground (arith, deref-modify f p q h), at, in_room)
]

pub modify-Serves :
    (f : Peer → Peer) (p : ℕ) (h : Heap) (peers : Map Ip4 ℕ) (conn q : ℕ)
    → Keeps f
    → Serves h peers conn q
    → Serves (modify f p h) peers conn q
modify-Serves f p h peers conn q keep (peer, here, of_conn, there) = elim (Bool-cases (p == q)) [
  | inl hit ↦
      let (same_ip, _, same_conn) = keep peer in
      (f peer, ground (arith, deref-modify f p q h), same_conn ∙ of_conn, rw same_ip there)
  | inr miss ↦ (peer, ground (arith, deref-modify f p q h), of_conn, there)
]

pub modify-WellFormed :
    (f : Peer → Peer) (p : ℕ) (h : Heap) (r : Room)
    → Keeps f
    → WellFormed h r
    → WellFormed (modify f p h) r
modify-WellFormed f p h r keep v = record {
  cursor = v.cursor;
  distinct = v.distinct;
  counted = v.counted;
  inside = v.inside;
  held = λ ip q g. modify-Holds f p h r.name ip q keep (v.held ip q g);
  served = λ conn q g. modify-Serves f p h r.peers conn q keep (v.served conn q g);
}

pub allocated-WellFormed : (h : Heap) (r : Room) → WellFormed h r → WellFormed h (allocate r).0
unfolding allocate
allocated-WellFormed h r v = record {
  cursor = allocate-IsHost r v.cursor;
  distinct = v.distinct;
  counted = v.counted;
  inside = v.inside;
  held = v.held;
  served = v.served;
}
