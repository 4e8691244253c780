-- ===== src/Server/Dashboard/Order.antt =====
-- The orders in which allPeers of internal/server/vpn.go may range over the rooms and their peers.
use mathlib.Core.List.{Perm, Permᴰ, Perm-prop, perm_append_comm}
use mathlib.Core.List.Perm
use mathlib.Core.Logic.{∥∥₁_map, ∥∥₁_elim}
use native.Mathlib.Nat.{ℕ_set}
use tunel.Prelude.{
  ℕ, suc, append_assoc, ◌≡◌, refl, List, [], ◌∷◌, ◌++◌, Str, none, some, length, ap, ◌∙◌,
  Option-cases, inl, inr,
}
use tunel.Prelude.Map.{Map}
use tunel.Protocol.Packet.{Ip4}
use tunel.Server.Peer.{Heap, Peer, deref}
use tunel.Server.Room.{Room}
use tunel.Server.Hub.{Hub, all_peers, all_peers_loop, room_peers}
use tunel.Server.Dashboard.{PeerRow, row_of, rows_of}

-- The rooms one by one, the peers of each in some other order.
abbrev pub SameRooms : Map Str Room → Map Str Room → Type 0
SameRooms [] [] = Unit {0}
SameRooms ((name, r) ∷ m) ((name', r') ∷ m') =
    (name' ≡ name) × (r' ≡ record r { peers = r'.peers }) × Perm r.peers r'.peers × SameRooms m m'
SameRooms m m' = ⊥

-- The same hub, with its rooms in some other order, and the peers of each room.
abbrev pub Reordered : Hub → Hub → Type 0
Reordered h h' =
    (mid : Map Str Room) × (h'.heap ≡ h.heap)
    × (h'.next_subnet ≡ h.next_subnet)
    × Perm h.rooms mid
    × SameRooms mid h'.rooms

length-Permᴰ : {A : Type 0} {xs ys : List A} → Permᴰ xs ys → length xs ≡ length ys
length-Permᴰ Permᴰ.nil = refl
length-Permᴰ (Permᴰ.cons e d) = ap suc (length-Permᴰ d)
length-Permᴰ (Permᴰ.swap e e') = refl
length-Permᴰ (Permᴰ.trans d d') = length-Permᴰ d ∙ length-Permᴰ d'

pub length-Perm : {A : Type 0} {xs ys : List A} → Perm xs ys → length xs ≡ length ys
length-Perm p = ∥∥₁_elim p (ℕ_set _ _) length-Permᴰ

pub rows_of-Perm : {ps qs : List Peer} → Perm ps qs → Perm (rows_of ps) (rows_of qs)
unfolding rows_of
rows_of-Perm {ps} {qs} p = ∥∥₁_map {B = Permᴰ (rows_of ps) (rows_of qs)} p steps
  where
    own : Peer → PeerRow
    own p = row_of p.ip p

    steps : {ps qs : List Peer} → Permᴰ ps qs → Permᴰ (rows_of ps) (rows_of qs)
    steps Permᴰ.nil = Permᴰ.nil
    steps (Permᴰ.cons e d) = Permᴰ.cons (ap own e) (steps d)
    steps (Permᴰ.swap e e') = Permᴰ.swap (ap own e) (ap own e')
    steps (Permᴰ.trans d d') = Permᴰ.trans (steps d) (steps d')

-- What a range adds to a list, entry by entry.
gather : {A B : Type 0} → (A → List B) → List A → List B
gather f [] = []
gather f (x ∷ xs) = f x ++ gather f xs

swap_blocks : {B : Type 0} (xs ys zs : List B) → Perm (xs ++ (ys ++ zs)) (ys ++ (xs ++ zs))
swap_blocks xs ys zs =
    rw (← append_assoc xs ys zs, ← append_assoc ys xs zs)
      (Perm.append_right zs (perm_append_comm xs ys))

gather-Permᴰ :
    {A B : Type 0} (f : A → List B) {xs ys : List A}
    → Permᴰ xs ys
    → Perm (gather f xs) (gather f ys)
unfolding gather
gather-Permᴰ f Permᴰ.nil = Perm.refl []
gather-Permᴰ f (Permᴰ.cons {a = a} {l₁ = l₁} {l₂ = l₂} e d) =
    rw (← e) (Perm.append_left (f a) (gather-Permᴰ f d))
gather-Permᴰ f (Permᴰ.swap {a = a} {b = b} {l = l} e e') =
    rw (← e, ← e') (swap_blocks (f a) (f b) (gather f l))
gather-Permᴰ f (Permᴰ.trans d d') = Perm.trans (gather-Permᴰ f d) (gather-Permᴰ f d')

gather-Perm :
    {A B : Type 0} (f : A → List B) {xs ys : List A} → Perm xs ys → Perm (gather f xs) (gather f ys)
gather-Perm f {xs} {ys} p = ∥∥₁_elim p Perm-prop (gather-Permᴰ f)

peer_at : Heap → Ip4 × ℕ → List Peer
peer_at heap entry = elim (deref heap entry.1) [ none ↦ [] | some peer ↦ peer ∷ [] ]

room_peers-gather : (heap : Heap) (m : Map Ip4 ℕ) → room_peers heap m ≡ gather (peer_at heap) m
unfolding room_peers gather peer_at
room_peers-gather heap [] = refl
room_peers-gather heap ((ip, p) ∷ m) = elim (Option-cases (deref heap p)) [
  | inl gone ↦ rw (gone, room_peers, peer_at) (room_peers-gather heap m)
  | inr (peer, here) ↦ rw (here, room_peers, peer_at) (ap (◌∷◌ peer) (room_peers-gather heap m))
]

room_peers-Perm :
    (heap : Heap) (m n : Map Ip4 ℕ) → Perm m n → Perm (room_peers heap m) (room_peers heap n)
room_peers-Perm heap m n p =
    rw (room_peers-gather heap m, room_peers-gather heap n) (gather-Perm (peer_at heap) p)

all_peers_loop-gather :
    (heap : Heap) (m : Map Str Room)
    → all_peers_loop heap m ≡ gather (λ (entry : Str × Room). room_peers heap entry.1.peers) m
unfolding all_peers_loop gather
all_peers_loop-gather heap [] = refl
all_peers_loop-gather heap ((name, r) ∷ m) =
    ap (λ rest. room_peers heap r.peers ++ rest) (all_peers_loop-gather heap m)

all_peers_loop-SameRooms :
    (heap : Heap) (m n : Map Str Room)
    → SameRooms m n
    → Perm (all_peers_loop heap m) (all_peers_loop heap n)
unfolding all_peers_loop
all_peers_loop-SameRooms heap [] [] same = Perm.refl []
all_peers_loop-SameRooms heap [] ((name', r') ∷ n) same = absurd same
all_peers_loop-SameRooms heap ((name, r) ∷ m) [] same = absurd same
all_peers_loop-SameRooms heap ((name, r) ∷ m) ((name', r') ∷ n) (e, e', p, same) =
    Perm.append (room_peers-Perm heap r.peers r'.peers p) (all_peers_loop-SameRooms heap m n same)

-- `allPeers` finds the same peers, in whatever order it visits the rooms and their peers.
pub all_peers-Reordered : (h h' : Hub) → Reordered h h' → Perm (all_peers h) (all_peers h')
unfolding all_peers
all_peers-Reordered h h' (mid, heap, next, p, same) = rw heap (
    Perm.trans
      (rw (all_peers_loop-gather h.heap h.rooms, all_peers_loop-gather h.heap mid)
        (gather-Perm _ p))
      (all_peers_loop-SameRooms h.heap mid h'.rooms same))
