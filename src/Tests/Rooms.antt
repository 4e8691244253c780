-- ===== src/Tests/Rooms.antt =====
-- A room with peers, and a hub with rooms, at which the theorems on the VPN of internal/server apply.
use tunel.Prelude.{
  arith, ℕ, ◌≡◌, ◌↔◌, refl, false, List, [], ◌∷◌, codes, none, some, nat_eq, if◌then◌else◌,
}
use tunel.Prelude.Map.{Map, Distinct, get, put}
use tunel.Protocol.Packet.{Ip4, ip_eq}
use tunel.Protocol.Packet.Laws.{ip4_eq}
use tunel.Server.Room.Allocate.{IsFull, allocate-IsFull}
use tunel.Server.Room.Routing.{is_receiver, applied, deref-route}
use tunel.Server.Room
use tunel.Server.Room.Order.{SameEntries, route_any_order}
use tunel.Server.Peer.{new_vpn_peer, send_packet, Heap, deref, alloc}
use tunel.Server.Room.{
  Room, subnet_base, new_room, allocate, allocate_loop, admit, advance, grant_peer,
}
use tunel.Server.Room.Invariant.{new_room-WellFormed}
use tunel.Server.Room.History.{
  grants, releases, routes, step, run, Sound, step-Sound, run-Sound, second_grant_leaks,
}
use tunel.Server.Hub.{subnet_number}

abbrev lobby : Room
lobby = record {
  name = codes "lobby";
  subnet = subnet_number 0;
  is_private = false;
  password = [];
  peers = [];
  by_conn = [];
  next_ip = 1;
  peer_count = 0;
}

abbrev empty : Heap
empty = record { next = 0; cells = [] }

empty-lobby-Sound : Sound (empty, lobby)
unfolding deref get new_room
empty-lobby-Sound = (
  (λ p le. refl),
  new_room-WellFormed empty (codes "lobby") (subnet_number 0) false [] lobby refl,
)

-- The room after connection 1 has joined.
abbrev joined : Heap × Room
joined = step (empty, lobby) (grants 1 (codes "aa") [] [])

joined-Sound : Sound joined
joined-Sound = step-Sound (empty, lobby) (grants 1 (codes "aa") [] []) empty-lobby-Sound

linked : get 1 joined.1.by_conn ≡ some 0
unfolding step grant_peer allocate allocate_loop admit advance alloc get put
linked = refl

abbrev address : ℕ → ℕ → Ip4
address subnet host = record { a = 10; b = 99; c = subnet; d = host }

peer_0 : deref joined.0 0 ≡ some (new_vpn_peer (codes "lobby") (address 0 1) 1 (codes "aa") [] [])
unfolding step grant_peer allocate allocate_loop admit advance alloc get put deref new_vpn_peer
peer_0 = refl

second : (grant_peer joined.0 joined.1 1 (codes "aa") [] []).2 ≡ some 1
unfolding step grant_peer allocate allocate_loop admit advance alloc get put ip_eq
second = refl

allocate-IsFull_example : ((allocate joined.1).1 ≡ none) ↔ IsFull joined.1
allocate-IsFull_example = allocate-IsFull joined.1 joined-Sound.1.cursor

run-Sound_example :
    Sound
      (run (empty, lobby) (grants 1 [] [] [] ∷ grants 2 [] [] [] ∷ releases 1 ∷ routes [] 1 ∷ []))
run-Sound_example =
    run-Sound (empty, lobby) (grants 1 [] [] [] ∷ grants 2 [] [] [] ∷ releases 1 ∷ routes [] 1 ∷ [])
      empty-lobby-Sound

second_grant_leaks_example :
    get
      (address 0 1)
      (run
        (step joined (grants 1 (codes "aa") [] []))
        (releases 1 ∷ grants 2 [] [] [] ∷ [])).1.peers
    ≡ some 0
unfolding new_vpn_peer
second_grant_leaks_example =
    second_grant_leaks joined.0 joined.1 1 (codes "aa") [] [] 0 1
      (new_vpn_peer (codes "lobby") (address 0 1) 1 (codes "aa") [] [])
      (releases 1 ∷ grants 2 [] [] [] ∷ []) joined-Sound linked peer_0 second

-- To everybody.
abbrev shout : List ℕ
shout = 69 ∷ 0 ∷ 0 ∷ 20 ∷ 0 ∷ 0 ∷ 0 ∷ 0 ∷ 64 ∷ 17 ∷ 0 ∷ 0 ∷ 10 ∷ 99 ∷ 0 ∷ 1 ∷ 10 ∷ 99 ∷ 0 ∷ 255 ∷ []

deref-route_example : deref (Room.route joined.1 shout 7 joined.0) 0 ≡ (
    if is_receiver joined.1 shout 7 0
    then applied (send_packet shout) (deref joined.0 0)
    else deref joined.0 0)
deref-route_example = deref-route joined.0 joined.1 shout 7 0 joined-Sound.1

-- Connection 2 has joined as well.
abbrev both : Heap × Room
both = step joined (grants 2 [] [] [])

both-Sound : Sound both
both-Sound = step-Sound joined (grants 2 [] [] []) joined-Sound

abbrev turned : Map Ip4 ℕ
turned = (address 0 2, 1) ∷ (address 0 1, 0) ∷ []

turned-Distinct : Distinct turned
unfolding get ip_eq
turned-Distinct = (refl, (refl, tt))

in_order : both.1.peers ≡ (address 0 1, 0) ∷ (address 0 2, 1) ∷ []
unfolding step grant_peer allocate allocate_loop admit advance alloc get put ip_eq
in_order = refl

turned-SameEntries : SameEntries both.1.peers turned
unfolding get
turned-SameEntries ip =
    rw in_order (ground (arith, ip4_eq.beq_iff (address 0 1) ip, ip4_eq.beq_iff (address 0 2) ip))

route_any_order_example :
    deref (Room.route both.1 shout 0 both.0) 1
    ≡ deref (Room.route (record both.1 { peers = turned }) shout 0 both.0) 1
route_any_order_example =
    route_any_order both.0 both.1 turned shout 0 1 both-Sound.1 turned-Distinct turned-SameEntries
