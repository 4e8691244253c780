-- ===== src/Tests/Hubs.antt =====
-- A hub with two rooms, at which the theorems on internal/server/vpn.go apply.
use tunel.Prelude.{
  ℕ, ◌≡◌, ◌≢◌, ◌↔◌, ◌%◌, refl, true, false, List, [], ◌∷◌, Str, str_eq, codes, none, some, arith,
  nat_eq, string_eq,
}
use tunel.Prelude.Map.{get, put}
use tunel.Protocol.Packet.{Ip4}
use tunel.Protocol.Stream.{Reader}
use tunel.Server.Peer.{Peer, deref, alloc, new_vpn_peer}
use tunel.Server.Room.{Room, allocate, allocate_loop, admit, advance, new_room}
use tunel.Server.Room
use tunel.Server.Hub.{
  Hub, failed, bad_password, empty_hub, ensure_room, create_room, alloc_subnet, grant_in,
  grant_peer, route, read_loop, subnet_number, new_hub,
}
use tunel.Server.Hub.Invariant.{IsValid, grant_peer-IsValid}
use tunel.Server.Hub.Access.{route_isolates, password_protects}
use tunel.Server.Hub.Subnets.{room_at, subnet_clash}
use tunel.Server.Hub.History.{Request, grants, releases, receives, lists, answer, answer_all}
use tunel.Server.Hub.ReadLoop.{packets, read_loop_fuel}

empty_hub-IsValid : IsValid empty_hub
unfolding deref get
empty_hub-IsValid = record { fresh = λ p le. refl; all_rooms = tt }

abbrev lobby_name : Str
lobby_name = codes "lobby"

abbrev secret : Str
secret = codes "pw"

abbrev one_room : Hub
one_room = (grant_peer empty_hub 1 lobby_name [] [] [] []).0

abbrev two_rooms : Hub
two_rooms = (grant_peer one_room 2 (codes "cs") secret [] [] []).0

two_rooms-IsValid : IsValid two_rooms
two_rooms-IsValid =
    grant_peer-IsValid one_room 2 (codes "cs") secret [] [] []
      (grant_peer-IsValid empty_hub 1 lobby_name [] [] [] [] empty_hub-IsValid)

abbrev address : ℕ → ℕ → Ip4
address subnet host = record { a = 10; b = 99; c = subnet; d = host }

abbrev in_lobby : Peer
in_lobby = new_vpn_peer lobby_name (address 0 1) 1 [] [] []

abbrev in_game : Peer
in_game = new_vpn_peer (codes "cs") (address 1 1) 2 [] [] []

facts : (deref two_rooms.heap 0 ≡ some in_lobby) × (deref two_rooms.heap 1 ≡ some in_game)
unfolding grant_peer ensure_room create_room alloc_subnet new_room grant_in Room.grant_peer allocate
    allocate_loop admit advance alloc get put deref new_vpn_peer str_eq
facts = (refl, refl)

-- From the peer of the lobby to the address of the other room's.
abbrev packet : List ℕ
packet = 69 ∷ 0 ∷ 0 ∷ 20 ∷ 0 ∷ 0 ∷ 0 ∷ 0 ∷ 64 ∷ 17 ∷ 0 ∷ 0 ∷ 10 ∷ 99 ∷ 0 ∷ 1 ∷ 10 ∷ 99 ∷ 1 ∷ 1 ∷ []

apart : in_game.room ≢ in_lobby.room
unfolding new_vpn_peer
apart e = ground arith

route_isolates_example : deref (route packet 0 two_rooms).heap 1 ≡ some in_game
route_isolates_example =
    route_isolates two_rooms packet 0 1 in_lobby in_game two_rooms-IsValid facts.0 facts.1 apart

game_room : Room
game_room = record {
  name = codes "cs";
  subnet = subnet_number 1;
  is_private = true;
  password = secret;
  peers = (address 1 1, 1) ∷ [];
  by_conn = (2, 1) ∷ [];
  next_ip = 2;
  peer_count = 1;
}

absent : get (codes "cs") one_room.rooms ≡ none
unfolding grant_peer ensure_room create_room alloc_subnet new_room grant_in Room.grant_peer allocate
    allocate_loop admit advance alloc get put deref new_vpn_peer str_eq
absent = refl

with_password : secret ≢ []
with_password e = ground arith

wrong : secret ≢ codes "guess"
wrong e = ground arith

-- The owner sends a packet and leaves, a peer of the lobby joins it and another asks for the members.
abbrev meanwhile : List Request
meanwhile =
    receives 1 packet
    ∷ releases 2
    ∷ grants 4 (codes "cs") secret [] [] []
    ∷ lists 0
    ∷ releases 4
    ∷ []

password_protects_example :
    grant_peer (answer_all two_rooms meanwhile) 3 (codes "cs") (codes "guess") [] [] []
    ≡ (answer_all two_rooms meanwhile, failed bad_password)
password_protects_example =
    password_protects one_room meanwhile 2 3 (codes "cs") secret (codes "guess") [] [] [] [] [] []
      absent with_password wrong

lobby_room : Room
lobby_room = record {
  name = lobby_name;
  subnet = subnet_number 0;
  is_private = false;
  password = [];
  peers = (address 0 1, 0) ∷ [];
  by_conn = (1, 0) ∷ [];
  next_ip = 2;
  peer_count = 1;
}

abbrev asked : List Request
asked = grants 1 lobby_name [] [] [] [] ∷ grants 2 (codes "cs") secret [] [] [] ∷ []

places :
    (room_at 0 (answer_all new_hub.0 asked).rooms ≡ some lobby_room)
    × (room_at 1 (answer_all new_hub.0 asked).rooms ≡ some game_room)
unfolding answer_all answer new_hub grant_peer ensure_room create_room alloc_subnet new_room
    grant_in Room.grant_peer allocate allocate_loop admit advance alloc get put deref new_vpn_peer
    str_eq lobby_room game_room
places = (refl, refl)

subnet_clash_example : (lobby_room.subnet ≡ game_room.subnet) ↔ (0 % 256 ≡ 1 % 256)
subnet_clash_example = subnet_clash asked 0 1 lobby_room game_room places.0 places.1

abbrev stream : Reader
stream = record { pending = packets (packet ∷ [] ∷ packet ∷ []); broken = false }

read_loop_fuel_example :
    ((read_loop 60 0 stream two_rooms).1 ≡ true)
    × (read_loop 60 0 stream two_rooms ≡ read_loop 99 0 stream two_rooms)
read_loop_fuel_example = read_loop_fuel 60 99 0 stream two_rooms (omega arith) (omega arith)
