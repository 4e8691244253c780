-- ===== src/Tests/Dashboards.antt =====
-- A hub with two rooms and three peers, at which the theorem on internal/server/dashboard.go applies.
use mathlib.Core.List.{Perm}
use mathlib.Core.List.Perm
use tunel.Prelude.{ℕ, ◌≡◌, refl, [], ◌∷◌, Str, codes, some, length, string_eq, nat_eq, str_eq}
use tunel.Prelude.Map.{Map, get, put}
use tunel.Protocol.Packet.{Ip4, ip_eq}
use tunel.Server.Peer.{deref, alloc, new_vpn_peer}
use tunel.Server.Room.{Room, allocate, allocate_loop, admit, advance, new_room}
use tunel.Server.Room
use tunel.Server.Hub.{Hub, empty_hub, ensure_room, create_room, alloc_subnet, grant_in, grant_peer}
use tunel.Server.Hub.Invariant.{IsValid, grant_peer-IsValid}
use tunel.Server.Dashboard.{collect_rows, render_rooms}
use tunel.Server.Dashboard.Order.{Reordered}
use tunel.Server.Dashboard.Rows.{all_rows, total_size, views_agree}

abbrev lobby_before : Hub
lobby_before = (grant_peer empty_hub 1 (codes "lobby") [] (codes "aa") [] []).0

abbrev hub_before : Hub
hub_before = (grant_peer lobby_before 2 (codes "cs") (codes "pw") (codes "bb") [] []).0

-- A hub with two rooms, the second with two peers.
abbrev hub : Hub
hub = (grant_peer hub_before 3 (codes "cs") (codes "pw") (codes "cc") [] []).0

hub-IsValid : IsValid hub
unfolding deref get
hub-IsValid = grant_peer-IsValid hub_before 3 (codes "cs") (codes "pw") (codes "cc") [] [] (
    grant_peer-IsValid lobby_before 2 (codes "cs") (codes "pw") (codes "bb") [] [] (
      grant_peer-IsValid empty_hub 1 (codes "lobby") [] (codes "aa") [] []
        (record { fresh = λ p le. refl; all_rooms = tt })))

abbrev back : Map Ip4 ℕ → Map Ip4 ℕ
back (x ∷ y ∷ m) = y ∷ x ∷ m
back m = m

-- The second room before the first, and its peers the other way round.
abbrev turned : Map Str Room → Map Str Room
turned ((name, r) ∷ (name', r') ∷ m) = (name', record r' { peers = back r'.peers }) ∷ (name, r) ∷ m
turned m = m

abbrev other_order : Hub
other_order = record hub { rooms = turned hub.rooms }

hub-Reordered : Reordered hub other_order
unfolding grant_peer ensure_room create_room alloc_subnet new_room grant_in Room.grant_peer allocate
    allocate_loop admit advance alloc get put deref new_vpn_peer str_eq ip_eq
hub-Reordered = (
  _,
  refl,
  refl,
  Perm.swap _ _ [],
  ((refl, refl, Perm.swap _ _ [], (refl, refl, Perm.refl _, tt))),
)

views_agree_example :
    Perm (all_rows (render_rooms (some hub))) (collect_rows (some other_order))
    × (total_size (render_rooms (some hub)) ≡ length (collect_rows (some other_order)))
views_agree_example = views_agree hub other_order hub-IsValid hub-Reordered
