-- ===== src/Server/Hub/Invariant.antt =====
-- What holds of the hub of internal/server/vpn.go whatever has been asked of it.
use tunel.Prelude.{
  ℕ, ◌≡◌, refl, Bool, some, arith, Bool-cases, Option-cases, inl, inr, ◌⊎◌, Str, List, [], ◌∷◌,
  nat_eq, string_eq, str_eq, str_eq_iff, sym, ◌∙◌, ap, ◌&&◌, not,
}
use tunel.Prelude.Map.{Map, get, put, get-put_self}
use tunel.Server.Peer.{Peer, Heap, deref, modify}
use tunel.Server.Room.{Room, Subnet, new_room}
use tunel.Server.Room
use tunel.Protocol.Stream.{Writer}
use tunel.Server.Room.Invariant.{new_room-WellFormed, IsFresh, WellFormed, Keeps, modify-IsFresh}
use tunel.Server.Room.Extends.{
  Extends, Extends-refl, Extends-WellFormed, modify-Extends, grant_peer-Extends,
  release_peer-Extends, route-Extends,
}
use tunel.Server.Room.Grant.{grant_peer-WellFormed}
use tunel.Server.Room.Release.{release_peer-WellFormed}
use tunel.Server.Room.Routing.{route-WellFormed}
use tunel.Server.Hub.{
  Hub, Result, done, failed, HubError, ensure_room, create_room, grant_in, grant_peer, release_loop,
  release_peer, route, attach_packet_stream, find_peer, take_packet, count_rx,
}

-- Every room is well formed, under its own name.
abbrev pub AllRooms : Heap → Map Str Room → Type 0
AllRooms heap [] = Unit {0}
AllRooms heap ((name, r) ∷ m) = WellFormed heap r × (r.name ≡ name) × AllRooms heap m

pub record IsValid (h : Hub) : Type 0 where
  pub fresh : IsFresh h.heap
  pub all_rooms : AllRooms h.heap h.rooms

pub AllRooms-get :
    (heap : Heap) (m : Map Str Room) (name : Str) (r : Room)
    → AllRooms heap m
    → get name m ≡ some r
    → WellFormed heap r × (r.name ≡ name)
unfolding get
AllRooms-get heap [] name r all e = cc
AllRooms-get heap ((name', r') ∷ m) name r (v, named, all) e =
    elim (Bool-cases (str_eq name' name)) [
      | inl hit ↦
          let same : r' ≡ r = ground arith in
          (
            rw (← same) v,
            sym (ap (λ (x : Room). x.name) same) ∙ (named ∙ (str_eq_iff name' name).0 hit),
          )
      | inr miss ↦ AllRooms-get heap m name r all (ground arith)
    ]

AllRooms-put :
    (heap : Heap) (m : Map Str Room) (name : Str) (r : Room)
    → AllRooms heap m
    → WellFormed heap r
    → r.name ≡ name
    → AllRooms heap (put name r m)
unfolding put
AllRooms-put heap [] name r all v named = (v, named, tt)
AllRooms-put heap ((name', r') ∷ m) name r (v', named', all) v named =
    elim (Bool-cases (str_eq name' name)) [
      | inl hit ↦ rw hit (v, named, all)
      | inr miss ↦ rw miss (v', named', AllRooms-put heap m name r all v named)
    ]

AllRooms-Extends :
    (heap heap' : Heap) (m : Map Str Room) → Extends heap heap' → AllRooms heap m → AllRooms heap' m
AllRooms-Extends heap heap' [] ext all = tt
AllRooms-Extends heap heap' ((name, r) ∷ m) ext (v, named, all) =
    (Extends-WellFormed heap heap' r ext v, named, AllRooms-Extends heap heap' m ext all)

pub Result-cases {ℓ} :
    {A : Type ℓ} (r : Result A) → ((e : HubError) × (r ≡ failed e)) ⊎ ((a : A) × (r ≡ done a))
Result-cases (failed e) = inl (e, refl)
Result-cases (done a) = inr (a, refl)

create_room-IsValid :
    (h : Hub) (name password : Str) (is_private : Bool)
    → IsValid h
    → IsValid (create_room h name password is_private).0
unfolding create_room new_room
create_room-IsValid h name password is_private v = record {
  fresh = v.fresh;
  all_rooms =
      AllRooms-put h.heap h.rooms name _ v.all_rooms
        (new_room-WellFormed h.heap name _ is_private password _ refl) refl;
}

-- The room that is asked for, with its name, is the room of the hub.
pub ensure_room-IsValid :
    (h : Hub) (name password : Str) (is_private : Bool)
    → IsValid h
    → IsValid (ensure_room h name password is_private).0
unfolding ensure_room
ensure_room-IsValid h name password is_private v = elim (Option-cases (get name h.rooms)) [
  | inl absent ↦ rw (absent, ensure_room) (create_room-IsValid h name password is_private v)
  | inr (r, present) ↦
      rw (present, ensure_room)
        (elim (Bool-cases (r.is_private && not (str_eq r.password password))) [
          | inl wrong ↦ rw wrong v
          | inr right ↦ rw right v
        ])
]

create_room_done :
    (h : Hub) (name password : Str) (is_private : Bool) (r : Room)
    → (create_room h name password is_private).1 ≡ done r
    → get name (create_room h name password is_private).0.rooms ≡ some r
unfolding create_room new_room
create_room_done h name password is_private r e = ground (arith, get-put_self name r h.rooms)

-- The room that `ensureRoom` returns is the one that the hub then has under the name.
pub ensure_room_done :
    (h : Hub) (name password : Str) (is_private : Bool) (r : Room)
    → (ensure_room h name password is_private).1 ≡ done r
    → get name (ensure_room h name password is_private).0.rooms ≡ some r
unfolding ensure_room
ensure_room_done h name password is_private r e = elim (Option-cases (get name h.rooms)) [
  | inl absent ↦
      rw (absent, ensure_room)
        (create_room_done h name password is_private r (rw (absent, ensure_room) at e))
  | inr (r', present) ↦ ground arith
]

grant_in-IsValid :
    (h : Hub) (name : Str) (r : Room) (conn : ℕ) (pubkey ed_pubkey endpoint : Str)
    → IsValid h
    → get name h.rooms ≡ some r
    → IsValid (grant_in h name r conn pubkey ed_pubkey endpoint).0
unfolding grant_in
grant_in-IsValid h name r conn pubkey ed_pubkey endpoint v e =
    let (right, named) = AllRooms-get h.heap h.rooms name r v.all_rooms e in
    let (fresh', right') =
      grant_peer-WellFormed h.heap r conn pubkey ed_pubkey endpoint v.fresh right in
    let (ext, same_name, _) = grant_peer-Extends h.heap r conn pubkey ed_pubkey endpoint v.fresh in
    let heap' : Heap = (Room.grant_peer h.heap r conn pubkey ed_pubkey endpoint).0 in
    let all =
      AllRooms-put heap' h.rooms name _ (AllRooms-Extends h.heap heap' h.rooms ext v.all_rooms)
        right' (same_name ∙ named) in
    elim (Option-cases (Room.grant_peer h.heap r conn pubkey ed_pubkey endpoint).2) [
      | inl absent ↦ rw (absent, grant_in) (record { fresh = fresh'; all_rooms = all })
      | inr (p, found) ↦ rw (found, grant_in) (record { fresh = fresh'; all_rooms = all })
    ]

release_loop-AllRooms :
    (heap : Heap) (conn : ℕ) (m : Map Str Room)
    → IsFresh heap
    → AllRooms heap m
    → let out = release_loop heap conn m in
      IsFresh out.0 × Extends heap out.0 × AllRooms out.0 out.1
unfolding release_loop
release_loop-AllRooms heap conn [] fresh all = (fresh, Extends-refl heap, tt)
release_loop-AllRooms heap conn ((name, r) ∷ m) fresh (v, named, all) =
    let (fresh', v') = release_peer-WellFormed heap r conn fresh v in
    let (ext, same_name, _) = release_peer-Extends heap r conn v in
    let (fresh'', ext'', all'') = release_loop-AllRooms heap conn m fresh all in
    elim (Option-cases (Room.release_peer heap r conn).2) [
      | inl absent ↦
          rw (absent, release_loop)
            (fresh'', ext'', (Extends-WellFormed heap _ r ext'' v, named, all''))
      | inr (p, found) ↦
          rw (found, release_loop)
            (fresh', ext, (v', same_name ∙ named, AllRooms-Extends heap _ m ext all))
    ]

pub grant_peer-IsValid :
    (h : Hub) (conn : ℕ) (room_name room_pass pubkey ed_pubkey endpoint : Str)
    → IsValid h
    → IsValid (grant_peer h conn room_name room_pass pubkey ed_pubkey endpoint).0
unfolding grant_peer
grant_peer-IsValid h conn room_name room_pass pubkey ed_pubkey endpoint v =
    elim (Result-cases (ensure_room h room_name room_pass (not (str_eq room_pass []))).1) [
      | inl (err, e) ↦ rw (e, grant_peer) (ensure_room-IsValid h room_name room_pass _ v)
      | inr (r, e) ↦
          rw (e, grant_peer)
            (grant_in-IsValid _ room_name r conn pubkey ed_pubkey endpoint
              (ensure_room-IsValid h room_name room_pass _ v)
              (ensure_room_done h room_name room_pass _ r e))
    ]

pub release_peer-IsValid : (h : Hub) (conn : ℕ) → IsValid h → IsValid (release_peer h conn)
unfolding release_peer
release_peer-IsValid h conn v =
    let (fresh, ext, all) = release_loop-AllRooms h.heap conn h.rooms v.fresh v.all_rooms in
    record { fresh = fresh; all_rooms = all }

-- A change of one peer that leaves it who it is.
pub modified-IsValid :
    (f : Peer → Peer) (p : ℕ) (h : Hub)
    → Keeps f
    → IsValid h
    → IsValid (record h { heap = modify f p h.heap })
modified-IsValid f p h keep v = record {
  fresh = modify-IsFresh f p h.heap v.fresh;
  all_rooms = AllRooms-Extends h.heap _ h.rooms (modify-Extends f p h.heap keep) v.all_rooms;
}

pub attach_packet_stream-IsValid :
    (h : Hub) (conn : ℕ) (stream : Writer)
    → IsValid h
    → IsValid (attach_packet_stream h conn stream).0
unfolding attach_packet_stream
attach_packet_stream-IsValid h conn stream v = elim (Option-cases (find_peer conn h.rooms)) [
  | inl absent ↦ rw (absent, attach_packet_stream) v
  | inr (p, found) ↦
      rw (found, attach_packet_stream)
        (modified-IsValid (λ peer. record peer { pkts = some stream }) p h
          (λ peer. (refl, refl, refl)) v)
]

pub route-IsValid : (pkt : List ℕ) (from : ℕ) (h : Hub) → IsValid h → IsValid (route pkt from h)
unfolding route
route-IsValid pkt from h v = elim (Option-cases (deref h.heap from)) [
  | inl gone ↦ rw (gone, route) v
  | inr (peer, here) ↦
      rw (here, route)
        (elim (Option-cases (get peer.room h.rooms)) [
          | inl no_room ↦ rw no_room v
          | inr (r, found) ↦
              let (right, _) = AllRooms-get h.heap h.rooms peer.room r v.all_rooms found in
              rw found (record {
                fresh = (route-WellFormed h.heap r r pkt from v.fresh right).0;
                all_rooms =
                    AllRooms-Extends h.heap _ h.rooms (route-Extends h.heap r pkt from) v.all_rooms;
              })
        ])
]

pub take_packet-IsValid :
    (p : ℕ) (pkt : List ℕ) (h : Hub) → IsValid h → IsValid (take_packet p pkt h)
unfolding take_packet
take_packet-IsValid p pkt h v =
    route-IsValid pkt p _ (modified-IsValid count_rx p h (λ peer. (refl, refl, refl)) v)
