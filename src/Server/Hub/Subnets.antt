-- ===== src/Server/Hub/Subnets.antt =====
-- The subnets that the hub of internal/server/vpn.go gives to its rooms.
use tunel.Prelude.{
  ℕ, zero, suc, ◌+◌, ◌%◌, ◌≡◌, refl, Bool, Option, none, some, arith, Bool-cases, Option-cases, inl,
  inr, ◌↔◌, Str, List, false, [], ◌∷◌, string_eq, str_eq, sym, ◌∙◌, not, ◌&&◌, ap, length,
}
use tunel.Prelude.Map.{Map, get, put}
use tunel.Server.Room.{Room, Subnet, new_room, admit, remove, allocate}
use tunel.Server.Hub.{
  Hub, subnet_number, ensure_room, create_room, grant_in, grant_peer, release_loop, release_peer,
  new_hub, empty_hub, lobby,
}
use tunel.Server.Hub.Invariant.{Result-cases, ensure_room_done}
use tunel.Server.Hub.History.{Request, answer_all, SameRooms, answer_all-keeps}
use tunel.Server.Peer.{Heap}
use tunel.Server.Room

-- The rooms in the order of their creation, with the numbers of their subnets from `i` on.
abbrev Numbered : ℕ → Map Str Room → Type 0
Numbered i [] = Unit {0}
Numbered i ((name, r) ∷ m) = (r.subnet ≡ subnet_number (i % 256)) × Numbered (suc i) m

record IsNumbered (h : Hub) : Type 0 where
  in_order : Numbered 0 h.rooms
  next_is_count : h.next_subnet ≡ length h.rooms % 256

put_new :
    (name : Str) (r : Room) (i : ℕ) (m : Map Str Room)
    → get name m ≡ none
    → Numbered i m
    → r.subnet ≡ subnet_number ((i + length m) % 256)
    → Numbered i (put name r m) × (length (put name r m) ≡ suc (length m))
unfolding get put
put_new name r i [] new n e =
    let same : (i + 0) % 256 ≡ i % 256 = omega arith in ((e ∙ ap subnet_number same, tt), refl)
put_new name r i ((name', r') ∷ m) new (e', n) e = elim (Bool-cases (str_eq name' name)) [
  | inl hit ↦ ground arith
  | inr miss ↦
      let same : (i + suc (length m)) % 256 ≡ (suc i + length m) % 256 = omega arith in
      let (n', l) = put_new name r (suc i) m (ground arith) n (e ∙ ap subnet_number same) in
      rw miss ((e', n'), ap suc l)
]

put_old :
    (name : Str) (r old : Room) (i : ℕ) (m : Map Str Room)
    → get name m ≡ some old
    → Numbered i m
    → r.subnet ≡ old.subnet
    → Numbered i (put name r m) × (length (put name r m) ≡ length m)
unfolding get put
put_old name r old i [] there n e = cc
put_old name r old i ((name', r') ∷ m) there (e', n) e = elim (Bool-cases (str_eq name' name)) [
  | inl hit ↦
      let same : r' ≡ old = ground arith in
      rw hit ((e ∙ (sym (ap (λ (x : Room). x.subnet) same) ∙ e'), n), refl)
  | inr miss ↦
      let (n', l) = put_old name r old (suc i) m (ground arith) n e in rw miss ((e', n'), ap suc l)
]

created-IsNumbered :
    (h : Hub) (name password : Str) (is_private : Bool)
    → get name h.rooms ≡ none
    → IsNumbered h
    → IsNumbered (create_room h name password is_private).0
unfolding create_room new_room
created-IsNumbered h name password is_private absent v =
    let new : Room = record {
      name = name;
      subnet = subnet_number h.next_subnet;
      is_private = is_private;
      password = password;
      peers = [];
      by_conn = [];
      next_ip = 1;
      peer_count = 0;
    } in
    let (n, l) =
      put_new name new 0 h.rooms absent v.in_order
        (ap subnet_number (omega (arith, v.next_is_count))) in
    record { in_order = n; next_is_count = omega (arith, l, v.next_is_count) }

-- `ensureRoom` numbers the subnets of the rooms in the order of their creation, by one byte.
ensure_room-IsNumbered :
    (h : Hub) (name password : Str) (is_private : Bool)
    → IsNumbered h
    → IsNumbered (ensure_room h name password is_private).0
unfolding ensure_room
ensure_room-IsNumbered h name password is_private v = elim (Option-cases (get name h.rooms)) [
  | inl absent ↦ rw (absent, ensure_room) (created-IsNumbered h name password is_private absent v)
  | inr (r, present) ↦
      rw (present, ensure_room)
        (elim (Bool-cases (r.is_private && not (str_eq r.password password))) [
          | inl wrong ↦ rw wrong v
          | inr right ↦ rw right v
        ])
]

grant_keeps_subnet :
    (heap : Heap) (r : Room) (conn : ℕ) (pubkey ed_pubkey endpoint : Str)
    → (Room.grant_peer heap r conn pubkey ed_pubkey endpoint).1.subnet ≡ r.subnet
unfolding Room.grant_peer admit allocate
grant_keeps_subnet heap r conn pubkey ed_pubkey endpoint = ground arith

release_keeps_subnet :
    (heap : Heap) (r : Room) (conn : ℕ) → (Room.release_peer heap r conn).1.subnet ≡ r.subnet
unfolding Room.release_peer remove
release_keeps_subnet heap r conn = ground arith

grant_in-IsNumbered :
    (h : Hub) (name : Str) (r : Room) (conn : ℕ) (pubkey ed_pubkey endpoint : Str)
    → get name h.rooms ≡ some r
    → IsNumbered h
    → IsNumbered (grant_in h name r conn pubkey ed_pubkey endpoint).0
unfolding grant_in
grant_in-IsNumbered h name r conn pubkey ed_pubkey endpoint there v =
    let out = Room.grant_peer h.heap r conn pubkey ed_pubkey endpoint in
    let (n, l) =
      put_old name out.1 r 0 h.rooms there v.in_order
        (grant_keeps_subnet h.heap r conn pubkey ed_pubkey endpoint) in
    let count = v.next_is_count ∙ ap (λ (k : ℕ). k % 256) (sym l) in
    elim (Option-cases out.2) [
      | inl full ↦ rw (full, grant_in) (record { in_order = n; next_is_count = count })
      | inr (p, found) ↦ rw (found, grant_in) (record { in_order = n; next_is_count = count })
    ]

-- Granting a peer, and with it creating a room where there is none, keeps the numbering.
grant_peer-IsNumbered :
    (h : Hub) (conn : ℕ) (room_name room_pass pubkey ed_pubkey endpoint : Str)
    → IsNumbered h
    → IsNumbered (grant_peer h conn room_name room_pass pubkey ed_pubkey endpoint).0
unfolding grant_peer
grant_peer-IsNumbered h conn room_name room_pass pubkey ed_pubkey endpoint v =
    elim (Result-cases (ensure_room h room_name room_pass (not (str_eq room_pass []))).1) [
      | inl (err, e) ↦ rw (e, grant_peer) (ensure_room-IsNumbered h room_name room_pass _ v)
      | inr (r, e) ↦
          rw (e, grant_peer)
            (grant_in-IsNumbered _ room_name r conn pubkey ed_pubkey endpoint
              (ensure_room_done h room_name room_pass _ r e)
              (ensure_room-IsNumbered h room_name room_pass _ v))
    ]

release_loop-Numbered :
    (heap : Heap) (conn i : ℕ) (m : Map Str Room)
    → Numbered i m
    → let out = release_loop heap conn m in Numbered i out.1 × (length out.1 ≡ length m)
unfolding release_loop
release_loop-Numbered heap conn i [] n = (n, refl)
release_loop-Numbered heap conn i ((name, r) ∷ m) (e, n) =
    let (n', l) = release_loop-Numbered heap conn (suc i) m n in
    elim (Option-cases (Room.release_peer heap r conn).2) [
      | inl absent ↦ rw (absent, release_loop) ((e, n'), ap suc l)
      | inr (p, found) ↦ rw (found, release_loop) ((release_keeps_subnet heap r conn ∙ e, n), refl)
    ]

release_peer-IsNumbered : (h : Hub) (conn : ℕ) → IsNumbered h → IsNumbered (release_peer h conn)
unfolding release_peer
release_peer-IsNumbered h conn v =
    let (n, l) = release_loop-Numbered h.heap conn 0 h.rooms v.in_order in
    record { in_order = n; next_is_count = v.next_is_count ∙ ap (λ (k : ℕ). k % 256) (sym l) }

-- The room that was created `i`-th, from 0.
abbrev pub room_at : ℕ → Map Str Room → Option Room
room_at i [] = none
room_at zero ((name, r) ∷ m) = some r
room_at (suc i) ((name, r) ∷ m) = room_at i m

room_at-subnet :
    (i k : ℕ) (m : Map Str Room) (r : Room)
    → Numbered k m
    → room_at i m ≡ some r
    → r.subnet ≡ subnet_number ((k + i) % 256)
room_at-subnet i k [] r n e = cc
room_at-subnet zero k ((name, r') ∷ m) r (e', n) e =
    let same : (k + 0) % 256 ≡ k % 256 = omega arith in rw same (ground arith)
room_at-subnet (suc i) k ((name, r') ∷ m) r (e', n) e =
    let same : (k + suc i) % 256 ≡ (suc k + i) % 256 = omega arith in
    rw same (room_at-subnet i (suc k) m r n e)

same-IsNumbered : (h h' : Hub) → SameRooms h h' → IsNumbered h → IsNumbered h'
same-IsNumbered h h' (rooms, next) v = record {
  in_order = rw rooms v.in_order;
  next_is_count = rw (rooms, next) v.next_is_count;
}

new_hub-IsNumbered : IsNumbered new_hub.0
unfolding new_hub
new_hub-IsNumbered =
    ensure_room-IsNumbered empty_hub lobby [] false (record { in_order = tt; next_is_count = refl })

-- Whatever has been asked of the server's hub, two of its rooms have one subnet exactly if their places in
-- the order of creation are equal modulo 256: the first 256 rooms, of which the lobby is the first, have
-- subnets of their own, and the next one has that of the lobby.
pub subnet_clash :
    (qs : List Request) (i j : ℕ) (r s : Room)
    → room_at i (answer_all new_hub.0 qs).rooms ≡ some r
    → room_at j (answer_all new_hub.0 qs).rooms ≡ some s
    → (r.subnet ≡ s.subnet) ↔ (i % 256 ≡ j % 256)
subnet_clash qs i j r s e e' =
    let v : IsNumbered (answer_all new_hub.0 qs) =
      answer_all-keeps IsNumbered same-IsNumbered grant_peer-IsNumbered release_peer-IsNumbered qs
        new_hub.0 new_hub-IsNumbered in
    let at_i = room_at-subnet i 0 _ r v.in_order e in
    let at_j = room_at-subnet j 0 _ s v.in_order e' in
    ((λ same. ground arith), λ same. ground arith)
