-- ===== src/Server/Hub/Access.antt =====
-- Who gets into a room, and who gets its packets: internal/server/vpn.go.
use tunel.Prelude.{
  ℕ, ◌≡◌, ◌≢◌, refl, true, false, none, some, arith, Bool-cases, Option-cases, inl, inr, ◌⊎◌, Str,
  List, [], nat_eq, string_eq, str_eq, str_eq_iff, ◌∙◌, Bool, ◌∷◌, ◌&&◌, not,
}
use tunel.Prelude.Map.{Map, get, put, get-put, get-put_self}
use tunel.Server.Peer.{Peer, Heap, deref}
use tunel.Server.Room.{Room, new_room, allocate, admit, remove}
use tunel.Server.Room
use tunel.Server.Room.Routing.{route_isolated}
use tunel.Server.Hub.{
  Hub, done, failed, bad_password, ensure_room, create_room, grant_in, grant_peer, route,
  release_loop, release_peer,
}
use tunel.Server.Hub.Invariant.{IsValid, AllRooms-get, Result-cases, ensure_room_done}
use tunel.Server.Hub.History.{Request, answer_all, SameRooms, answer_all-keeps}

-- A packet never leaves the room of its sender: no peer of another room is touched.
pub route_isolates :
    (h : Hub) (pkt : List ℕ) (from q : ℕ) (src peer : Peer)
    → IsValid h
    → deref h.heap from ≡ some src
    → deref h.heap q ≡ some peer
    → peer.room ≢ src.room
    → deref (route pkt from h).heap q ≡ some peer
unfolding route
route_isolates h pkt from q src peer v sender here other =
    rw (sender, route)
      (elim (Option-cases (get src.room h.rooms)) [
        | inl no_room ↦ rw no_room here
        | inr (r, found) ↦
            let (right, named) = AllRooms-get h.heap h.rooms src.room r v.all_rooms found in
            rw found
              (route_isolated h.heap r pkt from q peer right here (λ same. other (same ∙ named)))
      ])

-- A peer gets into a room that is there only if the room is public or the password is right.
pub grant_peer_access :
    (h : Hub) (conn : ℕ) (room_name room_pass pubkey ed_pubkey endpoint : Str) (r : Room) (p : ℕ)
    → get room_name h.rooms ≡ some r
    → (grant_peer h conn room_name room_pass pubkey ed_pubkey endpoint).1 ≡ done p
    → (r.is_private ≡ false) ⊎ (r.password ≡ room_pass)
unfolding grant_peer ensure_room
grant_peer_access h conn room_name room_pass pubkey ed_pubkey endpoint r p present got =
    elim (Bool-cases r.is_private) [
      | inl closed ↦ elim (Bool-cases (str_eq r.password room_pass)) [
        | inl right ↦ inr ((str_eq_iff r.password room_pass).0 right)
        | inr wrong ↦ ground arith
      ]
      | inr open_to_all ↦ inl open_to_all
    ]

-- The room of the name is private, with the password.
abbrev Opens : Str → Str → Map Str Room → Type 0
Opens name pass m = (r : Room) × (get name m ≡ some r) × (r.is_private ≡ true) × (r.password ≡ pass)

abbrev Locked : Str → Str → Hub → Type 0
Locked name pass h = Opens name pass h.rooms

grant_peer_refused :
    (h : Hub) (conn : ℕ) (room_name room_pass pubkey ed_pubkey endpoint pass : Str)
    → Locked room_name pass h
    → pass ≢ room_pass
    → grant_peer h conn room_name room_pass pubkey ed_pubkey endpoint ≡ (h, failed bad_password)
unfolding grant_peer ensure_room
grant_peer_refused h conn room_name room_pass pubkey ed_pubkey endpoint pass
      (r, present, closed, own) ne =
    ground (arith, str_eq_iff r.password room_pass)

grant_keeps_lock :
    (heap : Heap) (r : Room) (conn : ℕ) (pubkey ed_pubkey endpoint : Str)
    → let r' = (Room.grant_peer heap r conn pubkey ed_pubkey endpoint).1 in
      (r'.is_private ≡ r.is_private) × (r'.password ≡ r.password)
unfolding Room.grant_peer admit allocate
grant_keeps_lock heap r conn pubkey ed_pubkey endpoint = ground arith

grant_in_locks :
    (h : Hub) (name pass : Str) (r : Room) (conn : ℕ) (pubkey ed_pubkey endpoint : Str)
    → r.is_private ≡ true
    → r.password ≡ pass
    → Locked name pass (grant_in h name r conn pubkey ed_pubkey endpoint).0
unfolding grant_in
grant_in_locks h name pass r conn pubkey ed_pubkey endpoint closed own =
    let out = Room.grant_peer h.heap r conn pubkey ed_pubkey endpoint in
    let (same_closed, same_own) = grant_keeps_lock h.heap r conn pubkey ed_pubkey endpoint in
    (
      out.1,
      elim (Option-cases out.2) [
        | inl full ↦ rw (full, grant_in) (get-put_self name out.1 h.rooms)
        | inr (p, found) ↦ rw (found, grant_in) (get-put_self name out.1 h.rooms)
      ],
      same_closed ∙ closed,
      same_own ∙ own,
    )

grant_peer_locks :
    (h : Hub) (conn : ℕ) (room_name room_pass pubkey ed_pubkey endpoint : Str)
    → get room_name h.rooms ≡ none
    → room_pass ≢ []
    → Locked room_name room_pass (grant_peer h conn room_name room_pass pubkey ed_pubkey endpoint).0
unfolding grant_peer ensure_room create_room new_room
grant_peer_locks h conn room_name room_pass pubkey ed_pubkey endpoint absent ne =
    rw (absent, grant_peer, ensure_room)
      (grant_in_locks _ room_name room_pass _ conn pubkey ed_pubkey endpoint
        (ground (arith, str_eq_iff room_pass [])) refl)

put_absent :
    (name name' : Str) (new r : Room) (m : Map Str Room)
    → get name' m ≡ none
    → get name m ≡ some r
    → get name (put name' new m) ≡ some r
put_absent name name' new r m absent there =
    ground (arith, get-put name' name new m, str_eq_iff name' name)

ensure_room-Locked :
    (h : Hub) (name pass name' pass' : Str) (is_private : Bool)
    → Locked name pass h
    → Locked name pass (ensure_room h name' pass' is_private).0
unfolding ensure_room create_room new_room
ensure_room-Locked h name pass name' pass' is_private (r, there, closed, own) =
    elim (Option-cases (get name' h.rooms)) [
      | inl absent ↦
          rw (absent, ensure_room) (r, put_absent name name' _ r h.rooms absent there, closed, own)
      | inr (s, present) ↦
          rw (present, ensure_room)
            (elim (Bool-cases (s.is_private && not (str_eq s.password pass'))) [
              | inl wrong ↦ rw wrong (r, there, closed, own)
              | inr right ↦ rw right (r, there, closed, own)
            ])
    ]

grant_in-Locked :
    (h : Hub) (name pass name' : Str) (s : Room) (conn : ℕ) (pubkey ed_pubkey endpoint : Str)
    → get name' h.rooms ≡ some s
    → Locked name pass h
    → Locked name pass (grant_in h name' s conn pubkey ed_pubkey endpoint).0
unfolding grant_in
grant_in-Locked h name pass name' s conn pubkey ed_pubkey endpoint there (r, locked, closed, own) =
    let out = Room.grant_peer h.heap s conn pubkey ed_pubkey endpoint in
    elim (Bool-cases (str_eq name' name)) [
      | inl hit ↦
          let same : name' ≡ name = (str_eq_iff name' name).0 hit in
          let one : s ≡ r = ground arith in
          rw same (
            grant_in_locks h name pass s conn pubkey ed_pubkey endpoint (rw one closed)
              (rw one own))
      | inr miss ↦
          let kept : get name (put name' out.1 h.rooms) ≡ some r =
            ground (arith, get-put name' name out.1 h.rooms) in
          elim (Option-cases out.2) [
            | inl full ↦ rw (full, grant_in) (r, kept, closed, own)
            | inr (p, found) ↦ rw (found, grant_in) (r, kept, closed, own)
          ]
    ]

grant_peer-Locked :
    (name pass : Str) (h : Hub) (conn : ℕ) (room_name room_pass pubkey ed_pubkey endpoint : Str)
    → Locked name pass h
    → Locked name pass (grant_peer h conn room_name room_pass pubkey ed_pubkey endpoint).0
unfolding grant_peer
grant_peer-Locked name pass h conn room_name room_pass pubkey ed_pubkey endpoint v =
    let private = not (str_eq room_pass []) in
    let v' = ensure_room-Locked h name pass room_name room_pass private v in
    elim (Result-cases (ensure_room h room_name room_pass private).1) [
      | inl (err, e) ↦ rw (e, grant_peer) v'
      | inr (r, e) ↦
          rw (e, grant_peer)
            (grant_in-Locked _ name pass room_name r conn pubkey ed_pubkey endpoint
              (ensure_room_done h room_name room_pass private r e) v')
    ]

release_keeps_lock :
    (heap : Heap) (r : Room) (conn : ℕ)
    → let r' = (Room.release_peer heap r conn).1 in
      (r'.is_private ≡ r.is_private) × (r'.password ≡ r.password)
unfolding Room.release_peer remove
release_keeps_lock heap r conn = ground arith

release_loop-Locked :
    (heap : Heap) (conn : ℕ) (name pass : Str) (m : Map Str Room)
    → Opens name pass m
    → Opens name pass (release_loop heap conn m).1
unfolding release_loop get
release_loop-Locked heap conn name pass [] (r, there, closed, own) = absurd (cc there)
release_loop-Locked heap conn name pass ((name', s) ∷ m) (r, there, closed, own) =
    let (same_closed, same_own) = release_keeps_lock heap s conn in
    elim (Bool-cases (str_eq name' name)) [
      | inl hit ↦ elim (Option-cases (Room.release_peer heap s conn).2) [
        | inl absent ↦ rw (absent, release_loop, hit) (r, ground arith, closed, own)
        | inr (p, found) ↦
            let one : s ≡ r = ground arith in
            rw (found, release_loop, hit)
              (_, refl, same_closed ∙ rw one closed, same_own ∙ rw one own)
      ]
      | inr miss ↦
          let below : Opens name pass m = (r, ground arith, closed, own) in
          elim (Option-cases (Room.release_peer heap s conn).2) [
            | inl absent ↦
                rw (absent, release_loop, miss) (release_loop-Locked heap conn name pass m below)
            | inr (p, found) ↦ rw (found, release_loop, miss) below
          ]
    ]

release_peer-Locked :
    (name pass : Str) (h : Hub) (conn : ℕ)
    → Locked name pass h
    → Locked name pass (release_peer h conn)
unfolding release_peer
release_peer-Locked name pass h conn v = release_loop-Locked h.heap conn name pass h.rooms v

same-Locked :
    (name pass : Str) (h h' : Hub) → SameRooms h h' → Locked name pass h → Locked name pass h'
same-Locked name pass h h' (rooms, next) v = rw rooms v

-- The first peer of a new room sets its password, if it names one. From then on, whatever has been asked
-- of the hub in between, by that peer or by others, and even when all have left the room, whoever comes with
-- another password is refused, and nothing changes.
pub password_protects :
    (h : Hub) (qs : List Request) (conn conn' : ℕ) (name pass pass' pk ek ep pk' ek' ep' : Str)
    → get name h.rooms ≡ none
    → pass ≢ []
    → pass ≢ pass'
    → let h' = answer_all (grant_peer h conn name pass pk ek ep).0 qs in
      grant_peer h' conn' name pass' pk' ek' ep' ≡ (h', failed bad_password)
password_protects h qs conn conn' name pass pass' pk ek ep pk' ek' ep' absent ne other =
    grant_peer_refused _ conn' name pass' pk' ek' ep' pass
      (answer_all-keeps (Locked name pass) (same-Locked name pass) (grant_peer-Locked name pass)
        (release_peer-Locked name pass) qs _ (grant_peer_locks h conn name pass pk ek ep absent ne))
      other
