-- ===== src/Server/Hub/History.antt =====
-- What is asked of the hub of internal/server/vpn.go over time, by any of its connections.
use tunel.Prelude.{ℕ, ◌≡◌, refl, Str, List, [], ◌∷◌, Option-cases, inl, inr, string_eq}
use tunel.Prelude.Map.{get}
use tunel.Protocol.Stream.{Writer}
use tunel.Server.Peer.{deref}
use tunel.Server.Room.{Room}
use tunel.Server.Hub.{
  Hub, grant_peer, release_peer, find_peer, attach_packet_stream, route, take_packet,
  send_room_members, notify_join, notify_leave,
}

-- The calls of the hub: a peer is granted or released, a packet stream is attached, a packet comes from a
-- peer, and a peer is told the members of its room or the room is told of the peer.
pub data Request : Type 0 where
  grants : ℕ → Str → Str → Str → Str → Str → Request
  releases : ℕ → Request
  attaches : ℕ → Writer → Request
  receives : ℕ → List ℕ → Request
  lists : ℕ → Request
  joins leaves : ℕ → Room → Request

unfoldable pub answer : Hub → Request → Hub
answer h (grants conn room_name room_pass pubkey ed_pubkey endpoint) =
    (grant_peer h conn room_name room_pass pubkey ed_pubkey endpoint).0
answer h (releases conn) = release_peer h conn
answer h (attaches conn stream) = (attach_packet_stream h conn stream).0
answer h (receives p pkt) = take_packet p pkt h
answer h (lists p) = send_room_members p h
answer h (joins p r) = notify_join p r h
answer h (leaves p r) = notify_leave p r h

unfoldable pub answer_all : Hub → List Request → Hub
answer_all h [] = h
answer_all h (q ∷ qs) = answer_all (answer h q) qs

-- The rooms are the same, and so is the number of the next one.
abbrev pub SameRooms : Hub → Hub → Type 0
SameRooms h h' = (h'.rooms ≡ h.rooms) × (h'.next_subnet ≡ h.next_subnet)

attach_packet_stream-SameRooms :
    (h : Hub) (conn : ℕ) (stream : Writer) → SameRooms h (attach_packet_stream h conn stream).0
unfolding attach_packet_stream
attach_packet_stream-SameRooms h conn stream = elim (Option-cases (find_peer conn h.rooms)) [
  | inl e ↦ rw (attach_packet_stream, e) (refl, refl)
  | inr (p, e) ↦ rw (attach_packet_stream, e) (refl, refl)
]

route-SameRooms : (pkt : List ℕ) (from : ℕ) (h : Hub) → SameRooms h (route pkt from h)
unfolding route
route-SameRooms pkt from h = elim (Option-cases (deref h.heap from)) [
  | inl e ↦ rw (route, e) (refl, refl)
  | inr (peer, e) ↦ elim (Option-cases (get peer.room h.rooms)) [
    | inl e' ↦ rw (route, e, e') (refl, refl)
    | inr (r, e') ↦ rw (route, e, e') (refl, refl)
  ]
]

take_packet-SameRooms : (p : ℕ) (pkt : List ℕ) (h : Hub) → SameRooms h (take_packet p pkt h)
unfolding take_packet
take_packet-SameRooms p pkt h = route-SameRooms pkt p _

send_room_members-SameRooms : (p : ℕ) (h : Hub) → SameRooms h (send_room_members p h)
unfolding send_room_members
send_room_members-SameRooms p h = elim (Option-cases (deref h.heap p)) [
  | inl e ↦ rw (send_room_members, e) (refl, refl)
  | inr (peer, e) ↦ elim (Option-cases (get peer.room h.rooms)) [
    | inl e' ↦ rw (send_room_members, e, e') (refl, refl)
    | inr (r, e') ↦ rw (send_room_members, e, e') (refl, refl)
  ]
]

notify_join-SameRooms : (p : ℕ) (r : Room) (h : Hub) → SameRooms h (notify_join p r h)
unfolding notify_join
notify_join-SameRooms p r h = elim (Option-cases (deref h.heap p)) [
  | inl e ↦ rw (notify_join, e) (refl, refl)
  | inr (peer, e) ↦ rw (notify_join, e) (refl, refl)
]

notify_leave-SameRooms : (p : ℕ) (r : Room) (h : Hub) → SameRooms h (notify_leave p r h)
unfolding notify_leave
notify_leave-SameRooms p r h = elim (Option-cases (deref h.heap p)) [
  | inl e ↦ rw (notify_leave, e) (refl, refl)
  | inr (peer, e) ↦ rw (notify_leave, e) (refl, refl)
]

-- What depends on the rooms and on the number of the next one alone holds after any requests, if a grant
-- and a release keep it.
pub answer_all-keeps {ℓ} :
    (P : Hub → Type ℓ)
    → ((h h' : Hub) → SameRooms h h' → P h → P h')
    → ((h : Hub) (conn : ℕ) (room_name room_pass pubkey ed_pubkey endpoint : Str)
        → P h
        → P (grant_peer h conn room_name room_pass pubkey ed_pubkey endpoint).0)
    → ((h : Hub) (conn : ℕ) → P h → P (release_peer h conn))
    → (qs : List Request) → (h : Hub) → P h
    → P (answer_all h qs)
unfolding answer_all answer
answer_all-keeps P same grant release [] h v = v
answer_all-keeps P same grant release (q ∷ qs) h v =
    answer_all-keeps P same grant release qs (answer h q) (step q)
  where
    step : (q : Request) → P (answer h q)
    step (grants conn name pass pk ek ep) = grant h conn name pass pk ek ep v
    step (releases conn) = release h conn v
    step (attaches conn w) = same h _ (attach_packet_stream-SameRooms h conn w) v
    step (receives p pkt) = same h _ (take_packet-SameRooms p pkt h) v
    step (lists p) = same h _ (send_room_members-SameRooms p h) v
    step (joins p r) = same h _ (notify_join-SameRooms p r h) v
    step (leaves p r) = same h _ (notify_leave-SameRooms p r h) v
