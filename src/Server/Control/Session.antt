-- ===== src/Server/Control/Session.antt =====
-- What a control stream from its first frame to its end leaves of the server: `handleControl` of
-- internal/server/connection.go.
use tunel.Prelude.{
  ℕ, ◌<◌, ◌≡◌, refl, List, [], ◌∷◌, Str, Option, none, some, arith, nat_eq, string_eq, ◌==◌,
  Bool-cases, Option-cases, inl, inr, ◌⊎◌,
}
use tunel.Prelude.Map.{Map, get}
use tunel.Protocol.Packet.{Ip4}
use tunel.Protocol.Messages.{
  Auth, Control, Message, MessageType, msg_ping, pong, encode, room_members, peer_join,
}
use tunel.Server.Peer.{deref, modify, notify, peer_info}
use tunel.Server.Room.{Room, peers_snapshot}
use tunel.Server.Room.Invariant.{Keeps}
use tunel.Server.Hub.{Hub, notify_loop, notify_join, send_room_members}
use tunel.Server.Hub
use tunel.Server.Hub.Invariant
use tunel.Server.Hub.Invariant.{modified-IsValid, Result-cases}
use tunel.Server.Tunnels.{World, Result, done, failed, grant_tunnel}
use tunel.Server.Tunnels.Registry
use tunel.Server.Tunnels.Grant.{grant_tunnel-IsValid}
use tunel.Server.Tunnels.Granted.{grant_tunnel_done}
use tunel.Server.Tunnels.Close.{release_tunnel-IsValid}
use tunel.Server.Tunnels.Registered.{IsTransport}
use tunel.Server.Control.{
  Server, Opening, Decision, hang_up, refuse, join_vpn, open_tunnel, check_opening, welcome, greet,
  serve_peer, room_of, handle_vpn_auth, run_tunnel, handle_control,
}
use tunel.Server.Control.Authorise.{check_opening_iff, Serves}

Result-split {ℓ} :
    {A : Type ℓ} (r : Result A) → ((e : Str) × (r ≡ failed e)) ⊎ ((a : A) × (r ≡ done a))
Result-split (failed e) = inl (e, refl)
Result-split (done a) = inr (a, refl)

-- A tunnel that is asked for, served and released.
run_tunnel-IsValid :
    (proto : Str) (port : ℕ) (target : Str) (frames : List MessageType) (control : Control)
    (w : World)
    → Registry.IsValid w
    → IsTransport proto
    → w.next_id < 65535
    → Registry.IsValid (run_tunnel proto port target frames control w).0
unfolding run_tunnel
run_tunnel-IsValid proto port target frames control w v transport small =
    let v' : Registry.IsValid (grant_tunnel control proto port target w).0 =
      grant_tunnel-IsValid control proto port target w v transport small in
    elim (Result-split (grant_tunnel control proto port target w).2) [
      | inl (e, refused) ↦ rw (run_tunnel, refused) v'
      | inr (t, granted) ↦
          let (tun, here, at, is_open, named, listens) =
            v'.live port t (grant_tunnel_done control proto port target w t granted) in
          rw (run_tunnel, granted)
            (release_tunnel-IsValid t tun (grant_tunnel control proto port target w).0 v' here
              (rw at (grant_tunnel_done control proto port target w t granted)))
    ]

notify-Keeps : (msg : Message) → Keeps (notify msg)
unfolding notify
notify-Keeps msg peer = ground arith

notify_loop-IsValid :
    (msg : Message) (src : ℕ) (m : Map Ip4 ℕ) (h : Hub)
    → Hub.Invariant.IsValid h
    → Hub.Invariant.IsValid (record h { heap = notify_loop msg src m h.heap })
unfolding notify_loop
notify_loop-IsValid msg src [] h v = v
notify_loop-IsValid msg src ((ip, p) ∷ m) h v = elim (Bool-cases (p == src)) [
  | inl own ↦ rw own (notify_loop-IsValid msg src m h v)
  | inr other ↦ rw other (
      notify_loop-IsValid msg src m (record h { heap = modify (notify msg) p h.heap })
        (modified-IsValid (notify msg) p h (notify-Keeps msg) v))
]

serve_peer-IsValid :
    (frames : List MessageType) (p : ℕ) (h : Hub)
    → Hub.Invariant.IsValid h
    → Hub.Invariant.IsValid (serve_peer frames p h)
unfolding serve_peer
serve_peer-IsValid [] p h v = v
serve_peer-IsValid (msg_ping ∷ rest) p h v =
    serve_peer-IsValid rest p _ (modified-IsValid (notify pong) p h (notify-Keeps pong) v)
serve_peer-IsValid (type ∷ rest) p h v = serve_peer-IsValid rest p h v

send_room_members-IsValid :
    (p : ℕ) (h : Hub) → Hub.Invariant.IsValid h → Hub.Invariant.IsValid (send_room_members p h)
unfolding send_room_members
send_room_members-IsValid p h v = elim (Option-cases (deref h.heap p)) [
  | inl gone ↦ rw (gone, send_room_members) v
  | inr (peer, here) ↦
      rw (here, send_room_members)
        (elim (Option-cases (get peer.room h.rooms)) [
          | inl no_room ↦ rw no_room v
          | inr (r, found) ↦
              let msg = room_members (peers_snapshot h.heap r) in
              rw found (modified-IsValid (notify msg) p h (notify-Keeps msg) v)
        ])
]

notify_join-IsValid :
    (p : ℕ) (r : Room) (h : Hub)
    → Hub.Invariant.IsValid h
    → Hub.Invariant.IsValid (notify_join p r h)
unfolding notify_join
notify_join-IsValid p r h v = elim (Option-cases (deref h.heap p)) [
  | inl gone ↦ rw (gone, notify_join) v
  | inr (peer, here) ↦
      rw (here, notify_join) (notify_loop-IsValid (peer_join (peer_info peer)) p r.peers h v)
]

greet-IsValid :
    (session room_name : Str) (p : ℕ) (control : Control) (h : Hub)
    → Hub.Invariant.IsValid h
    → Hub.Invariant.IsValid (greet session room_name p control h).0
unfolding greet
greet-IsValid session room_name p control h v = elim (Option-cases (deref h.heap p)) [
  | inl gone ↦ rw (gone, greet) v
  | inr (peer, here) ↦
      rw (here, greet)
        (elim (Option-cases (get peer.room h.rooms)) [
          | inl no_room ↦ rw no_room v
          | inr (r, found) ↦
              let out = encode (welcome session room_name r peer) control in
              rw found (elim (Bool-cases out.1) [
                | inl sent ↦ rw sent (
                    notify_join-IsValid p r _ (
                      send_room_members-IsValid p _ (
                        modified-IsValid (λ q. record q { ctrl = some out.0 }) p h
                          (λ q. (refl, refl, refl)) v)))
                | inr lost ↦ rw lost v
              ])
        ])
]

-- The hub of a server, if it has one, is valid.
abbrev pub HubIsValid : Option Hub → Type 0
HubIsValid none = Unit {0}
HubIsValid (some h) = Hub.Invariant.IsValid h

handle_vpn_auth-IsValid :
    (conn : ℕ) (session : Str) (a : Auth) (frames : List MessageType) (control : Control)
    (hub : Option Hub)
    → HubIsValid hub
    → HubIsValid (handle_vpn_auth conn session a frames control hub).0
unfolding handle_vpn_auth
handle_vpn_auth-IsValid conn session a frames control none v = tt
handle_vpn_auth-IsValid conn session a frames control (some hub) v =
    let out =
      Hub.grant_peer hub conn (room_of a) a.room_password a.identity_pubkey a.ed_pubkey
        a.stun_endpoint in
    let v' : Hub.Invariant.IsValid out.0 =
      Hub.Invariant.grant_peer-IsValid hub conn (room_of a) a.room_password a.identity_pubkey
        a.ed_pubkey a.stun_endpoint v in
    elim (Result-cases out.1) [
      | inl (e, refused) ↦ rw (handle_vpn_auth, refused) v'
      | inr (p, granted) ↦
          let greeting = greet session (room_of a) p control out.0 in
          let g : Hub.Invariant.IsValid greeting.0 =
            greet-IsValid session (room_of a) p control out.0 v' in
          rw (handle_vpn_auth, granted)
            (Hub.Invariant.release_peer-IsValid _ conn (elim (Bool-cases greeting.2) [
              | inl greeted ↦ rw greeted (serve_peer-IsValid frames p greeting.0 g)
              | inr silent ↦ rw silent g
            ]))
    ]

Decision-cases :
    (d : Decision)
    → ((d ≡ hang_up) ⊎ ((reason : Str) × (d ≡ refuse reason)))
      ⊎ (((a : Auth) × (d ≡ join_vpn a))
          ⊎ ((proto : Str) × (port : ℕ) × (a : Auth) × (d ≡ open_tunnel proto port a)))
Decision-cases hang_up = inl (inl refl)
Decision-cases (refuse reason) = inl (inr (reason, refl))
Decision-cases (join_vpn a) = inr (inl (a, refl))
Decision-cases (open_tunnel proto port a) = inr (inr (proto, port, a, refl))

-- A transport that is served is TCP or UDP.
Serves-IsTransport : (asked proto : Str) → Serves asked proto → IsTransport proto
Serves-IsTransport asked proto (inl (e, h)) = inl e
Serves-IsTransport asked proto (inr (e, h)) = inr e

-- The invariants of the parts of a server.
abbrev pub IsSound : Server → Type 0
IsSound s = Registry.IsValid s.world × HubIsValid s.hub

-- Whatever the client sends first and afterwards, and wherever its stream breaks, the handler of a
-- control stream leaves a valid registry of tunnels and a valid hub. An id below 65535 is next.
pub handle_control-IsSound :
    (opening : Opening) (frames : List MessageType) (control : Control) (s : Server)
    → IsSound s
    → s.world.next_id < 65535
    → IsSound (handle_control opening frames control s).0
unfolding handle_control
handle_control-IsSound opening frames control s v small =
    elim (Decision-cases (check_opening s.config opening)) [
      | inl (inl d) ↦ rw (handle_control, d) v
      | inl (inr (reason, d)) ↦ rw (handle_control, d) v
      | inr (inl (a, d)) ↦
          rw (handle_control, d)
            (v.0, handle_vpn_auth-IsValid s.conn s.world.conn_id a frames control s.hub v.1)
      | inr (inr (proto, port, a, d)) ↦
          let h = (check_opening_iff s.config opening proto port a).0 d in
          rw (handle_control, d)
            (
              run_tunnel-IsValid proto port a.local_target frames control s.world v.0
                  (Serves-IsTransport a.proto proto h.2) small,
              v.1,
            )
    ]
