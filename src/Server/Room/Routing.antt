-- ===== src/Server/Room/Routing.antt =====
-- Which peers a packet reaches: `route` and `broadcast` of internal/server/room.go.
use tunel.Prelude.{
  ℕ, ◌+◌, ◌-◌, ◌≤◌, ◌≡◌, ◌≢◌, refl, Bool, true, false, Option, none, some, arith, if◌then◌else◌,
  ◌==◌, ==_iff, Bool-cases, Option-cases, inl, inr, ◌++◌, ◌||◌, ◌&&◌, not, List, [], ◌∷◌, length,
  nat_eq, ◌∙◌,
}
use tunel.Prelude.Map.{Map, get, Distinct}
use tunel.Protocol.Packet.{Ip4, ipv4_dst, is_broadcast}
use tunel.Protocol.Packet.Laws.{ip4_eq, ip_eq_iff, packet_bytes, write_packet-packet_bytes}
use tunel.Protocol.Stream.{Writer}
use tunel.Server.Peer.{Peer, Heap, deref, modify, send_packet, add_one, deref-modify}
use tunel.Server.Room.{Room, broadcast_loop, broadcast, route, lookup_ip}
use tunel.Server.Room.Invariant.{
  IsFresh, WellFormed, send_packet-Keeps, modify-WellFormed, modify-IsFresh,
}

-- Some address has the peer.
pub has_value : ℕ → Map Ip4 ℕ → Bool
has_value q [] = false
has_value q ((ip, p) ∷ m) = p == q || has_value q m

abbrev DistinctValues : Map Ip4 ℕ → Type 0
DistinctValues [] = Unit {0}
DistinctValues ((ip, p) ∷ m) = (has_value p m ≡ false) × DistinctValues m

pub has_value→get :
    (q : ℕ) (m : Map Ip4 ℕ) → Distinct m → has_value q m ≡ true → (ip : Ip4) × (get ip m ≡ some q)
unfolding has_value get
has_value→get q [] d e = cc
has_value→get q ((ip, p) ∷ m) (new, d) e = elim (Bool-cases (p == q)) [
  | inl hit ↦ (ip, ground (arith, ip_eq_iff ip ip))
  | inr miss ↦
      let (ip', there) = has_value→get q m d (ground arith) in
      (ip', ground (arith, ip_eq_iff ip ip'))
]

pub get→has_value : (ip : Ip4) (q : ℕ) (m : Map Ip4 ℕ) → get ip m ≡ some q → has_value q m ≡ true
unfolding has_value get
get→has_value ip q [] e = cc
get→has_value ip q ((ip', p) ∷ m) e = ground (arith, ==_iff p q, get→has_value ip q m)

-- Every peer of the list lies at its own address.
abbrev AtOwn : Heap → Map Ip4 ℕ → Type 0
AtOwn h m =
    (ip : Ip4) (p : ℕ)
    → get ip m ≡ some p
    → (peer : Peer) × (deref h p ≡ some peer) × (peer.ip ≡ ip)

AtOwn-tail :
    (h : Heap) (ip : Ip4) (p : ℕ) (m : Map Ip4 ℕ)
    → get ip m ≡ none
    → AtOwn h ((ip, p) ∷ m)
    → AtOwn h m
unfolding get
AtOwn-tail h ip p m new own ip' q g = own ip' q (ground (arith, ip_eq_iff ip ip'))

AtOwn-DistinctValues : (h : Heap) (m : Map Ip4 ℕ) → Distinct m → AtOwn h m → DistinctValues m
unfolding get
AtOwn-DistinctValues h [] d own = tt
AtOwn-DistinctValues h ((ip, p) ∷ m) (new, d) own = (
  elim (Bool-cases (has_value p m)) [
    | inl twice ↦
        let (ip', there) = has_value→get p m d twice in
        let (peer, here, at) = own ip p (ground (arith, ip_eq_iff ip ip)) in
        let (peer', here', at') = AtOwn-tail h ip p m new own ip' p there in cc
    | inr once ↦ once
  ],
  AtOwn-DistinctValues h m d (AtOwn-tail h ip p m new own),
)

-- The peer after `f`, if there is one.
abbrev pub applied : (Peer → Peer) → Option Peer → Option Peer
applied f none = none
applied f (some peer) = some (f peer)

deref-broadcast_loop :
    (pkt : List ℕ) (from q : ℕ) (m : Map Ip4 ℕ) (h : Heap)
    → DistinctValues m
    → deref (broadcast_loop pkt from m h) q ≡ (
        if has_value q m && not (q == from)
        then applied (send_packet pkt) (deref h q)
        else deref h q)
unfolding broadcast_loop has_value
deref-broadcast_loop pkt from q [] h d = refl
deref-broadcast_loop pkt from q ((ip, p) ∷ m) h (once, d) = ground (
  arith,
  deref-broadcast_loop pkt from q m (if p == from then h else modify (send_packet pkt) p h) d,
  deref-modify (send_packet pkt) p q h,
  ==_iff p q,
)

-- Who is to get a packet: nobody, if it is not IPv4; all of the room but the sender, if it is for a
-- broadcast address; else the holder of its destination, if that is not the sender.
unfoldable pub is_receiver : Room → List ℕ → ℕ → ℕ → Bool
is_receiver r pkt from q = elim (ipv4_dst pkt) [
  | none ↦ false
  | some dst ↦
      not (q == from)
      && (if is_broadcast dst
          then has_value q r.peers
          else elim (get dst r.peers) [ none ↦ false | some p ↦ p == q ])
]

-- `route` writes the packet to each receiver, once, and changes no other peer.
pub deref-route :
    (h : Heap) (r : Room) (pkt : List ℕ) (from q : ℕ)
    → WellFormed h r
    → deref (route r pkt from h) q
      ≡ (if is_receiver r pkt from q then applied (send_packet pkt) (deref h q) else deref h q)
unfolding route broadcast lookup_ip is_receiver
deref-route h r pkt from q v = elim (Option-cases (ipv4_dst pkt)) [
  | inl e ↦ ground arith
  | inr (dst, e) ↦ elim (Option-cases (get dst r.peers)) [
    | inl nobody ↦ ground (arith, wide)
    | inr (target, there) ↦ ground (
      arith,
      wide,
      deref-modify (send_packet pkt) target q h,
      ==_iff target q,
      ==_iff target from,
      ==_iff q from,
    )
  ]
]
  where
    own : AtOwn h r.peers
    own ip p g = let (peer, here, at, in_room) = v.held ip p g in (peer, here, at)

    wide : deref (broadcast_loop pkt from r.peers h) q ≡ (
        if has_value q r.peers && not (q == from)
        then applied (send_packet pkt) (deref h q)
        else deref h q)
    wide = deref-broadcast_loop pkt from q r.peers h (AtOwn-DistinctValues h r.peers v.distinct own)

-- A receiver whose stream takes the packet has its frame at the end of the stream, and is counted.
pub send_packet_writes :
    (pkt : List ℕ) (peer : Peer) (w : Writer)
    → peer.pkts ≡ some w
    → length pkt ≤ 65535
    → 2 + length pkt ≤ w.quota
    → send_packet pkt peer ≡ record peer {
      pkts =
          some (record {
            written = w.written ++ packet_bytes pkt;
            quota = w.quota - (2 + length pkt);
          });
      tx_packets = add_one peer.tx_packets;
    }
unfolding send_packet
send_packet_writes pkt peer w e short room =
    ground (arith, write_packet-packet_bytes pkt w short room)

-- A peer that is not of the room is not touched by what the room routes.
pub route_isolated :
    (h : Heap) (r : Room) (pkt : List ℕ) (from q : ℕ) (peer : Peer)
    → WellFormed h r
    → deref h q ≡ some peer
    → peer.room ≢ r.name
    → deref (route r pkt from h) q ≡ some peer
unfolding is_receiver
route_isolated h r pkt from q peer v here outside =
    deref-route h r pkt from q v ∙ rw no_receiver here
  where
    absent : has_value q r.peers ≡ false
    absent = elim (Bool-cases (has_value q r.peers)) [
      | inl member ↦
          let (ip, there) = has_value→get q r.peers v.distinct member in
          let (peer', here', at, in_room) = v.held ip q there in absurd (outside (cc))
      | inr no_member ↦ no_member
    ]

    no_receiver : is_receiver r pkt from q ≡ false
    no_receiver = elim (Option-cases (ipv4_dst pkt)) [
      | inl e ↦ ground arith
      | inr (dst, e) ↦ elim (Option-cases (get dst r.peers)) [
        | inl nobody ↦ ground (arith, absent)
        | inr (target, there) ↦
            ground (arith, absent, get→has_value dst target r.peers, ==_iff target q)
      ]
    ]

-- What sending to one peer keeps, routing keeps.
module _ {ℓ} (P : Heap → Type ℓ) (pkt : List ℕ)
    (keep : (h : Heap) (p : ℕ) → P h → P (modify (send_packet pkt) p h)) where
  unless_keeps :
      (b : Bool) (p : ℕ) (h : Heap) → P h → P (if b then h else modify (send_packet pkt) p h)
  unless_keeps true p h start = start
  unless_keeps false p h start = keep h p start

  broadcast_loop_keeps :
      (from : ℕ) (m : Map Ip4 ℕ) (h : Heap) → P h → P (broadcast_loop pkt from m h)
  unfolding broadcast_loop
  broadcast_loop_keeps from [] h start = start
  broadcast_loop_keeps from ((ip, p) ∷ m) h start =
      broadcast_loop_keeps from m _ (unless_keeps (p == from) p h start)

  pub route_keeps : (r : Room) (from : ℕ) (h : Heap) → P h → P (route r pkt from h)
  unfolding route broadcast
  route_keeps r from h start = elim (Option-cases (ipv4_dst pkt)) [
    | inl e ↦ rw (e, route) start
    | inr (dst, e) ↦
        rw (e, route)
          (elim (Bool-cases (is_broadcast dst)) [
            | inl wide ↦ rw wide (broadcast_loop_keeps from r.peers h start)
            | inr narrow ↦ rw narrow (elim (Option-cases (lookup_ip r dst)) [
              | inl nobody ↦ rw nobody start
              | inr (target, there) ↦ rw there (unless_keeps (target == from) target h start)
            ])
          ])
  ]

pub route-WellFormed :
    (h : Heap) (r r' : Room) (pkt : List ℕ) (from : ℕ)
    → IsFresh h
    → WellFormed h r'
    → IsFresh (route r pkt from h) × WellFormed (route r pkt from h) r'
route-WellFormed h r r' pkt from fresh v =
    route_keeps (λ h. IsFresh h × WellFormed h r') pkt
      (λ h p s. (
        modify-IsFresh (send_packet pkt) p h s.0,
        modify-WellFormed (send_packet pkt) p h r' (send_packet-Keeps pkt) s.1,
      ))
      r from h (fresh, v)
