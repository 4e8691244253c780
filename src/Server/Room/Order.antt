-- ===== src/Server/Room/Order.antt =====
-- The order in which a Go map is visited, and `route` of internal/server/room.go: the peers of a room seen as
-- a map with no order.
use mathlib.Core.Quot
use mathlib.Core.Quot.{Quot}
use mathlib.Core.Bool.{Bool-set}
use tunel.Prelude.{
  ℕ, ◌≡◌, Bool, false, none, some, arith, if◌then◌else◌, ◌==◌, Bool-cases, inl, inr, List, not,
  ◌&&◌, nat_eq, Option-cases, refl, length, ap, sym, ◌∙◌,
}
use tunel.Prelude.Map.{Map, get, Distinct}
use tunel.Protocol.Packet.{Ip4, ipv4_dst, is_broadcast}
use tunel.Protocol.Packet.Laws.{ip4_eq}
use tunel.Server.Peer.{Heap, deref, send_packet}
use tunel.Server.Room.{Room, route, broadcast, lookup_ip}
use tunel.Server.Room.Invariant.{WellFormed}
use tunel.Server.Room.Routing.{
  has_value, has_value→get, get→has_value, is_receiver, applied, deref-route,
}

-- The entries of a map in some order, and what two orders of the same map have in common.
abbrev Entries : Type 0
Entries = (m : Map Ip4 ℕ) × Distinct m

abbrev pub SameEntries : Map Ip4 ℕ → Map Ip4 ℕ → Type 0
SameEntries m n = (ip : Ip4) → get ip m ≡ get ip n

abbrev SameMap : Entries → Entries → Type 0
SameMap t u = SameEntries t.0 u.0

-- A map with no order.
abbrev Unordered : Type 0
Unordered = Quot SameMap

has_value-SameEntries :
    (q : ℕ) (m n : Map Ip4 ℕ)
    → Distinct m
    → Distinct n
    → SameEntries m n
    → has_value q m ≡ has_value q n
has_value-SameEntries q m n d d' same = elim (Bool-cases (has_value q m)) [
  | inl here ↦
      let (ip, at) = has_value→get q m d here in
      let there = get→has_value ip q n (ground (arith, same ip)) in cc
  | inr absent ↦ elim (Bool-cases (has_value q n)) [
    | inl here ↦
        let (ip, at) = has_value→get q n d' here in
        let there = get→has_value ip q m (ground (arith, same ip)) in absurd (ground arith)
    | inr absent' ↦ cc
  ]
]

-- Who of the peers gets a packet.
abbrev among : List ℕ → ℕ → ℕ → Map Ip4 ℕ → Bool
among pkt from q m = elim (ipv4_dst pkt) [
  | none ↦ false
  | some dst ↦
      not (q == from)
      && (if is_broadcast dst
          then has_value q m
          else elim (get dst m) [ none ↦ false | some p ↦ p == q ])
]

among-SameMap :
    (pkt : List ℕ) (from q : ℕ) (t u : Entries)
    → SameMap t u
    → among pkt from q t.0 ≡ among pkt from q u.0
among-SameMap pkt from q (m, d) (n, d') same = elim (Option-cases (ipv4_dst pkt)) [
  | inl e ↦ ground arith
  | inr (dst, e) ↦ ground (arith, has_value-SameEntries q m n d d' same, same dst)
]

-- The receivers, of a map with no order.
receives : List ℕ → ℕ → ℕ → Unordered → Bool
receives pkt from q =
    Quot.lift Bool-set (λ t. among pkt from q t.0) (λ t u same. among-SameMap pkt from q t u same)

-- `route` sees of the peers of a room only the map with no order.
deref-route_unordered :
    (h : Heap) (r : Room) (pkt : List ℕ) (from q : ℕ) (v : WellFormed h r)
    → deref (route r pkt from h) q ≡ (
        if receives pkt from q (Quot.mk (r.peers, v.distinct))
        then applied (send_packet pkt) (deref h q)
        else deref h q)
unfolding receives is_receiver
deref-route_unordered h r pkt from q v = deref-route h r pkt from q v

-- The room with its peers in another order.
abbrev reordered : Room → Map Ip4 ℕ → Room
reordered r m = record r { peers = m; peer_count = length m }

reordered-WellFormed :
    (h : Heap) (r : Room) (m : Map Ip4 ℕ)
    → WellFormed h r
    → Distinct m
    → SameEntries r.peers m
    → WellFormed h (reordered r m)
reordered-WellFormed h r m v d same = record {
  cursor = v.cursor;
  distinct = d;
  counted = refl;
  inside = λ ip p g. v.inside ip p (same ip ∙ g);
  held = λ ip p g. v.held ip p (same ip ∙ g);
  served = λ conn p g.
      let (peer, at, own, there) = v.served conn p g in (peer, at, own, sym (same peer.ip) ∙ there);
}

-- The number of peers that a room keeps has no part in `route`.
route-reordered :
    (r : Room) (m : Map Ip4 ℕ) (pkt : List ℕ) (from : ℕ) (h : Heap)
    → route (reordered r m) pkt from h ≡ route (record r { peers = m }) pkt from h
unfolding route broadcast lookup_ip
route-reordered r m pkt from h = refl

-- Whatever the order in which the peers of a room are visited, `route` leaves every peer in the same state.
pub route_any_order :
    (h : Heap) (r : Room) (m : Map Ip4 ℕ) (pkt : List ℕ) (from q : ℕ)
    → WellFormed h r
    → Distinct m
    → SameEntries r.peers m
    → deref (route r pkt from h) q ≡ deref (route (record r { peers = m }) pkt from h) q
route_any_order h r m pkt from q v d same =
    let v' = reordered-WellFormed h r m v d same in
    deref-route_unordered h r pkt from q v
    ∙ ap
        (λ peers.
          if receives pkt from q peers then applied (send_packet pkt) (deref h q) else deref h q)
        (Quot.sound same)
    ∙ sym (deref-route_unordered h (reordered r m) pkt from q v')
    ∙ ap (λ after. deref after q) (route-reordered r m pkt from h)
