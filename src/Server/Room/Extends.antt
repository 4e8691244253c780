-- ===== src/Server/Room/Extends.antt =====
-- What an operation on one room of internal/server leaves to the others: every peer stays, with its
-- address, its room and its connection.
use tunel.Prelude.{
  ℕ, ◌≡◌, refl, Option, some, arith, ◌==◌, Bool-cases, inl, inr, Str, List, ◌∙◌, nat_eq,
}
use tunel.Server.Peer.{Peer, Heap, deref, modify, deref-modify, send_packet, cleanup}
use tunel.Server.Room.{Room, allocate, admit, remove, grant_peer, release_peer, route}
use tunel.Server.Room.Invariant.{IsFresh, WellFormed, Keeps, send_packet-Keeps, cleanup-Keeps}
use tunel.Server.Room.Grant.{Grants, full, granted, grant_peer-Grants, deref-admit_old}
use tunel.Server.Room.Release.{Releases, unknown, released, release_peer-Releases}
use tunel.Server.Room.Routing.{route_keeps}

abbrev pub Extends : Heap → Heap → Type 0
Extends h h' =
    (p : ℕ) (peer : Peer)
    → deref h p ≡ some peer
    → (peer' : Peer) × (deref h' p ≡ some peer')
      × (peer'.ip ≡ peer.ip)
      × (peer'.room ≡ peer.room)
      × (peer'.conn ≡ peer.conn)

pub Extends-refl : (h : Heap) → Extends h h
Extends-refl h p peer e = (peer, e, refl, refl, refl)

pub Extends-trans : (h h' h'' : Heap) → Extends h h' → Extends h' h'' → Extends h h''
Extends-trans h h' h'' f g p peer e =
    let (peer', e', a, b, c) = f p peer e in
    let (peer'', e'', a', b', c') = g p peer' e' in (peer'', e'', a' ∙ a, b' ∙ b, c' ∙ c)

pub modify-Extends : (f : Peer → Peer) (p : ℕ) (h : Heap) → Keeps f → Extends h (modify f p h)
modify-Extends f p h keep q peer e = elim (Bool-cases (p == q)) [
  | inl hit ↦ let (a, b, c) = keep peer in (f peer, ground (arith, deref-modify f p q h), a, b, c)
  | inr miss ↦ (peer, ground (arith, deref-modify f p q h), refl, refl, refl)
]

pub Extends-WellFormed : (h h' : Heap) (r : Room) → Extends h h' → WellFormed h r → WellFormed h' r
Extends-WellFormed h h' r ext v = record {
  cursor = v.cursor;
  distinct = v.distinct;
  counted = v.counted;
  inside = v.inside;
  held = λ ip p g.
      let (peer, here, at, in_room) = v.held ip p g in
      let (peer', here', a, b, c) = ext p peer here in (peer', here', a ∙ at, b ∙ in_room);
  served = λ conn p g.
      let (peer, here, of_conn, at) = v.served conn p g in
      let (peer', here', a, b, c) = ext p peer here in
      (peer', here', c ∙ of_conn, ground (arith, at, a));
}

Grants-Extends :
    (h : Heap) (r : Room) (conn : ℕ) (pubkey ed_pubkey endpoint : Str)
    (out : Heap × Room × Option ℕ)
    → IsFresh h
    → Grants h r conn pubkey ed_pubkey endpoint out
    → Extends h out.0 × (out.1.name ≡ r.name) × (out.1.subnet ≡ r.subnet)
unfolding allocate admit
Grants-Extends h r conn pubkey ed_pubkey endpoint out fresh (full e eq) =
    rw eq (Extends-refl h, refl, refl)
Grants-Extends h r conn pubkey ed_pubkey endpoint out fresh (granted ip e eq) = rw eq (
  (λ p peer here. (
    peer,
    deref-admit_old h (allocate r).0 ip conn pubkey ed_pubkey endpoint fresh p peer here,
    refl,
    refl,
    refl,
  )),
  refl,
  refl,
)

pub grant_peer-Extends :
    (h : Heap) (r : Room) (conn : ℕ) (pubkey ed_pubkey endpoint : Str)
    → IsFresh h
    → let out = grant_peer h r conn pubkey ed_pubkey endpoint in
      Extends h out.0 × (out.1.name ≡ r.name) × (out.1.subnet ≡ r.subnet)
grant_peer-Extends h r conn pubkey ed_pubkey endpoint fresh =
    Grants-Extends h r conn pubkey ed_pubkey endpoint _ fresh
      (grant_peer-Grants h r conn pubkey ed_pubkey endpoint)

Releases-Extends :
    (h : Heap) (r : Room) (conn : ℕ) (out : Heap × Room × Option ℕ)
    → Releases h r conn out
    → Extends h out.0 × (out.1.name ≡ r.name) × (out.1.subnet ≡ r.subnet)
unfolding remove
Releases-Extends h r conn out (unknown e eq) = rw eq (Extends-refl h, refl, refl)
Releases-Extends h r conn out (released p peer e here eq) =
    rw eq (modify-Extends cleanup p h cleanup-Keeps, refl, refl)

pub release_peer-Extends :
    (h : Heap) (r : Room) (conn : ℕ)
    → WellFormed h r
    → let out = release_peer h r conn in
      Extends h out.0 × (out.1.name ≡ r.name) × (out.1.subnet ≡ r.subnet)
release_peer-Extends h r conn v = Releases-Extends h r conn _ (release_peer-Releases h r conn v)

pub route-Extends : (h : Heap) (r : Room) (pkt : List ℕ) (from : ℕ) → Extends h (route r pkt from h)
route-Extends h r pkt from =
    route_keeps (Extends h) pkt
      (λ h' p ext.
        Extends-trans h h' _ ext (modify-Extends (send_packet pkt) p h' (send_packet-Keeps pkt)))
      r from h (Extends-refl h)
