-- ===== src/Server/Room/Grant.antt =====
-- Granting a peer: `grantPeer` of internal/server/room.go.
use tunel.Prelude.{
  ℕ, ◌≡◌, refl, false, Option, none, some, arith, if◌then◌else◌, ◌==◌, ==_iff, Bool-cases,
  Option-cases, inl, inr, Str, nat_eq, sym, ◌∙◌,
}
use tunel.Prelude.Map.{get, put, get-put, put-Distinct}
use tunel.Protocol.Packet.{Ip4, ip_eq}
use tunel.Protocol.Packet.Laws.{ip4_eq, ip_eq_iff}
use tunel.Server.Peer.{Peer, Heap, deref, alloc, new_vpn_peer, deref-alloc}
use tunel.Server.Room.{Room, is_taken, subnet_base, allocate, grant_peer, admit}
use tunel.Server.Room.Allocate.{allocate_sound}
use tunel.Server.Room.Invariant.{IsFresh, InSubnet, Holds, Serves, WellFormed, allocated-WellFormed}

module _ (h : Heap) (r : Room) (ip : Ip4) (conn : ℕ) (pubkey ed_pubkey endpoint : Str)
    (fresh : IsFresh h) where
  abbrev new_peer : Peer
  new_peer = new_vpn_peer r.name ip conn pubkey ed_pubkey endpoint

  abbrev new_heap : Heap
  new_heap = (admit h r ip conn pubkey ed_pubkey endpoint).0

  pub deref-admit : (p : ℕ) → deref new_heap p ≡ (if h.next == p then some new_peer else deref h p)
  unfolding admit
  deref-admit p = deref-alloc new_peer p h

  pub deref-admit_old : (p : ℕ) (peer : Peer) → deref h p ≡ some peer → deref new_heap p ≡ some peer
  deref-admit_old p peer e = ground (arith, deref-admit p, fresh p)

  admit-IsFresh : IsFresh new_heap
  unfolding admit alloc
  admit-IsFresh p le = ground (arith, deref-admit p, fresh p)

module _ (h : Heap) (r : Room) (ip : Ip4) (conn : ℕ) (pubkey ed_pubkey endpoint : Str)
    (fresh : IsFresh h) (v : WellFormed h r) (at_host : InSubnet (subnet_base r) ip)
    (free : is_taken ip r.peers ≡ false) where
  abbrev after : Heap
  after = (admit h r ip conn pubkey ed_pubkey endpoint).0

  admit-inside :
      (ip' : Ip4) (p : ℕ) → get ip' (put ip h.next r.peers) ≡ some p → InSubnet (subnet_base r) ip'
  admit-inside ip' p g = elim (Bool-cases (ip_eq ip ip')) [
    | inl hit ↦ let (oct, eq, host) = at_host in (oct, sym ((ip_eq_iff ip ip').0 hit) ∙ eq, host)
    | inr miss ↦ v.inside ip' p (ground (arith, get-put ip ip' h.next r.peers))
  ]

  admit-held :
      (ip' : Ip4) (p : ℕ) → get ip' (put ip h.next r.peers) ≡ some p → Holds after r.name ip' p
  unfolding new_vpn_peer
  admit-held ip' p g = elim (Bool-cases (ip_eq ip ip')) [
    | inl hit ↦
        let same : h.next ≡ p = ground (arith, get-put ip ip' h.next r.peers) in
        (
          new_peer h r ip conn pubkey ed_pubkey endpoint fresh,
          ground (arith, deref-admit h r ip conn pubkey ed_pubkey endpoint fresh p),
          (ip_eq_iff ip ip').0 hit,
          refl,
        )
    | inr miss ↦
        let (peer, here, at, in_room) =
          v.held ip' p (ground (arith, get-put ip ip' h.next r.peers)) in
        (peer, deref-admit_old h r ip conn pubkey ed_pubkey endpoint fresh p peer here, at, in_room)
  ]

  admit-served :
      (conn' p : ℕ)
      → get conn' (put conn h.next r.by_conn) ≡ some p
      → Serves after (put ip h.next r.peers) conn' p
  unfolding new_vpn_peer
  admit-served conn' p g = elim (Bool-cases (conn == conn')) [
    | inl hit ↦
        let same : h.next ≡ p = ground (arith, get-put conn conn' h.next r.by_conn) in
        (
          new_peer h r ip conn pubkey ed_pubkey endpoint fresh,
          ground (arith, deref-admit h r ip conn pubkey ed_pubkey endpoint fresh p),
          (==_iff conn conn').0 hit,
          ground (arith, get-put ip ip h.next r.peers, ip_eq_iff ip ip),
        )
    | inr miss ↦
        let (peer, here, of_conn, there) =
          v.served conn' p (ground (arith, get-put conn conn' h.next r.by_conn)) in
        (
          peer,
          deref-admit_old h r ip conn pubkey ed_pubkey endpoint fresh p peer here,
          of_conn,
          ground (arith, get-put ip peer.ip h.next r.peers, ip_eq_iff ip peer.ip),
        )
  ]

  pub admit-WellFormed : WellFormed after (admit h r ip conn pubkey ed_pubkey endpoint).1
  unfolding admit alloc
  admit-WellFormed = record {
    cursor = v.cursor;
    distinct = put-Distinct ip h.next r.peers v.distinct;
    counted = refl;
    inside = admit-inside;
    held = admit-held;
    served = admit-served;
  }

pub allocated_ip :
    (h : Heap) (r : Room) (ip : Ip4)
    → WellFormed h r
    → (allocate r).1 ≡ some ip
    → InSubnet (subnet_base (allocate r).0) ip × (is_taken ip (allocate r).0.peers ≡ false)
unfolding allocate
allocated_ip h r ip v e =
    let (oct, eq, host, free) = allocate_sound r ip v.cursor e in ((oct, eq, host), free)

-- What `grantPeer` does: it fails and moves the cursor only, or admits a peer at a free address of
-- the subnet.
pub data Grants (h : Heap) (r : Room) (conn : ℕ) (pubkey ed_pubkey endpoint : Str)
    (out : Heap × Room × Option ℕ) : Type 0 where
  full :
      (allocate r).1 ≡ none
      → out ≡ (h, (allocate r).0, none)
      → Grants h r conn pubkey ed_pubkey endpoint out
  granted :
      (ip : Ip4)
      → (allocate r).1 ≡ some ip
      → out ≡ (
        (admit h (allocate r).0 ip conn pubkey ed_pubkey endpoint).0,
        (admit h (allocate r).0 ip conn pubkey ed_pubkey endpoint).1,
        some (admit h (allocate r).0 ip conn pubkey ed_pubkey endpoint).2,
      )
      → Grants h r conn pubkey ed_pubkey endpoint out

pub grant_peer-Grants :
    (h : Heap) (r : Room) (conn : ℕ) (pubkey ed_pubkey endpoint : Str)
    → Grants h r conn pubkey ed_pubkey endpoint (grant_peer h r conn pubkey ed_pubkey endpoint)
unfolding grant_peer
grant_peer-Grants h r conn pubkey ed_pubkey endpoint = elim (Option-cases (allocate r).1) [
  | inl e ↦ full e (rw (e, grant_peer))
  | inr (ip, e) ↦ granted ip e (rw (e, grant_peer))
]

Grants-WellFormed :
    (h : Heap) (r : Room) (conn : ℕ) (pubkey ed_pubkey endpoint : Str)
    (out : Heap × Room × Option ℕ)
    → IsFresh h
    → WellFormed h r
    → Grants h r conn pubkey ed_pubkey endpoint out
    → IsFresh out.0 × WellFormed out.0 out.1
Grants-WellFormed h r conn pubkey ed_pubkey endpoint out fresh v (full e eq) =
    rw eq (fresh, allocated-WellFormed h r v)
Grants-WellFormed h r conn pubkey ed_pubkey endpoint out fresh v (granted ip e eq) =
    let (inside, free) = allocated_ip h r ip v e in
    rw eq (
      admit-IsFresh h (allocate r).0 ip conn pubkey ed_pubkey endpoint fresh,
      admit-WellFormed h (allocate r).0 ip conn pubkey ed_pubkey endpoint fresh
          (allocated-WellFormed h r v) inside free,
    )

-- A grant, whether it succeeds or finds the room full, keeps a room well formed.
pub grant_peer-WellFormed :
    (h : Heap) (r : Room) (conn : ℕ) (pubkey ed_pubkey endpoint : Str)
    → IsFresh h
    → WellFormed h r
    → let out = grant_peer h r conn pubkey ed_pubkey endpoint in
      IsFresh out.0 × WellFormed out.0 out.1
grant_peer-WellFormed h r conn pubkey ed_pubkey endpoint fresh v =
    Grants-WellFormed h r conn pubkey ed_pubkey endpoint _ fresh v
      (grant_peer-Grants h r conn pubkey ed_pubkey endpoint)
