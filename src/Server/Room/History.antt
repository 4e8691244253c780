-- ===== src/Server/Room/History.antt =====
-- What holds of a room of internal/server/room.go after any history of its operations.
use tunel.Prelude.{ℕ, ◌≡◌, ◌≢◌, Option, some, arith, Str, List, [], ◌∷◌, nat_eq}
use tunel.Prelude.Map.{get, get-put, get-delete}
use tunel.Protocol.Packet.{Ip4}
use tunel.Protocol.Packet.Laws.{ip4_eq, ip_eq_iff}
use tunel.Server.Peer.{Peer, Heap, deref, alloc}
use tunel.Server.Room.{Room, allocate, admit, remove, grant_peer, release_peer, route}
use tunel.Server.Room.Invariant.{IsFresh, WellFormed}
use tunel.Server.Room.Grant.{
  Grants, full, granted, grant_peer-Grants, grant_peer-WellFormed, allocated_ip,
}
use tunel.Server.Room.Release.{
  Releases, unknown, released, release_peer-Releases, release_peer-WellFormed,
}
use tunel.Server.Room.Routing.{route-WellFormed}

-- The calls that the hub makes of a room.
pub data Call : Type 0 where
  grants : ℕ → Str → Str → Str → Call
  releases : ℕ → Call
  routes : List ℕ → ℕ → Call

unfoldable pub step : Heap × Room → Call → Heap × Room
step (h, r) (grants conn pubkey ed_pubkey endpoint) =
    let (h', r', found) = grant_peer h r conn pubkey ed_pubkey endpoint in (h', r')
step (h, r) (releases conn) = let (h', r', found) = release_peer h r conn in (h', r')
step (h, r) (routes pkt from) = (route r pkt from h, r)

unfoldable pub run : Heap × Room → List Call → Heap × Room
run s [] = s
run s (c ∷ cs) = run (step s c) cs

abbrev pub Sound : Heap × Room → Type 0
Sound s = IsFresh s.0 × WellFormed s.0 s.1

pub step-Sound : (s : Heap × Room) (c : Call) → Sound s → Sound (step s c)
unfolding step
step-Sound (h, r) (grants conn pubkey ed_pubkey endpoint) (fresh, v) =
    grant_peer-WellFormed h r conn pubkey ed_pubkey endpoint fresh v
step-Sound (h, r) (releases conn) (fresh, v) = release_peer-WellFormed h r conn fresh v
step-Sound (h, r) (routes pkt from) (fresh, v) = route-WellFormed h r r pkt from fresh v

-- A sound room stays sound under any history of grants, releases and packets.
pub run-Sound : (s : Heap × Room) (cs : List Call) → Sound s → Sound (run s cs)
unfolding run
run-Sound s [] v = v
run-Sound s (c ∷ cs) v = run-Sound (step s c) cs (step-Sound s c v)

-- The room has the peer at `p` under `ip`, and no connection leads to it.
abbrev pub Orphan : Ip4 → ℕ → Heap × Room → Type 0
Orphan ip p s = (get ip s.1.peers ≡ some p) × ((conn : ℕ) → get conn s.1.by_conn ≢ some p)

Grants-Orphan :
    (h : Heap) (r : Room) (conn : ℕ) (pubkey ed_pubkey endpoint : Str) (ip : Ip4) (p : ℕ)
    (out : Heap × Room × Option ℕ)
    → Sound (h, r)
    → Grants h r conn pubkey ed_pubkey endpoint out
    → Orphan ip p (h, r)
    → Orphan ip p (out.0, out.1)
unfolding admit alloc allocate
Grants-Orphan h r conn pubkey ed_pubkey endpoint ip p out (fresh, v) (full e eq) (at, none_to) =
    rw eq (at, none_to)
Grants-Orphan h r conn pubkey ed_pubkey endpoint ip p out (fresh, v) (granted new e eq)
      (at, none_to) =
    let (inside, free) = allocated_ip h r new v e in
    let (peer, here, own, in_room) = v.held ip p at in
    rw eq (
      ground (arith, get-put new ip h.next r.peers, ip_eq_iff new ip),
      λ conn' linked. ground (arith, get-put conn conn' h.next r.by_conn, fresh p, none_to conn'),
    )

Releases-Orphan :
    (h : Heap) (r : Room) (conn : ℕ) (ip : Ip4) (p : ℕ) (out : Heap × Room × Option ℕ)
    → Sound (h, r)
    → Releases h r conn out
    → Orphan ip p (h, r)
    → Orphan ip p (out.0, out.1)
unfolding remove
Releases-Orphan h r conn ip p out s (unknown e eq) (at, none_to) = rw eq (at, none_to)
Releases-Orphan h r conn ip p out (fresh, v) (released q peer e here eq) (at, none_to) =
    let (own, here', of_conn, own_at) = v.served conn q e in
    rw eq (
      ground (arith, get-delete peer.ip ip r.peers, ip_eq_iff peer.ip ip, none_to conn),
      λ conn' linked. ground (arith, get-delete conn conn' r.by_conn, none_to conn'),
    )

step-Orphan :
    (s : Heap × Room) (c : Call) (ip : Ip4) (p : ℕ)
    → Sound s
    → Orphan ip p s
    → Orphan ip p (step s c)
unfolding step
step-Orphan (h, r) (grants conn pubkey ed_pubkey endpoint) ip p v o =
    Grants-Orphan h r conn pubkey ed_pubkey endpoint ip p _ v
      (grant_peer-Grants h r conn pubkey ed_pubkey endpoint) o
step-Orphan (h, r) (releases conn) ip p v o =
    Releases-Orphan h r conn ip p _ v (release_peer-Releases h r conn v.1) o
step-Orphan (h, r) (routes pkt from) ip p v o = o

run-Orphan :
    (s : Heap × Room) (cs : List Call) (ip : Ip4) (p : ℕ)
    → Sound s
    → Orphan ip p s
    → Orphan ip p (run s cs)
unfolding run
run-Orphan s [] ip p v o = o
run-Orphan s (c ∷ cs) ip p v o =
    run-Orphan (step s c) cs ip p (step-Sound s c v) (step-Orphan s c ip p v o)

-- One connection is served by no two pointers.
one_link :
    (h : Heap) (r : Room) (conn conn' p : ℕ)
    → WellFormed h r
    → get conn r.by_conn ≡ some p
    → get conn' r.by_conn ≡ some p
    → conn ≡ conn'
one_link h r conn conn' p v e e' =
    let (peer, here, of_conn, at) = v.served conn p e in
    let (peer', here', of_conn', at') = v.served conn' p e' in cc

Grants-replaces :
    (h : Heap) (r : Room) (conn : ℕ) (pubkey ed_pubkey endpoint : Str) (p q : ℕ) (peer : Peer)
    (out : Heap × Room × Option ℕ)
    → Sound (h, r)
    → Grants h r conn pubkey ed_pubkey endpoint out
    → get conn r.by_conn ≡ some p
    → deref h p ≡ some peer
    → out.2 ≡ some q
    → Orphan peer.ip p (out.0, out.1)
unfolding admit alloc allocate
Grants-replaces h r conn pubkey ed_pubkey endpoint p q peer out (fresh, v) (full e eq) linked here
      got =
    cc
Grants-replaces h r conn pubkey ed_pubkey endpoint p q peer out (fresh, v) (granted new e eq) linked
      here got =
    let (inside, free) = allocated_ip h r new v e in
    let (own, here', of_conn, at) = v.served conn p linked in
    rw eq (
      ground (arith, get-put new peer.ip h.next r.peers, ip_eq_iff new peer.ip),
      λ conn' link.
          ground (
            arith,
            get-put conn conn' h.next r.by_conn,
            fresh p,
            one_link h r conn conn' p v linked,
          ),
    )

-- A connection that is granted a second peer while it has one loses the first for good: whatever is
-- asked of the room later, the address of the first peer stays taken.
pub second_grant_leaks :
    (h : Heap) (r : Room) (conn : ℕ) (pubkey ed_pubkey endpoint : Str) (p q : ℕ) (peer : Peer)
    (cs : List Call)
    → Sound (h, r)
    → get conn r.by_conn ≡ some p
    → deref h p ≡ some peer
    → (grant_peer h r conn pubkey ed_pubkey endpoint).2 ≡ some q
    → get peer.ip (run (step (h, r) (grants conn pubkey ed_pubkey endpoint)) cs).1.peers ≡ some p
unfolding step
second_grant_leaks h r conn pubkey ed_pubkey endpoint p q peer cs v linked here got =
    (run-Orphan _ cs peer.ip p (step-Sound (h, r) (grants conn pubkey ed_pubkey endpoint) v) (
      Grants-replaces h r conn pubkey ed_pubkey endpoint p q peer _ v
        (grant_peer-Grants h r conn pubkey ed_pubkey endpoint) linked here got)).0
