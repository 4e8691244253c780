-- ===== src/Server/Room/Release.antt =====
-- Releasing a peer: `releasePeer` of internal/server/room.go.
use tunel.Prelude.{ℕ, ◌≡◌, refl, Option, none, some, arith, ==_iff, Option-cases, inl, inr, nat_eq}
use tunel.Prelude.Map.{get, delete, get-delete, delete-Distinct}
use tunel.Protocol.Packet.{Ip4}
use tunel.Protocol.Packet.Laws.{ip4_eq, ip_eq_iff}
use tunel.Server.Peer.{Peer, Heap, deref, modify, cleanup}
use tunel.Server.Room.{Room, release_peer, remove}
use tunel.Server.Room.Invariant.{
  IsFresh, Holds, Serves, WellFormed, cleanup-Keeps, modify-IsFresh, modify-Holds, modify-Serves,
}

module _ (h : Heap) (r : Room) (conn p : ℕ) (peer : Peer) (v : WellFormed h r)
    (linked : get conn r.by_conn ≡ some p) (here : deref h p ≡ some peer) where
  abbrev after : Heap
  after = modify cleanup p h

  remove-held :
      (ip : Ip4) (q : ℕ) → get ip (delete peer.ip r.peers) ≡ some q → Holds after r.name ip q
  remove-held ip q g =
      modify-Holds cleanup p h r.name ip q cleanup-Keeps
        (v.held ip q (ground (arith, get-delete peer.ip ip r.peers)))

  -- Another connection has another peer, at another address.
  remove-served :
      (conn' q : ℕ)
      → get conn' (delete conn r.by_conn) ≡ some q
      → Serves after (delete peer.ip r.peers) conn' q
  remove-served conn' q g =
      let there : get conn' r.by_conn ≡ some q = ground (arith, get-delete conn conn' r.by_conn) in
      let (peer', here', of_conn', at') = v.served conn' q there in
      let (own, here'', of_conn, at) = v.served conn p linked in
      modify-Serves cleanup p h (delete peer.ip r.peers) conn' q cleanup-Keeps (
        peer',
        here',
        of_conn',
        ground (
          arith,
          get-delete peer.ip peer'.ip r.peers,
          get-delete conn conn' r.by_conn,
          ip_eq_iff peer.ip peer'.ip,
          ==_iff conn conn',
        ),
      )

  pub remove-WellFormed : WellFormed (remove h r conn p peer).0 (remove h r conn p peer).1
  unfolding remove
  remove-WellFormed = record {
    cursor = v.cursor;
    distinct = delete-Distinct peer.ip r.peers v.distinct;
    counted = refl;
    inside = λ ip q g. v.inside ip q (ground (arith, get-delete peer.ip ip r.peers));
    held = remove-held;
    served = remove-served;
  }

remove-IsFresh :
    (h : Heap) (r : Room) (conn p : ℕ) (peer : Peer)
    → IsFresh h
    → IsFresh (remove h r conn p peer).0
unfolding remove
remove-IsFresh h r conn p peer fresh = modify-IsFresh cleanup p h fresh

-- What `releasePeer` does in a well-formed room: nothing, for a connection that it does not know, or
-- it removes the connection's peer.
pub data Releases (h : Heap) (r : Room) (conn : ℕ) (out : Heap × Room × Option ℕ) : Type 0 where
  unknown : get conn r.by_conn ≡ none → out ≡ (h, r, none) → Releases h r conn out
  released :
      (p : ℕ) (peer : Peer)
      → get conn r.by_conn ≡ some p
      → deref h p ≡ some peer
      → out ≡ ((remove h r conn p peer).0, (remove h r conn p peer).1, some p)
      → Releases h r conn out

pub release_peer-Releases :
    (h : Heap) (r : Room) (conn : ℕ) → WellFormed h r → Releases h r conn (release_peer h r conn)
unfolding release_peer
release_peer-Releases h r conn v = elim (Option-cases (get conn r.by_conn)) [
  | inl e ↦ unknown e (rw (e, release_peer))
  | inr (p, e) ↦
      let (peer, here, of_conn, at) = v.served conn p e in
      released p peer e here (rw (e, here, release_peer))
]

Releases-WellFormed :
    (h : Heap) (r : Room) (conn : ℕ) (out : Heap × Room × Option ℕ)
    → IsFresh h
    → WellFormed h r
    → Releases h r conn out
    → IsFresh out.0 × WellFormed out.0 out.1
Releases-WellFormed h r conn out fresh v (unknown e eq) = rw eq (fresh, v)
Releases-WellFormed h r conn out fresh v (released p peer e here eq) =
    rw eq (remove-IsFresh h r conn p peer fresh, remove-WellFormed h r conn p peer v e here)

-- A release, of a connection with or without a peer, keeps a room well formed.
pub release_peer-WellFormed :
    (h : Heap) (r : Room) (conn : ℕ)
    → IsFresh h
    → WellFormed h r
    → let out = release_peer h r conn in IsFresh out.0 × WellFormed out.0 out.1
release_peer-WellFormed h r conn fresh v =
    Releases-WellFormed h r conn _ fresh v (release_peer-Releases h r conn v)
