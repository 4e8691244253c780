-- ===== src/Server/Udp/Table.antt =====
-- The table of public peers: internal/server/udp.go.
use tunel.Prelude.{
  ℕ, zero, suc, ◌≤◌, ◌≡◌, refl, true, false, List, [], ◌∷◌, Str, Option, none, some, arith,
  if◌then◌else◌, nat_eq, string_eq, str_eq, str_eq_iff, ◌==◌, ==_iff, Option-cases, Bool-cases, inl,
  inr, ◌⊎◌,
}
use tunel.Prelude.Map.{get, put, delete, get-put, get-put_self, get-delete}
use tunel.Protocol.Stream.{Error, Reader, Writer, Outcome, ok, err}
use tunel.Protocol.Framing.{Frame, hello, datagram, goodbye, read_frame, write_datagram_frame}
use tunel.Server.Udp.{
  Side, UdpPeer, greet_stream, add_peer, forward, serve_datagram, write_to, on_frame, evict_udp,
  pump_udp_back,
}

-- The peer at `p` has the address and is not closed.
abbrev pub IsOpen : Side → Str → ℕ → Type 0
IsOpen s key p =
    (peer : UdpPeer) × (get p s.cells ≡ some peer) × (peer.addr ≡ key) × (peer.closed ≡ false)

-- Every entry leads to an open peer of its address, and a pointer that was not given leads nowhere.
pub record IsValid (s : Side) : Type 0 where
  pub unused : (p : ℕ) → s.next ≤ p → get p s.cells ≡ none
  pub live : (key : Str) (p : ℕ) → get key s.peers ≡ some p → IsOpen s key p

add_peer-IsValid : (key : Str) (w : Writer) (s : Side) → IsValid s → IsValid (add_peer key w s)
unfolding add_peer
add_peer-IsValid key w s v =
    let peer : UdpPeer = record { addr = key; stream = w; closed = false } in
    record {
      unused = λ p le. ground (arith, get-put s.next p peer s.cells, v.unused p, ==_iff s.next p);
      live = λ k p e. elim (Bool-cases (str_eq key k)) [
        | inl hit ↦
            let same : s.next ≡ p = ground (arith, get-put key k s.next s.peers) in
            (
              peer,
              ground (arith, get-put s.next p peer s.cells, ==_iff s.next p),
              (str_eq_iff key k).0 hit,
              refl,
            )
        | inr miss ↦
            let (old, here, at, is_open) =
              v.live k p (ground (arith, get-put key k s.next s.peers)) in
            (
              old,
              ground (arith, get-put s.next p peer s.cells, v.unused p, ==_iff s.next p),
              at,
              is_open,
            )
      ];
    }

-- A peer's stream changes.
restreamed-IsValid :
    (p : ℕ) (peer : UdpPeer) (w : Writer) (s : Side)
    → get p s.cells ≡ some peer
    → IsValid s
    → IsValid (record s { cells = put p (record peer { stream = w }) s.cells })
restreamed-IsValid p peer w s here v =
    let peer' : UdpPeer = record peer { stream = w } in
    record {
      unused = λ q le. ground (arith, get-put p q peer' s.cells, v.unused q, ==_iff p q);
      live = λ k q e.
          let (old, there, at, is_open) = v.live k q e in
          (
            (if p == q then peer' else old),
            ground (arith, get-put p q peer' s.cells, ==_iff p q),
            ground (arith, ==_iff p q),
            ground (arith, ==_iff p q),
          );
    }

-- The entries behind an eviction were there before, and none leads to the peer.
evicted_entry :
    (key k : Str) (p q : ℕ) (peer : UdpPeer) (s : Side)
    → get p s.cells ≡ some peer
    → peer.addr ≡ key
    → IsValid s
    → get k (elim (get key s.peers) [
      | none ↦ s.peers
      | some r ↦ if r == p then delete key s.peers else s.peers
    ])
      ≡ some q
    → (get k s.peers ≡ some q) × ((p == q) ≡ false)
evicted_entry key k p q peer s here at v e = elim (Option-cases (get key s.peers)) [
  | inl absent ↦ ground (arith, v.live k q, ==_iff p q)
  | inr (r, present) ↦ elim (Bool-cases (r == p)) [
    | inl same ↦ ground (arith, v.live k q, get-delete key k s.peers, ==_iff p q, str_eq_iff key k)
    | inr other ↦ ground (arith, v.live k q, ==_iff p q, ==_iff r p)
  ]
]

-- An eviction of a peer under its own address.
evict_udp-IsValid :
    (key : Str) (p : ℕ) (peer : UdpPeer) (s : Side)
    → get p s.cells ≡ some peer
    → peer.addr ≡ key
    → IsValid s
    → IsValid (evict_udp key p s)
unfolding evict_udp
evict_udp-IsValid key p peer s here at v =
    let gone : UdpPeer = record peer { closed = true; stream = record peer.stream { quota = 0 } } in
    elim (Bool-cases peer.closed) [
      | inl closed ↦ rw (evict_udp, here, closed) v
      | inr is_open ↦
          rw (evict_udp, here, is_open)
            (record {
              unused = λ q le. ground (arith, get-put p q gone s.cells, v.unused q, ==_iff p q);
              live = λ k q e.
                  let (there, other) = evicted_entry key k p q peer s here at v e in
                  let (old, found, own, still) = v.live k q there in
                  (old, ground (arith, get-put p q gone s.cells), own, still);
            })
    ]

Outcome-cases :
    {S A : Type 0} (o : Outcome S A)
    → ((x : A) × (w : S) × (o ≡ ok x w)) ⊎ ((e : Error) × (w : S) × (o ≡ err e w))
Outcome-cases (ok x w) = inl (x, w, refl)
Outcome-cases (err e w) = inr (e, w, refl)

forward-IsValid :
    (key : Str) (p : ℕ) (payload : List ℕ) (peer : UdpPeer) (s : Side)
    → get p s.cells ≡ some peer
    → peer.addr ≡ key
    → IsValid s
    → IsValid (forward key p payload s)
unfolding forward
forward-IsValid key p payload peer s here at v =
    elim (Outcome-cases (write_datagram_frame payload peer.stream)) [
      | inl (x, w, taken) ↦ rw (forward, here, taken) (restreamed-IsValid p peer w s here v)
      | inr (e, w, lost) ↦
          rw (forward, here, lost)
            (evict_udp-IsValid key p (record peer { stream = w })
              (record s { cells = put p (record peer { stream = w }) s.cells })
              (get-put_self p (record peer { stream = w }) s.cells) at
              (restreamed-IsValid p peer w s here v))
    ]

added :
    (key : Str) (w : Writer) (payload : List ℕ) (s : Side)
    → IsValid s
    → IsValid (forward key s.next payload (add_peer key w s))
unfolding add_peer
added key w payload s v =
    let peer : UdpPeer = record { addr = key; stream = w; closed = false } in
    forward-IsValid key s.next payload peer (add_peer key w s) (get-put_self s.next peer s.cells)
      refl (add_peer-IsValid key w s v)

-- A datagram from any address, whatever becomes of the stream that it asks for or is written to, keeps
-- the table of peers valid.
pub serve_datagram-IsValid :
    (key : Str) (payload : List ℕ) (opened : Option Writer) (s : Side)
    → IsValid s
    → IsValid (serve_datagram key payload opened s)
unfolding serve_datagram
serve_datagram-IsValid key payload opened s v = elim (Option-cases (get key s.peers)) [
  | inr (p, known) ↦
      let (peer, here, at, is_open) = v.live key p known in
      rw (serve_datagram, known) (forward-IsValid key p payload peer s here at v)
  | inl new ↦
      rw (serve_datagram, new)
        (elim (Option-cases opened) [
          | inl refused ↦ rw refused v
          | inr (w, stream) ↦ rw stream (elim (Option-cases (greet_stream s.id key w)) [
            | inl lost ↦ rw lost v
            | inr (w', greeted) ↦ rw greeted (added key w' payload s v)
          ])
        ])
]

-- A frame changes neither the table nor the peers.
on_frame_keeps :
    (addr : Str) (f : Frame) (s : Side)
    → ((on_frame addr f s).0.cells ≡ s.cells)
      × ((on_frame addr f s).0.peers ≡ s.peers)
      × ((on_frame addr f s).0.next ≡ s.next)
unfolding on_frame write_to
on_frame_keeps addr (hello peer) s = (refl, refl, refl)
on_frame_keeps addr goodbye s = (refl, refl, refl)
on_frame_keeps addr (datagram []) s = (refl, refl, refl)
on_frame_keeps addr (datagram (x ∷ xs)) s = ground arith

on_frame-IsValid : (addr : Str) (f : Frame) (s : Side) → IsValid s → IsValid (on_frame addr f s).0
on_frame-IsValid addr f s v =
    let (cells, peers, next) = on_frame_keeps addr f s in
    record { unused = rw (cells, next) v.unused; live = rw (cells, peers) v.live }

-- The loop of a peer, which ends by evicting it, keeps the table valid, whatever the client sends and
-- however long it runs.
pub pump_udp_back-IsValid :
    (fuel : ℕ) (addr : Str) (p : ℕ) (stream : Reader) (s : Side) (peer : UdpPeer)
    → get p s.cells ≡ some peer
    → peer.addr ≡ addr
    → IsValid s
    → IsValid (pump_udp_back fuel addr p stream s)
unfolding pump_udp_back
pump_udp_back-IsValid zero addr p stream s peer here at v = v
pump_udp_back-IsValid (suc fuel) addr p stream s peer here at v =
    elim (Outcome-cases (read_frame stream)) [
      | inr (e, r, ended) ↦ rw (pump_udp_back, ended) (evict_udp-IsValid addr p peer s here at v)
      | inl (f, r, got) ↦
          let s' : Side = (on_frame addr f s).0 in
          let here' : get p s'.cells ≡ some peer = rw ((on_frame_keeps addr f s).0) here in
          let v' : IsValid s' = on_frame-IsValid addr f s v in
          rw (pump_udp_back, got)
            (elim (Bool-cases (on_frame addr f s).1) [
              | inl goes_on ↦ rw goes_on (pump_udp_back-IsValid fuel addr p r s' peer here' at v')
              | inr ends ↦ rw ends (evict_udp-IsValid addr p peer s' here' at v')
            ])
    ]
