-- ===== src/Client/Links/Dialled.antt =====
-- Which dials lead to a connection, and what a stopped manager does: internal/client/quic.go.
use tunel.Prelude.{
  ℕ, ◌≡◌, ◌⊎◌, inl, inr, refl, true, false, List, [], ◌∷◌, Str, Option, none, some, arith,
  string_eq, str_eq_iff, Option-cases, ap,
}
use tunel.Prelude.Map.{Map, get}
use tunel.Protocol.Stream.{Writer, Outcome-cases, ok, write}
use tunel.Client.P2p.{Conn, Manager, register, route, write_frame, write_hello}
use tunel.Client.Peers.{Peers, peer_fingerprint}
use tunel.Client.Links.{verify_fingerprint, DialError, Reached, dial, close_each, stop}

-- The peer is known by a fingerprint, is reached, shows a certificate with that fingerprint, and opens a
-- stream that takes the hello.
abbrev pub IsDialled : (Str → Str) → Str → Peers → Reached → Manager → Writer → Type 0
IsDialled short_fp ip peers q m w' =
    (fp : Str) × (w : Writer) × (peer_fingerprint short_fp ip peers ≡ some fp)
    × (q.reaches ≡ true)
    × (q.shown ≡ some fp)
    × (q.opened ≡ some w)
    × (write_hello ip m.my_vpn_ip w ≡ ok tt w')

verify_fingerprint→ :
    (shown : Option Str) (fp : Str) → verify_fingerprint shown fp ≡ true → shown ≡ some fp
unfolding verify_fingerprint
verify_fingerprint→ none fp e = cc
verify_fingerprint→ (some s) fp e = ap some ((str_eq_iff s fp).0 e)

-- What a dial with no error has done.
abbrev Succeeds : (Str → Str) → Str → Peers → Reached → Manager → Type 0
Succeeds short_fp ip peers q m =
    (w : Writer) × IsDialled short_fp ip peers q m w
    × ((dial short_fp ip peers q m).0 ≡ register ip (record { stream = w }) m)

dial→ :
    (short_fp : Str → Str) (ip : Str) (peers : Peers) (q : Reached) (m : Manager)
    → (dial short_fp ip peers q m).1 ≡ none
    → Succeeds short_fp ip peers q m
unfolding dial
dial→ short_fp ip peers q m e = elim (Option-cases (peer_fingerprint short_fp ip peers)) [
  | inl unknown ↦ absurd (ground arith)
  | inr (fp, known) ↦ elim (Option-cases q.opened) [
    | inl none_opened ↦ absurd (ground arith)
    | inr (w, opens) ↦ elim (Outcome-cases (write_hello ip m.my_vpn_ip w)) [
      | inr (x, w', lost) ↦ absurd (ground arith)
      | inl (u, w', sent) ↦
          let reached : q.reaches ≡ true = ground arith in
          let verified : verify_fingerprint q.shown fp ≡ true = ground arith in
          (
            w',
            (fp, w, known, reached, verify_fingerprint→ q.shown fp verified, opens, sent),
            ground arith,
          )
    ]
  ]
]

dial← :
    (short_fp : Str → Str) (ip : Str) (peers : Peers) (q : Reached) (m : Manager) (w : Writer)
    → IsDialled short_fp ip peers q m w
    → dial short_fp ip peers q m ≡ (register ip (record { stream = w }) m, none)
unfolding dial verify_fingerprint
dial← short_fp ip peers q m w (fp, w', known, reached, shown, opens, sent) =
    ground (arith, str_eq_iff fp fp)

dial_error :
    (short_fp : Str → Str) (ip : Str) (peers : Peers) (q : Reached) (m : Manager) (e : DialError)
    → (dial short_fp ip peers q m).1 ≡ some e
    → (dial short_fp ip peers q m).0 ≡ m
unfolding dial
dial_error short_fp ip peers q m e failed = ground arith

-- Either the dial has no error and the stream is the connection of the peer, or it has one, the
-- connections are as they were, and a condition was not met.
abbrev pub IsSettled : (Str → Str) → Str → Peers → Reached → Manager → Type 0
IsSettled short_fp ip peers q m =
    ((w : Writer) × IsDialled short_fp ip peers q m w
      × (dial short_fp ip peers q m ≡ (register ip (record { stream = w }) m, none)))
    ⊎ ((e : DialError) × (dial short_fp ip peers q m ≡ (m, some e))
        × ¬ ((w : Writer) × IsDialled short_fp ip peers q m w))

-- A dial succeeds exactly if the peer is known by a fingerprint, is reached, shows a certificate with it,
-- and opens a stream that takes the hello, and that stream is then the peer's connection; after any error
-- the connections are as they were.
pub dial-IsSettled :
    (short_fp : Str → Str) (ip : Str) (peers : Peers) (q : Reached) (m : Manager)
    → IsSettled short_fp ip peers q m
dial-IsSettled short_fp ip peers q m = elim (Option-cases (dial short_fp ip peers q m).1) [
  | inl fine ↦
      let (w, is, _) = dial→ short_fp ip peers q m fine in
      inl (w, is, dial← short_fp ip peers q m w is)
  | inr (e, failed) ↦ inr (
    e,
    ground (arith, dial_error short_fp ip peers q m e failed),
    λ (w, is). ground (arith, dial← short_fp ip peers q m w is),
  )
]

close_each-get :
    (ip : Str) (m : Map Str Conn)
    → get ip (close_each m) ≡ elim (get ip m) [
      | none ↦ none
      | some c ↦ some (record { stream = record c.stream { quota = 0 } })
    ]
unfolding close_each get
close_each-get ip [] = refl
close_each-get ip ((j, c) ∷ m) = ground (arith, close_each-get ip m)

-- Once the manager is stopped, no packet is taken directly any more: all go to the server.
pub stop-route : (m : Manager) (dst : Str) (pkt : List ℕ) → (route dst pkt (stop m)).1 ≡ false
unfolding route stop write_frame write
stop-route m dst pkt = elim (Option-cases (get dst m.conns)) [
  | inl absent ↦ ground (arith, close_each-get dst m.conns)
  | inr (c, here) ↦ ground (arith, close_each-get dst m.conns)
]
