-- ===== src/Client/P2p/Routing.antt =====
-- Packets over the direct connections: `Route` of internal/client/quic.go.
use tunel.Prelude.{
  ℕ, ◌-◌, ◌/◌, ◌%◌, ◌≡◌, ◌≢◌, refl, true, false, List, ◌∷◌, ◌++◌, Str, none, some, arith, string_eq,
  str_eq_iff, length, ◌⊎◌, inl, inr, Option-cases, Bool-cases, leb,
}
use tunel.Prelude.Map.{get, get-put, get-put_self, get-delete, get-delete_self}
use tunel.Protocol.Stream.{Writer, ok, err, write, Error, write_failed}
use tunel.Client.P2p.{write_frame, Manager, Conn, register, evict, route}

abbrev frame_bytes : List ℕ → List ℕ
frame_bytes pkt = length pkt / 256 % 256 ∷ length pkt % 256 ∷ pkt

-- The frame has gone to the peer's stream.
abbrev IsSent : Str → List ℕ → Manager → Manager → Type 0
IsSent dst pkt m m' =
    (c : Conn) × (get dst m.conns ≡ some c)
    × (get dst m'.conns
        ≡ some (record {
          stream = record {
            written = c.stream.written ++ frame_bytes pkt;
            quota = c.stream.quota - length (frame_bytes pkt);
          };
        }))

-- The stream behind a frame that it took.
abbrev grown : List ℕ → Writer → Writer
grown pkt w = record {
  written = w.written ++ frame_bytes pkt;
  quota = w.quota - length (frame_bytes pkt);
}

write_frame-cases :
    (pkt : List ℕ) (w : Writer)
    → (write_frame pkt w ≡ ok tt (grown pkt w))
      ⊎ ((e : Error) × (w' : Writer) × (write_frame pkt w ≡ err e w'))
unfolding write_frame write
write_frame-cases pkt w = elim (Bool-cases (leb (length (frame_bytes pkt)) w.quota)) [
  | inl fits ↦ inl (rw fits refl)
  | inr short ↦ inr (rw short (write_failed, _, refl))
]

-- What `Route` has done of a packet.
abbrev pub IsRouted : Str → List ℕ → Manager → Type 0
IsRouted dst pkt m =
    ((((route dst pkt m).1 ≡ true) × IsSent dst pkt m (route dst pkt m).0)
      ⊎ (((route dst pkt m).1 ≡ false) × (get dst (route dst pkt m).0.conns ≡ none)))
    × ((ip : Str) → ip ≢ dst → get ip (route dst pkt m).0.conns ≡ get ip m.conns)

-- `Route` answers true exactly if the packet's frame has gone whole to the stream of the peer that it
-- is for; if it answers false, that peer has no direct connection any more. The connections to the
-- other peers stay as they were.
pub route_sends : (dst : Str) (pkt : List ℕ) (m : Manager) → IsRouted dst pkt m
unfolding route register evict
route_sends dst pkt m = elim (Option-cases (get dst m.conns)) [
  | inl absent ↦ rw (route, absent) (inr (refl, absent), λ ip other. refl)
  | inr (c, present) ↦ elim (write_frame-cases pkt c.stream) [
    | inl taken ↦
        rw (route, present, taken)
          (
            inl (
              refl,
              (c, refl, get-put_self dst (record { stream = grown pkt c.stream }) m.conns),
            ),
            λ ip other. ground (
              arith,
              get-put dst ip (record { stream = grown pkt c.stream }) m.conns,
              str_eq_iff dst ip,
            ),
          )
    | inr (e, w', lost) ↦
        rw (route, present, lost)
          (
            inr (refl, get-delete_self dst m.conns),
            λ ip other. ground (arith, get-delete dst ip m.conns, str_eq_iff dst ip),
          )
  ]
]
