-- ===== src/Server/Hub/ReadLoop.antt =====
-- What `readLoop` of internal/server/vpn.go hands to the room, and when it ends.
use tunel.Prelude.{
  ℕ, zero, suc, ◌+◌, ◌≤◌, ◌<◌, ◌≡◌, Bool, true, refl, List, [], ◌∷◌, ◌++◌, arith, inl, inr, length,
  All,
}
use tunel.Protocol.Stream.{
  Reader, Outcome-cases, ok, read_full, read_full_ok, read_full_short, get_uint16,
}
use tunel.Protocol.Packet.{read_packet, max_packet_len}
use tunel.Protocol.Packet.Laws.{packet_bytes, read_packet-packet_bytes}
use tunel.Server.Hub.{Hub, read_loop, take_packet}

read_packet_shrinks :
    (size : ℕ) (r r' : Reader) (pkt : List ℕ)
    → read_packet size r ≡ ok pkt r'
    → 2 + length r'.pending ≤ length r.pending
unfolding read_packet
read_packet_shrinks size r r' pkt e = elim (Outcome-cases (read_full 2 r)) [
  | inl (hdr, s, e') ↦
      let (took, _, _) = read_full_ok 2 r s hdr e' in
      ground (arith, read_full_ok (get_uint16 hdr) s r' pkt)
  | inr (x, s, e') ↦ ground arith
]

-- Within as many rounds as its stream has bytes, and one more, `readLoop` has returned, whatever the bytes
-- are and however the stream ends; and rounds beyond these make no difference.
pub read_loop_fuel :
    (fuel more p : ℕ) (stream : Reader) (h : Hub)
    → length stream.pending < fuel
    → fuel ≤ more
    → ((read_loop fuel p stream h).1 ≡ true)
      × (read_loop fuel p stream h ≡ read_loop more p stream h)
unfolding read_loop
read_loop_fuel zero more p stream h lt le = elim lt [ ]
read_loop_fuel (suc fuel) zero p stream h lt le = elim le [ ]
read_loop_fuel (suc fuel) (suc more) p stream h lt le =
    elim (Outcome-cases (read_packet max_packet_len stream)) [
      | inl (pkt, s, e) ↦
          rw (e, read_loop)
            (read_loop_fuel fuel more p s _
              (omega (arith, read_packet_shrinks max_packet_len stream s pkt e)) (omega arith))
      | inr (x, s, e) ↦ rw (e, read_loop) (refl, refl)
    ]

-- What comes of packets that arrive one after the other.
abbrev pub take_all : ℕ → List (List ℕ) → Hub → Hub
take_all p [] h = h
take_all p ([] ∷ pkts) h = take_all p pkts h
take_all p ((x ∷ xs) ∷ pkts) h = take_all p pkts (take_packet p (x ∷ xs) h)

abbrev pub packets : List (List ℕ) → List ℕ
packets [] = []
packets (pkt ∷ pkts) = packet_bytes pkt ++ packets pkts

abbrev pub IsPacket : List ℕ → Type 0
IsPacket pkt = length pkt ≤ 65535

read_loop_end :
    (fuel p : ℕ) (h : Hub) (broken : Bool)
    → read_loop (suc fuel) p (record { pending = []; broken = broken }) h ≡ (h, true)
unfolding read_loop read_packet
read_loop_end fuel p h broken =
    let (x, e, is) = read_full_short 2 (record { pending = []; broken = broken }) (omega arith) in
    ground arith

-- The packets that a client has written, one frame each, are routed in their order, the empty ones
-- left out; then the loop returns, by the end of the stream.
pub read_loop-packets :
    (pkts : List (List ℕ)) (fuel p : ℕ) (broken : Bool) (h : Hub)
    → All IsPacket pkts
    → length pkts < fuel
    → read_loop fuel p (record { pending = packets pkts; broken = broken }) h
      ≡ (take_all p pkts h, true)
unfolding read_loop
read_loop-packets pkts zero p broken h small lt = elim lt [ ]
read_loop-packets [] (suc fuel) p broken h small lt = read_loop_end fuel p h broken
read_loop-packets ([] ∷ pkts) (suc fuel) p broken h (s, small) lt = ground (
  arith,
  read_packet-packet_bytes [] max_packet_len (packets pkts) broken,
  read_loop-packets pkts fuel p broken h small,
)
read_loop-packets ((x ∷ xs) ∷ pkts) (suc fuel) p broken h (s, small) lt = ground (
  arith,
  read_packet-packet_bytes (x ∷ xs) max_packet_len (packets pkts) broken,
  read_loop-packets pkts fuel p broken (take_packet p (x ∷ xs) h) small,
)
