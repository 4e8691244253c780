-- ===== src/Client/Tunnels/Relay.antt =====
-- What a data stream brings to a local target: `handleData`, `relayTCP` and `relayUDP` of
-- internal/client/client.go.
use tunel.Prelude.{
  ℕ, zero, suc, ◌/◌, ◌%◌, ◌≤◌, ◌<◌, ◌≡◌, refl, Bool, true, List, [], ◌∷◌, ◌++◌, Str, some, arith,
  codes, nat_eq, string_eq, str_eq, length, All, inl, inr, length-append,
}
use tunel.Prelude.Map.{get}
use tunel.Protocol.Stream.{Reader, Outcome-cases, ok, read_full-append}
use tunel.Protocol.Framing.{
  Frame, hello, datagram, goodbye, read_frame, read_hello_frame, read_tunnel_id,
}
use tunel.Protocol.Framing.Progress.{read_frame_shrinks}
use tunel.Protocol.Framing.RoundTrip.{frame_bytes, read_frame-frame_bytes, read_frame_cut}
use tunel.Server.Udp.Delivery.{frames_bytes, GoesOn}
use tunel.Client.Tunnels.{
  RemoteTunnel, Session, piped, handed, stream_to_local, on_frame, relay, relay_udp, relay_tcp,
  handle_data,
}

-- Fuel beyond the bytes of the stream makes no difference: the loop has ended by then.
pub stream_to_local_fuel :
    (fuel more : ℕ) (stream : Reader)
    → length stream.pending < fuel
    → fuel ≤ more
    → stream_to_local fuel stream ≡ stream_to_local more stream
unfolding stream_to_local
stream_to_local_fuel zero more stream lt le = elim lt [ ]
stream_to_local_fuel (suc fuel) zero stream lt le = elim le [ ]
stream_to_local_fuel (suc fuel) (suc more) stream lt le = elim (Outcome-cases (read_frame stream)) [
  | inl (f, s, e) ↦
      rw
        (
          e,
          stream_to_local,
          stream_to_local_fuel fuel more s (omega (arith, read_frame_shrinks stream s f e))
              (omega arith),
        )
        refl
  | inr (x, s, e) ↦ rw (e, stream_to_local)
]

-- The datagrams of the frames that are not empty.
abbrev pub payloads : List Frame → List (List ℕ)
payloads [] = []
payloads (datagram [] ∷ fs) = payloads fs
payloads (datagram (x ∷ xs) ∷ fs) = (x ∷ xs) ∷ payloads fs
payloads (f ∷ fs) = payloads fs

pub stream_to_local-frames_bytes :
    (fs : List Frame) (fuel : ℕ) (broken : Bool)
    → All GoesOn fs
    → length fs < fuel
    → stream_to_local fuel (record { pending = frames_bytes fs; broken = broken }) ≡ payloads fs
unfolding stream_to_local on_frame
stream_to_local-frames_bytes fs zero broken all lt = elim lt [ ]
stream_to_local-frames_bytes [] (suc fuel) broken all lt =
    let (e, eq, is) = read_frame_cut goodbye 0 broken tt (omega arith) in
    rw (stream_to_local, eq) refl
stream_to_local-frames_bytes (hello a ∷ fs) (suc fuel) broken (short, all) lt = ground (
  arith,
  read_frame-frame_bytes (hello a) (frames_bytes fs) broken short,
  stream_to_local-frames_bytes fs fuel broken all (omega arith),
)
stream_to_local-frames_bytes (goodbye ∷ fs) (suc fuel) broken (never, all) lt = elim never [ ]
stream_to_local-frames_bytes (datagram [] ∷ fs) (suc fuel) broken (short, all) lt = ground (
  arith,
  read_frame-frame_bytes (datagram []) (frames_bytes fs) broken short,
  stream_to_local-frames_bytes fs fuel broken all (omega arith),
)
stream_to_local-frames_bytes (datagram (x ∷ xs) ∷ fs) (suc fuel) broken (short, all) lt = ground (
  arith,
  read_frame-frame_bytes (datagram (x ∷ xs)) (frames_bytes fs) broken short,
  stream_to_local-frames_bytes fs fuel broken all (omega arith),
)

-- Every frame has a byte at least.
length-frames_bytes : (fs : List Frame) → length fs ≤ length (frames_bytes fs)
length-frames_bytes [] = omega arith
length-frames_bytes (f ∷ fs) =
    omega (arith, full f, length-append (frame_bytes f) (frames_bytes fs), length-frames_bytes fs)
  where
    full : (f : Frame) → 1 ≤ length (frame_bytes f)
    full (hello a) = omega arith
    full (datagram p) = omega arith
    full goodbye = omega arith

-- The header of a data stream, two bytes.
abbrev pub id_bytes : ℕ → List ℕ
id_bytes id = id / 256 ∷ id % 256 ∷ []

read_tunnel_id-id_bytes :
    (id : ℕ) (rest : List ℕ) (broken : Bool)
    → id < 65536
    → read_tunnel_id (record { pending = id_bytes id ++ rest; broken = broken })
      ≡ ok id (record { pending = rest; broken = broken })
unfolding read_tunnel_id
read_tunnel_id-id_bytes id rest broken small =
    ground (arith, read_full-append (id_bytes id) rest broken)

read_hello_frame-frame_bytes :
    (addr : Str) (rest : List ℕ) (broken : Bool)
    → read_hello_frame (record { pending = frame_bytes (hello addr) ++ rest; broken = broken })
      ≡ ok addr (record { pending = rest; broken = broken })
unfolding read_hello_frame
read_hello_frame-frame_bytes addr rest broken = ground (
  arith,
  read_full-append (0x00 ∷ length addr ∷ []) (addr ++ rest) broken,
  read_full-append addr rest broken,
)

-- A data stream of a UDP tunnel that the session knows: its header, a HELLO and frames.
pub handle_data-udp :
    (id : ℕ) (addr : Str) (fs : List Frame) (broken : Bool) (s : Session) (tun : RemoteTunnel)
    → id < 65536
    → All GoesOn fs
    → get id s ≡ some tun
    → tun.proto ≡ codes "udp"
    → handle_data s true (record {
      pending = id_bytes id ++ (frame_bytes (hello addr) ++ frames_bytes fs);
      broken = broken;
    })
      ≡ handed tun.local (payloads fs)
unfolding handle_data relay relay_udp str_eq
handle_data-udp id addr fs broken s tun small all known is = ground (
  arith,
  read_tunnel_id-id_bytes id (frame_bytes (hello addr) ++ frames_bytes fs) broken small,
  read_hello_frame-frame_bytes addr (frames_bytes fs) broken,
  stream_to_local-frames_bytes fs (suc (length (frames_bytes fs))) broken all
      (omega (arith, length-frames_bytes fs)),
)

-- A data stream of a TCP tunnel that the session knows.
pub handle_data-tcp :
    (id : ℕ) (bytes : List ℕ) (broken : Bool) (s : Session) (tun : RemoteTunnel)
    → id < 65536
    → get id s ≡ some tun
    → tun.proto ≡ codes "tcp"
    → handle_data s true (record { pending = id_bytes id ++ bytes; broken = broken })
      ≡ piped tun.local bytes
unfolding handle_data relay relay_tcp str_eq
handle_data-tcp id bytes broken s tun small known is =
    ground (arith, read_tunnel_id-id_bytes id bytes broken small)
