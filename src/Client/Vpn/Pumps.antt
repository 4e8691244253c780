-- ===== src/Client/Vpn/Pumps.antt =====
-- What the loops between the TUN device and the packet stream carry: internal/client/vpn.go.
use tunel.Prelude.{
  filled, framed_size, Bool, true, if◌then◌else◌, ℕ, ◌+◌, ◌-◌, ◌≤◌, ◌<◌, ◌≡◌, refl, false, List, [],
  ◌∷◌, ◌++◌, Option, none, some, arith, length, All, append_assoc, append-nil, map, string_eq,
  Option-cases, inl, inr,
}
use tunel.Prelude.Map.{get}
use tunel.Protocol.Stream.{Writer, read_full, err, eof, transport}
use tunel.Protocol.Packet.{ipv4_dst, read_packet, max_packet_len}
use tunel.Protocol.Packet.Laws.{packet_bytes, write_packet-packet_bytes, read_packet-packet_bytes}
use tunel.Server.Hub.ReadLoop.{packets, IsPacket}
use tunel.Client.P2p.{Manager, route}
use tunel.Client.Vpn.{
  packet, device_failed, waiting, stopped, broken, go_direct, tun_to_stream, Tun, tun_write, Round,
  stream_to_tun,
}

-- The bytes that the packets take on the stream.
abbrev pub weight : List (List ℕ) → ℕ
weight pkts = framed_size 2 pkts

-- There is no manager, or it has no connection.
abbrev pub HasNoConnection : Option Manager → Type 0
HasNoConnection none = Unit {0}
HasNoConnection (some m) = m.conns ≡ []

go_direct-none :
    (pkt : List ℕ) (m : Option Manager) → HasNoConnection m → go_direct pkt m ≡ (m, false)
unfolding go_direct route get
go_direct-none pkt none h = refl
go_direct-none pkt (some m) h = elim (Option-cases (ipv4_dst pkt)) [
  | inl e ↦ ground arith
  | inr (dst, e) ↦ ground arith
]

pub tun_to_stream-packets :
    (pkts : List (List ℕ)) (m : Option Manager) (w : Writer)
    → HasNoConnection m
    → All IsPacket pkts
    → weight (filled pkts) ≤ w.quota
    → tun_to_stream (map packet pkts) m w ≡ (
      m,
      record {
        written = w.written ++ packets (filled pkts);
        quota = w.quota - weight (filled pkts);
      },
      waiting,
    )
unfolding tun_to_stream
tun_to_stream-packets [] m w h all room = ground (arith, append-nil w.written)
tun_to_stream-packets ([] ∷ pkts) m w h (short, all) room =
    tun_to_stream-packets pkts m w h all room
tun_to_stream-packets ((x ∷ xs) ∷ pkts) m w h (short, all) room =
    let w' : Writer = record {
      written = w.written ++ packet_bytes (x ∷ xs);
      quota = w.quota - (2 + length (x ∷ xs));
    } in
    ground (
      arith,
      go_direct-none (x ∷ xs) m h,
      write_packet-packet_bytes (x ∷ xs) w short (omega arith),
      append_assoc w.written (packet_bytes (x ∷ xs)) (packets (filled pkts)),
      tun_to_stream-packets pkts m w' h all (omega arith),
    )

read_packet_end :
    read_packet max_packet_len (record { pending = []; broken = false })
    ≡ err eof (record { pending = []; broken = false })
unfolding read_packet read_full
read_packet_end = refl

-- The context is not cancelled in any of the rounds.
abbrev pub IsQuiet : Round → Type 0
IsQuiet t = (t.cancelled_before ≡ false) × (t.cancelled_writing ≡ false)

-- The device is given the packets that the server has written, in their order, the empty ones left out;
-- then the loop returns without an error when the stream ends, wherever that is.
pub stream_to_tun-packets :
    (pkts : List (List ℕ)) (rounds : List Round) (d : Tun)
    → All IsPacket pkts
    → All IsQuiet rounds
    → length pkts < length rounds
    → length (filled pkts) ≤ d.takes
    → stream_to_tun rounds (record { pending = packets pkts; broken = false }) d
      ≡ (record { given = d.given ++ filled pkts; takes = d.takes - length (filled pkts) }, stopped)
unfolding stream_to_tun tun_write
stream_to_tun-packets pkts [] d all quiet lt room = elim lt [ ]
stream_to_tun-packets [] (t ∷ rounds) d all (quiet, _) lt room =
    ground (arith, read_packet_end, append-nil d.given)
stream_to_tun-packets ([] ∷ pkts) (t ∷ rounds) d (short, all) (quiet, later) lt room = ground (
  arith,
  read_packet-packet_bytes [] max_packet_len (packets pkts) false,
  stream_to_tun-packets pkts rounds d all later (omega arith) room,
)
stream_to_tun-packets ((x ∷ xs) ∷ pkts) (t ∷ rounds) d (short, all) (quiet, later) lt room =
    let d' : Tun = record { given = d.given ++ ((x ∷ xs) ∷ []); takes = d.takes - 1 } in
    ground (
      arith,
      read_packet-packet_bytes (x ∷ xs) max_packet_len (packets pkts) false,
      append_assoc d.given ((x ∷ xs) ∷ []) (filled pkts),
      stream_to_tun-packets pkts rounds d' all later (omega arith) (omega arith),
    )

read_packet_broken :
    read_packet max_packet_len (record { pending = []; broken = true })
    ≡ err transport (record { pending = []; broken = true })
unfolding read_packet read_full
read_packet_broken = refl

-- How the loop to the device returns once it has passed on what the server has written: without an error
-- if the server has closed the stream, and with one if the transport has failed.
pub stream_to_tun_end :
    (pkts : List (List ℕ)) (rounds : List Round) (d : Tun) (lost : Bool)
    → All IsPacket pkts
    → All IsQuiet rounds
    → length pkts < length rounds
    → length (filled pkts) ≤ d.takes
    → (stream_to_tun rounds (record { pending = packets pkts; broken = lost }) d).1
      ≡ (if lost then broken else stopped)
unfolding stream_to_tun tun_write
stream_to_tun_end pkts [] d lost all quiet lt room = elim lt [ ]
stream_to_tun_end [] (t ∷ rounds) d false all (quiet, _) lt room = ground (arith, read_packet_end)
stream_to_tun_end [] (t ∷ rounds) d true all (quiet, _) lt room = ground (arith, read_packet_broken)
stream_to_tun_end ([] ∷ pkts) (t ∷ rounds) d lost (short, all) (quiet, later) lt room = ground (
  arith,
  read_packet-packet_bytes [] max_packet_len (packets pkts) lost,
  stream_to_tun_end pkts rounds d lost all later (omega arith) room,
)
stream_to_tun_end ((x ∷ xs) ∷ pkts) (t ∷ rounds) d lost (short, all) (quiet, later) lt room =
    let d' : Tun = record { given = d.given ++ ((x ∷ xs) ∷ []); takes = d.takes - 1 } in
    ground (
      arith,
      read_packet-packet_bytes (x ∷ xs) max_packet_len (packets pkts) lost,
      stream_to_tun_end pkts rounds d' lost all later (omega arith) (omega arith),
    )

-- The loop from the device returns without an error when the device fails.
pub tun_to_stream_end :
    (pkts : List (List ℕ)) (m : Option Manager) (w : Writer)
    → HasNoConnection m
    → All IsPacket pkts
    → weight (filled pkts) ≤ w.quota
    → (tun_to_stream (map packet pkts ++ (device_failed ∷ [])) m w).2 ≡ stopped
unfolding tun_to_stream
tun_to_stream_end [] m w h all room = refl
tun_to_stream_end ([] ∷ pkts) m w h (short, all) room = tun_to_stream_end pkts m w h all room
tun_to_stream_end ((x ∷ xs) ∷ pkts) m w h (short, all) room =
    let w' : Writer = record {
      written = w.written ++ packet_bytes (x ∷ xs);
      quota = w.quota - (2 + length (x ∷ xs));
    } in
    ground (
      arith,
      go_direct-none (x ∷ xs) m h,
      write_packet-packet_bytes (x ∷ xs) w short (omega arith),
      tun_to_stream_end pkts m w' h all (omega arith),
    )
