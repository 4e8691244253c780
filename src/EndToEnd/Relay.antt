-- ===== src/EndToEnd/Relay.antt =====
-- A packet on its way from one client of a room to another: `tunToStream` and `streamToTun` of
-- internal/client/vpn.go at the ends, `readLoop` and `route` of internal/server between them.
use tunel.Prelude.{
  filled, ℕ, ◌+◌, ◌-◌, ◌≤◌, ◌<◌, ◌≡◌, ◌≢◌, refl, false, List, [], ◌∷◌, ◌++◌, Option, some, ap,
  arith, nat_eq, string_eq, length, All, ==_iff, append_assoc, append-nil, map,
}
use tunel.Prelude.Map.{get}
use tunel.Protocol.Stream.{Writer}
use tunel.Protocol.Packet.{Ip4, ipv4_dst, is_broadcast}
use tunel.Protocol.Packet.Laws.{ip4_eq, packet_bytes}
use tunel.Server.Peer.{Heap, Peer, deref, modify, deref-modify, send_packet}
use tunel.Server.Room.{Room, lookup_ip}
use tunel.Server.Room
use tunel.Server.Room.Routing.{send_packet_writes}
use tunel.Server.Hub.{Hub, route, take_packet, count_rx, read_loop}
use tunel.Server.Hub.ReadLoop.{packets, IsPacket, take_all, read_loop-packets}
use tunel.Client.P2p.{Manager}
use tunel.Client.Vpn.{packet, Tun, Round, stopped, tun_to_stream, stream_to_tun}
use tunel.Client.Vpn.Pumps.{
  weight, HasNoConnection, tun_to_stream-packets, IsQuiet, stream_to_tun-packets,
}

-- Two peers of one room: the sender, and the holder of an address with its packet stream.
abbrev pub IsLinked : Hub → ℕ → ℕ → Ip4 → Writer → Type 0
IsLinked h from to ip w =
    (sender : Peer) × (receiver : Peer) × (r : Room) × (deref h.heap from ≡ some sender)
    × (get sender.room h.rooms ≡ some r)
    × (get ip r.peers ≡ some to)
    × (deref h.heap to ≡ some receiver)
    × (receiver.pkts ≡ some w)

abbrev grown : List ℕ → Writer → Writer
grown pkt w = record { written = w.written ++ packet_bytes pkt; quota = w.quota - (2 + length pkt) }

-- What `readLoop` does with a packet for the address.
take_packet_sent :
    (h : Hub) (from to : ℕ) (ip : Ip4) (sender : Peer) (r : Room) (pkt : List ℕ)
    → to ≢ from
    → is_broadcast ip ≡ false
    → ipv4_dst pkt ≡ some ip
    → deref h.heap from ≡ some sender
    → get sender.room h.rooms ≡ some r
    → get ip r.peers ≡ some to
    → take_packet from pkt h
      ≡ record h { heap = modify (send_packet pkt) to (modify count_rx from h.heap) }
unfolding take_packet route Room.route lookup_ip
take_packet_sent h from to ip sender r pkt apart single dst s in_room held =
    ground (arith, deref-modify count_rx from from h.heap, ==_iff from from, ==_iff to from)

-- A packet for the address is put on the holder's stream, and the two stay in their room.
take_packet-IsLinked :
    (h : Hub) (from to : ℕ) (ip : Ip4) (w : Writer) (pkt : List ℕ)
    → to ≢ from
    → is_broadcast ip ≡ false
    → ipv4_dst pkt ≡ some ip
    → length pkt ≤ 65535
    → 2 + length pkt ≤ w.quota
    → IsLinked h from to ip w
    → IsLinked (take_packet from pkt h) from to ip (grown pkt w)
take_packet-IsLinked h from to ip w pkt apart single dst short room
      (sender, receiver, r, s, in_room, held, t, stream) =
    let counted : Heap = modify count_rx from h.heap in
    rw (take_packet_sent h from to ip sender r pkt apart single dst s in_room held) (
      count_rx sender,
      send_packet pkt receiver,
      r,
      ground (
        arith,
        deref-modify (send_packet pkt) to from counted,
        deref-modify count_rx from from h.heap,
        ==_iff to from,
        ==_iff from from,
      ),
      in_room,
      held,
      ground (
        arith,
        deref-modify (send_packet pkt) to to counted,
        deref-modify count_rx from to h.heap,
        ==_iff from to,
        ==_iff to to,
      ),
      ground (arith, send_packet_writes pkt receiver w stream short room),
    )

-- Packets for the address, none of them empty.
abbrev pub IsFor : Ip4 → List ℕ → Type 0
IsFor ip pkt = (ipv4_dst pkt ≡ some ip) × (pkt ≢ []) × (length pkt ≤ 65535)

filled_same : (ip : Ip4) (pkts : List (List ℕ)) → All (IsFor ip) pkts → filled pkts ≡ pkts
filled_same ip [] all = refl
filled_same ip ([] ∷ pkts) ((_, full, _), all) = absurd (full refl)
filled_same ip ((x ∷ xs) ∷ pkts) (_, all) = ap (◌∷◌ (x ∷ xs)) (filled_same ip pkts all)

IsFor-IsPacket : (ip : Ip4) (pkts : List (List ℕ)) → All (IsFor ip) pkts → All IsPacket pkts
IsFor-IsPacket ip [] all = tt
IsFor-IsPacket ip (pkt ∷ pkts) ((_, _, short), all) = (short, IsFor-IsPacket ip pkts all)

IsLinked-path :
    (h : Hub) (from to : ℕ) (ip : Ip4) {v w : Writer}
    → v ≡ w
    → IsLinked h from to ip v
    → IsLinked h from to ip w
IsLinked-path h from to ip e linked = rw (← e) linked

take_all-IsLinked :
    (h : Hub) (from to : ℕ) (ip : Ip4) (w : Writer) (pkts : List (List ℕ))
    → to ≢ from
    → is_broadcast ip ≡ false
    → All (IsFor ip) pkts
    → weight pkts ≤ w.quota
    → IsLinked h from to ip w
    → IsLinked
        (take_all from pkts h)
        from
        to
        ip
        (record { written = w.written ++ packets pkts; quota = w.quota - weight pkts })
take_all-IsLinked h from to ip w [] apart single all room linked =
    IsLinked-path h from to ip (ground (arith, append-nil w.written)) linked
take_all-IsLinked h from to ip w ([] ∷ pkts) apart single ((_, full, _), all) room linked =
    absurd (full refl)
take_all-IsLinked h from to ip w ((x ∷ xs) ∷ pkts) apart single ((dst, full, short), all) room
      linked =
    IsLinked-path (take_all from ((x ∷ xs) ∷ pkts) h) from to ip
      (ground (arith, append_assoc w.written (packet_bytes (x ∷ xs)) (packets pkts)))
      (take_all-IsLinked (take_packet from (x ∷ xs) h) from to ip (grown (x ∷ xs) w) pkts apart
        single all (omega arith)
        (take_packet-IsLinked h from to ip w (x ∷ xs) apart single dst short (omega arith) linked))

-- The receiver's stream as the server leaves it, and what the receiver's device is then given.
abbrev pub AreGiven : Hub → ℕ → ℕ → Ip4 → List Round → Tun → List (List ℕ) → Type 0
AreGiven h from to ip rounds d pkts =
    (w : Writer) × IsLinked h from to ip w
    × (stream_to_tun rounds (record { pending = w.written; broken = false }) d
        ≡ (record { given = d.given ++ pkts; takes = d.takes - length pkts }, stopped))

-- What the TUN device of one client gives for the address of another client of its room, the server
-- relays, and the other's device is given the same packets, in the same order. They are IPv4 packets of at
-- most 65535 bytes, to an address that is no broadcast, with no direct connection between peers; the
-- streams and the device take what they are given, the receiver's stream is new, no context is cancelled,
-- and the loops have a round for each packet and one more.
pub packets_arrive :
    (h : Hub) (from to : ℕ) (ip : Ip4) (quota quota' fuel : ℕ) (m : Option Manager)
    (rounds : List Round) (d : Tun) (pkts : List (List ℕ))
    → to ≢ from
    → is_broadcast ip ≡ false
    → All (IsFor ip) pkts
    → IsLinked h from to ip (record { written = []; quota = quota' })
    → HasNoConnection m
    → weight pkts ≤ quota
    → weight pkts ≤ quota'
    → length pkts < fuel
    → length pkts < length rounds
    → All IsQuiet rounds
    → length pkts ≤ d.takes
    → AreGiven
        (read_loop fuel from
          (record {
            pending =
                (tun_to_stream
                  (map packet pkts)
                  m
                  (record { written = []; quota = quota })).1.written;
            broken = false;
          })
          h).0
        from
        to
        ip
        rounds
        d
        pkts
packets_arrive h from to ip quota quota' fuel m rounds d pkts apart single all linked alone room
      room' lt lt' quiet takes =
    let short : All IsPacket pkts = IsFor-IsPacket ip pkts all in
    let same : filled pkts ≡ pkts = filled_same ip pkts all in
    rw
      (
        tun_to_stream-packets pkts m (record { written = []; quota = quota }) alone short
            (rw same room),
        same,
        read_loop-packets pkts fuel from false h short lt,
      )
      (
        record { written = packets pkts; quota = quota' - weight pkts },
        take_all-IsLinked h from to ip (record { written = []; quota = quota' }) pkts apart single
            all room' linked,
        rw (stream_to_tun-packets pkts rounds d short quiet lt' (rw same takes), same) refl,
      )
