-- ===== src/Server/Dispatch.antt =====
-- The streams of a connection: `handleStream`, `handleVPNPackets` and the end of `run` in
-- internal/server/connection.go.
pub mod Soundness
use tunel.Prelude.{
  ℕ, suc, ◌++◌, List, [], ◌∷◌, Option, none, some, if◌then◌else◌, ◌==◌, length, get_or,
}
use tunel.Protocol.Stream.{Reader, Writer, Outcome, ok, err, read_full}
use tunel.Protocol.Packet.{packet_stream_magic}
use tunel.Protocol.Messages.{Control, MessageType}
use tunel.Server.Hub.{Hub, Result, done, failed, attach_packet_stream, read_loop, release_peer}
use tunel.Server.Tunnels.{close_all}
use tunel.Server.Control.{Server, Opening, handle_control}

-- The stream is given to the peer of the connection, whose `readLoop` then takes its packets.
unfoldable pub attach_and_read : ℕ → Reader → Writer → Hub → Hub
attach_and_read conn r w hub =
    let (hub', attached) = attach_packet_stream hub conn w in
    elim attached [ failed e ↦ hub' | done p ↦ (read_loop (suc (length r.pending)) p r hub').0 ]

unfoldable pub handle_vpn_packets : Reader → Writer → Server → Server
handle_vpn_packets r w s = elim s.hub [
  | none ↦ s
  | some hub ↦ record s { hub = some (attach_and_read s.conn r w hub) }
]

-- A new stream, with its two directions and the same as a control stream. `decode` stands for the
-- decoder of JSON lines: the first frame and the types of the others in the bytes that are read.
unfoldable pub handle_stream :
    (List ℕ → Opening × List MessageType) → Reader → Writer → Control → Server → Server
handle_stream decode r w control s = elim (read_full 1 r) [
  | err e r' ↦ s
  | ok first r' ↦
      let (opening, frames) = decode (first ++ r'.pending) in
      if get_or first 0 0 == packet_stream_magic
      then handle_vpn_packets r' w s
      else (handle_control opening frames control s).0
]

-- What `run` does when the session ends.
unfoldable pub finish : Server → Server
finish s = record s {
  world = close_all s.world;
  hub = elim s.hub [ none ↦ none | some hub ↦ some (release_peer hub s.conn) ];
}
