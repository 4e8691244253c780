-- ===== src/EndToEnd/Traffic.antt =====
-- What arrives at the public port of a tunnel and what its local target is given: internal/server/udp.go
-- and tunnel.go at one end of a data stream, `handleData` of internal/client/client.go at the other.
use tunel.Prelude.{
  filled, framed_size, ℕ, ◌+◌, ◌-◌, ◌≤◌, ◌<◌, ◌≡◌, refl, Bool, true, false, List, [], ◌∷◌, ◌++◌,
  Str, some, none, arith, codes, nat_eq, string_eq, length, All, append_assoc, append-nil, map, ap,
}
use tunel.Prelude.Map.{get, put, get-put_self}
use tunel.Protocol.Stream.{Writer, write_fits}
use tunel.Protocol.Framing.{datagram, write_tunnel_id}
use tunel.Protocol.Framing.RoundTrip.{frame_bytes}
use tunel.Server.Udp.{Side, UdpPeer, serve_datagram}
use tunel.Server.Udp.Delivery.{
  opening, frames_bytes, GoesOn, forward_taken, grown, serve_datagram_opens,
}
use tunel.Server.Tcp.{handle_tcp_conn, copy_to}
use tunel.Client.Tunnels.{RemoteTunnel, Session, handed, piped, handle_data}
use tunel.Client.Tunnels.Relay.{payloads, id_bytes, handle_data-udp, handle_data-tcp}

-- The rounds of `serveUDP` for the datagrams of one address, whose stream is there.
abbrev pub serve_more : Str → List (List ℕ) → Side → Side
serve_more key [] s = s
serve_more key (payload ∷ rest) s = serve_more key rest (serve_datagram key payload none s)

-- The bytes that the datagrams take on the stream.
abbrev pub weight : List (List ℕ) → ℕ
weight payloads = framed_size 3 payloads

abbrev pub IsDatagram : List ℕ → Type 0
IsDatagram payload = length payload ≤ 65535

abbrev pub stream_after : UdpPeer → List (List ℕ) → UdpPeer
stream_after peer ps = record peer {
  stream = record {
    written = peer.stream.written ++ frames_bytes (map datagram ps);
    quota = peer.stream.quota - weight ps;
  };
}

stream_after-cons :
    (peer : UdpPeer) (payload : List ℕ) (ps : List (List ℕ))
    → stream_after (grown payload peer) ps ≡ stream_after peer (payload ∷ ps)
stream_after-cons peer payload ps = ground (
  arith,
  append_assoc peer.stream.written (frame_bytes (datagram payload))
      (frames_bytes (map datagram ps)),
)

serve_datagram_known :
    (key : Str) (payload : List ℕ) (s : Side) (p : ℕ) (peer : UdpPeer)
    → get key s.peers ≡ some p
    → get p s.cells ≡ some peer
    → length payload ≤ 65535
    → 3 + length payload ≤ peer.stream.quota
    → serve_datagram key payload none s ≡ record s { cells = put p (grown payload peer) s.cells }
unfolding serve_datagram
serve_datagram_known key payload s p peer known here short room =
    ground (arith, forward_taken key p payload s peer here short room)

serve_more_streams :
    (key : Str) (ps : List (List ℕ)) (s : Side) (p : ℕ) (peer : UdpPeer)
    → get key s.peers ≡ some p
    → get p s.cells ≡ some peer
    → All IsDatagram ps
    → weight ps ≤ peer.stream.quota
    → get p (serve_more key ps s).cells ≡ some (stream_after peer ps)
serve_more_streams key [] s p peer known here all room =
    ground (arith, append-nil peer.stream.written)
serve_more_streams key (payload ∷ ps) s p peer known here (short, all) room =
    let s' : Side = record s { cells = put p (grown payload peer) s.cells } in
    ground (
      arith,
      serve_datagram_known key payload s p peer known here short (omega arith),
      stream_after-cons peer payload ps,
      serve_more_streams key ps s' p (grown payload peer) known
          (get-put_self p (grown payload peer) s.cells) all (omega arith),
    )

payloads-map : (ps : List (List ℕ)) → payloads (map datagram ps) ≡ filled ps
payloads-map [] = refl
payloads-map ([] ∷ ps) = payloads-map ps
payloads-map ((x ∷ xs) ∷ ps) = ap (◌∷◌ (x ∷ xs)) (payloads-map ps)

datagrams_go_on : (ps : List (List ℕ)) → All IsDatagram ps → All GoesOn (map datagram ps)
datagrams_go_on [] all = tt
datagrams_go_on (payload ∷ ps) (short, all) = (short, datagrams_go_on ps all)

-- The stream of a peer has the datagrams of its address, and the local target is handed them.
abbrev pub AreHanded : Side → ℕ → Session → RemoteTunnel → Bool → List (List ℕ) → Type 0
AreHanded s p session tun broken ps =
    (peer : UdpPeer) × (get p s.cells ≡ some peer)
    × (handle_data session true (record { pending = peer.stream.written; broken = broken })
        ≡ handed tun.local (filled ps))

-- Whatever datagrams an address sends to the public port of a UDP tunnel, the client hands them to the
-- tunnel's local target in their order, the empty ones left out. The address is new and has at most 255
-- bytes, a datagram has at most 65535, the stream takes what is written, the client knows the tunnel by
-- the server's id, and its dial of the local target does not fail.
pub datagrams_arrive :
    (key : Str) (first : List ℕ) (ps : List (List ℕ)) (quota : ℕ) (s : Side) (session : Session)
    (tun : RemoteTunnel) (broken : Bool)
    → get key s.peers ≡ none
    → s.id < 65536
    → length key ≤ 255
    → All IsDatagram (first ∷ ps)
    → 4 + length key + weight (first ∷ ps) ≤ quota
    → get s.id session ≡ some tun
    → tun.proto ≡ codes "udp"
    → AreHanded
        (serve_more key ps
          (serve_datagram key first (some (record { written = []; quota = quota })) s))
        s.next
        session
        tun
        broken
        (first ∷ ps)
datagrams_arrive key first ps quota s session tun broken new small short (short', all) room known
      is =
    let (opened, here, _, _) =
      serve_datagram_opens key first quota s new small short short' (omega arith) in
    let peer : UdpPeer = record {
      addr = key;
      stream = record {
        written = opening s.id key first;
        quota = quota - 2 - (2 + length key) - (3 + length first);
      };
      closed = false;
    } in
    (
      stream_after peer ps,
      serve_more_streams key ps _ s.next peer opened here all (omega arith),
      ground (
        arith,
        handle_data-udp s.id key (map datagram (first ∷ ps)) broken session tun small
            (short', datagrams_go_on ps all) known is,
        payloads-map (first ∷ ps),
        append_assoc key (frame_bytes (datagram first)) (frames_bytes (map datagram ps)),
      ),
    )

-- The client passes the bytes of a connection to the public port of a TCP tunnel on to the tunnel's local
-- target, all of them and nothing else. The stream takes what is written, the client knows the tunnel by
-- the server's id, and its dial does not fail.
pub bytes_arrive :
    (id : ℕ) (incoming : List ℕ) (quota : ℕ) (session : Session) (tun : RemoteTunnel)
    (broken : Bool)
    → id < 65536
    → 2 + length incoming ≤ quota
    → get id session ≡ some tun
    → tun.proto ≡ codes "tcp"
    → (w : Writer) × (handle_tcp_conn id incoming (some (record { written = []; quota = quota }))
        ≡ some w)
      × (handle_data session true (record { pending = w.written; broken = broken })
          ≡ piped tun.local incoming)
unfolding handle_tcp_conn copy_to write_tunnel_id
bytes_arrive id incoming quota session tun broken small room known is =
    let header : Writer = record { written = id_bytes id; quota = quota - 2 } in
    (
      record { written = id_bytes id ++ incoming; quota = quota - 2 - length incoming },
      ground (
        arith,
        write_fits (id_bytes id) (record { written = []; quota = quota }),
        write_fits incoming header,
      ),
      handle_data-tcp id incoming broken session tun small known is,
    )
