-- ===== src/Server/Udp/Delivery.antt =====
-- What reaches the other side of a UDP tunnel: `serveUDP` and `pumpUDPBack` of internal/server/udp.go.
use tunel.Prelude.{
  ℕ, zero, suc, ◌+◌, ◌-◌, ◌/◌, ◌%◌, ◌≤◌, ◌<◌, ◌≡◌, refl, Bool, true, false, List, [], ◌∷◌, ◌++◌,
  Str, none, some, arith, nat_eq, string_eq, ◌≢◌, ==_iff, str_eq_iff, length, append_assoc,
  append-nil, All,
}
use tunel.Prelude.Map.{get, put, get-put, get-put_self}
use tunel.Protocol.Stream.{Writer, write_fits}
use tunel.Protocol.Framing.{Frame, hello, datagram, goodbye, write_tunnel_id}
use tunel.Protocol.Framing.RoundTrip.{
  frame_bytes, write_hello_frame-frame_bytes, write_datagram_frame-frame_bytes,
  read_frame-frame_bytes, read_frame_cut,
}
use tunel.Server.Udp.{
  Side, UdpPeer, greet_stream, add_peer, forward, serve_datagram, write_to, on_frame, evict_udp,
  pump_udp_back,
}

-- What a new peer's stream begins with.
abbrev pub opening : ℕ → Str → List ℕ → List ℕ
opening id key payload =
    (id / 256 ∷ id % 256 ∷ []) ++ (frame_bytes (hello key) ++ frame_bytes (datagram payload))

greet_stream-bytes :
    (id : ℕ) (key : Str) (w : Writer)
    → id < 65536
    → length key ≤ 255
    → 4 + length key ≤ w.quota
    → greet_stream id key w
      ≡ some (record {
        written = w.written ++ (id / 256 ∷ id % 256 ∷ []) ++ frame_bytes (hello key);
        quota = w.quota - 2 - (2 + length key);
      })
unfolding greet_stream write_tunnel_id
greet_stream-bytes id key w small short room =
    let w' : Writer = record {
      written = w.written ++ (id / 256 ∷ id % 256 ∷ []);
      quota = w.quota - 2;
    } in
    ground (
      arith,
      write_fits (id / 256 ∷ id % 256 ∷ []) w,
      write_hello_frame-frame_bytes key w' short (omega arith),
    )

-- A peer whose stream has taken a datagram.
abbrev pub grown : List ℕ → UdpPeer → UdpPeer
grown payload peer = record peer {
  stream = record {
    written = peer.stream.written ++ frame_bytes (datagram payload);
    quota = peer.stream.quota - (3 + length payload);
  };
}

pub forward_taken :
    (key : Str) (p : ℕ) (payload : List ℕ) (s : Side) (peer : UdpPeer)
    → get p s.cells ≡ some peer
    → length payload ≤ 65535
    → 3 + length payload ≤ peer.stream.quota
    → forward key p payload s ≡ record s { cells = put p (grown payload peer) s.cells }
unfolding forward
forward_taken key p payload s peer here short room =
    ground (arith, write_datagram_frame-frame_bytes payload peer.stream short room)

-- The peer of an address with its new stream, and what else is in the table.
abbrev pub IsOpened : Str → List ℕ → ℕ → Side → Side → Type 0
IsOpened key payload quota s s' =
    (get key s'.peers ≡ some s.next)
    × (get s.next s'.cells
        ≡ some (record {
          addr = key;
          stream = record {
            written = opening s.id key payload;
            quota = quota - 2 - (2 + length key) - (3 + length payload);
          };
          closed = false;
        }))
    × ((q : ℕ) → q ≢ s.next → get q s'.cells ≡ get q s.cells)
    × ((other : Str) → other ≢ key → get other s'.peers ≡ get other s.peers)

-- The first datagram of an address opens a stream of its own, on which there is then the id of the
-- tunnel, the HELLO frame with the address, and the datagram; no other stream and no other entry is
-- touched. The stream takes what is written, the address has at most 255 bytes and the datagram at
-- most 65535.
pub serve_datagram_opens :
    (key : Str) (payload : List ℕ) (quota : ℕ) (s : Side)
    → get key s.peers ≡ none
    → s.id < 65536
    → length key ≤ 255
    → length payload ≤ 65535
    → 7 + length key + length payload ≤ quota
    → IsOpened key payload quota s
        (serve_datagram key payload (some (record { written = []; quota = quota })) s)
unfolding serve_datagram add_peer
serve_datagram_opens key payload quota s new small short short' room =
    let w : Writer = record {
      written = [] ++ (s.id / 256 ∷ s.id % 256 ∷ []) ++ frame_bytes (hello key);
      quota = quota - 2 - (2 + length key);
    } in
    let peer : UdpPeer = record { addr = key; stream = w; closed = false } in
    let s' : Side = add_peer key w s in
    rw
      (
        serve_datagram,
        new,
        greet_stream-bytes s.id key (record { written = []; quota = quota }) small short
            (omega arith),
        forward_taken key s.next payload s' peer (get-put_self s.next peer s.cells) short'
            (omega arith),
      )
      (
        get-put_self key s.next s.peers,
        get-put_self s.next (grown payload peer) s'.cells,
        λ q other. ground (
          arith,
          get-put s.next q (grown payload peer) s'.cells,
          get-put s.next q peer s.cells,
          ==_iff s.next q,
        ),
        λ other apart. ground (arith, get-put key other s.next s.peers, str_eq_iff key other),
      )

-- The frames of a client, one after the other.
abbrev pub frames_bytes : List Frame → List ℕ
frames_bytes [] = []
frames_bytes (f ∷ fs) = frame_bytes f ++ frames_bytes fs

-- What is sent to the address: the datagrams that are not empty.
abbrev pub delivered : Str → List Frame → List (Str × List ℕ)
delivered addr [] = []
delivered addr (datagram [] ∷ fs) = delivered addr fs
delivered addr (datagram (x ∷ xs) ∷ fs) = (addr, x ∷ xs) ∷ delivered addr fs
delivered addr (f ∷ fs) = delivered addr fs

-- A frame that the loop goes on after.
abbrev pub GoesOn : Frame → Type 0
GoesOn (hello addr) = length addr ≤ 255
GoesOn (datagram payload) = length payload ≤ 65535
GoesOn goodbye = ⊥

-- The tunnel after the frames.
abbrev pub sent : Str → List Frame → Side → Side
sent addr fs s = record s {
  outgoing = s.outgoing ++ delivered addr fs;
  takes = s.takes - length (delivered addr fs);
}

write_to_taken :
    (addr : Str) (payload : List ℕ) (s : Side)
    → 1 ≤ s.takes
    → write_to addr payload s
      ≡ (record s { outgoing = s.outgoing ++ ((addr, payload) ∷ []); takes = s.takes - 1 }, true)
unfolding write_to
write_to_taken addr payload s room = ground arith

-- The datagrams that a client answers a peer with are sent to that peer's address, in their order, the
-- empty ones left out; when the stream ends, the peer is evicted. The frames have their wire form and
-- none of them is a goodbye, and the public socket takes what is sent.
pub pump_udp_back-delivered :
    (fs : List Frame) (fuel p : ℕ) (addr : Str) (broken : Bool) (s : Side)
    → All GoesOn fs
    → length fs < fuel
    → length (delivered addr fs) ≤ s.takes
    → pump_udp_back fuel addr p (record { pending = frames_bytes fs; broken = broken }) s
      ≡ evict_udp addr p (sent addr fs s)
unfolding pump_udp_back on_frame
pump_udp_back-delivered fs zero p addr broken s all lt room = elim lt [ ]
pump_udp_back-delivered [] (suc fuel) p addr broken s all lt room =
    let (e, eq, is) = read_frame_cut goodbye 0 broken tt (omega arith) in
    let same : s.takes - length (delivered addr []) ≡ s.takes = omega arith in
    rw (pump_udp_back, eq, append-nil s.outgoing, same) refl
pump_udp_back-delivered (hello a ∷ fs) (suc fuel) p addr broken s (short, all) lt room = ground (
  arith,
  read_frame-frame_bytes (hello a) (frames_bytes fs) broken short,
  pump_udp_back-delivered fs fuel p addr broken s all (omega arith) room,
)
pump_udp_back-delivered (goodbye ∷ fs) (suc fuel) p addr broken s (never, all) lt room =
    elim never [ ]
pump_udp_back-delivered (datagram [] ∷ fs) (suc fuel) p addr broken s (short, all) lt room =
    ground (
      arith,
      read_frame-frame_bytes (datagram []) (frames_bytes fs) broken short,
      pump_udp_back-delivered fs fuel p addr broken s all (omega arith) room,
    )
pump_udp_back-delivered (datagram (x ∷ xs) ∷ fs) (suc fuel) p addr broken s (short, all) lt room =
    let s' : Side = record s {
      outgoing = s.outgoing ++ ((addr, x ∷ xs) ∷ []);
      takes = s.takes - 1;
    } in
    ground (
      arith,
      read_frame-frame_bytes (datagram (x ∷ xs)) (frames_bytes fs) broken short,
      pump_udp_back-delivered fs fuel p addr broken s' all (omega arith) (omega arith),
      write_to_taken addr (x ∷ xs) s (omega arith),
      append_assoc s.outgoing ((addr, x ∷ xs) ∷ []) (delivered addr fs),
    )
