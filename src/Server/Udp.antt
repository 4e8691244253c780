-- ===== src/Server/Udp.antt =====
-- internal/server/udp.go: the public UDP peers of one tunnel, each with a data stream of its own. The
-- table holds pointers to peers, whose records the goroutines share.
pub mod Delivery
pub mod Table
use tunel.Prelude.{
  ℕ, zero, suc, ◌+◌, Bool, true, false, List, [], ◌∷◌, ◌++◌, Str, Option, none, some, arith,
  if◌then◌else◌, nat_eq, string_eq, ◌==◌,
}
use tunel.Prelude.Map.{Map, get, put, delete}
use tunel.Protocol.Stream.{Reader, Writer, Outcome, ok, err}
use tunel.Protocol.Framing.{
  Frame, hello, datagram, goodbye, write_tunnel_id, write_hello_frame, write_datagram_frame,
  read_frame,
}

-- `closed` is the sync.Once of `evictUDP`. The times of `lastSeen`, which nothing reads, are left out.
pub record UdpPeer : Type 0 where
  pub addr : Str
  pub stream : Writer
  pub closed : Bool

-- A tunnel's UDP side. `outgoing` is what the public socket has sent, to whom, and `takes` is how many
-- more datagrams it sends before it fails.
pub record Side : Type 0 where
  pub id : ℕ
  pub peers : Map Str ℕ
  pub next : ℕ
  pub cells : Map ℕ UdpPeer
  pub outgoing : List (Str × List ℕ)
  pub takes : ℕ

-- `evictUDP`, which acts once: the entry goes if it is still this peer's.
unfoldable pub evict_udp : Str → ℕ → Side → Side
evict_udp key p s = elim (get p s.cells) [
  | none ↦ s
  | some peer ↦ if peer.closed then s else record s {
    cells =
        put p (record peer { closed = true; stream = record peer.stream { quota = 0 } }) s.cells;
    peers = elim (get key s.peers) [
      | none ↦ s.peers
      | some q ↦ if q == p then delete key s.peers else s.peers
    ];
  }
]

-- The new stream of a peer, with its header and HELLO frame; `none` if either cannot be written.
unfoldable pub greet_stream : ℕ → Str → Writer → Option Writer
greet_stream id key w = elim (write_tunnel_id id w) [
  | err e w' ↦ none
  | ok _ w' ↦ elim (write_hello_frame key w') [ err e w'' ↦ none | ok _ w'' ↦ some w'' ]
]

unfoldable pub add_peer : Str → Writer → Side → Side
add_peer key w s = record s {
  next = suc s.next;
  cells = put s.next (record { addr = key; stream = w; closed = false }) s.cells;
  peers = put key s.next s.peers;
}

-- The frame of a datagram on the stream of a peer.
unfoldable pub forward : Str → ℕ → List ℕ → Side → Side
forward key p payload s = elim (get p s.cells) [
  | none ↦ s
  | some peer ↦ elim (write_datagram_frame payload peer.stream) [
    | ok _ w ↦ record s { cells = put p (record peer { stream = w }) s.cells }
    | err e w ↦ evict_udp key p (record s { cells = put p (record peer { stream = w }) s.cells })
  ]
]

-- One round of `serveUDP`: a datagram from an address, and the stream that `Open` gives if it is asked
-- for one.
unfoldable pub serve_datagram : Str → List ℕ → Option Writer → Side → Side
serve_datagram key payload opened s = elim (get key s.peers) [
  | some p ↦ forward key p payload s
  | none ↦ elim opened [
    | none ↦ s
    | some w ↦ elim (greet_stream s.id key w) [
      | none ↦ s
      | some w' ↦ forward key s.next payload (add_peer key w' s)
    ]
  ]
]

-- `WriteTo` of the public socket: false is an error.
unfoldable pub write_to : Str → List ℕ → Side → Side × Bool
write_to addr payload s = elim s.takes [
  | zero ↦ (s, false)
  | suc n ↦ (record s { outgoing = s.outgoing ++ ((addr, payload) ∷ []); takes = n }, true)
]

-- The switch over a frame: false if the loop ends there.
unfoldable pub on_frame : Str → Frame → Side → Side × Bool
on_frame addr (hello peer) s = (s, true)
on_frame addr (datagram []) s = (s, true)
on_frame addr (datagram (x ∷ xs)) s = write_to addr (x ∷ xs) s
on_frame addr goodbye s = (s, false)

-- `pumpUDPBack` with fuel for its rounds: each way out of the loop evicts the peer.
unfoldable pub pump_udp_back : ℕ → Str → ℕ → Reader → Side → Side
pump_udp_back zero addr p stream s = s
pump_udp_back (suc fuel) addr p stream s = elim (read_frame stream) [
  | err e stream' ↦ evict_udp addr p s
  | ok f stream' ↦
      let (s', goes_on) = on_frame addr f s in
      let rest = pump_udp_back fuel addr p stream' s' in
      if goes_on then rest else evict_udp addr p s'
]
