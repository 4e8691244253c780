-- ===== src/Server/Peer.antt =====
-- The `vpnPeer` of internal/server/vpn.go. Rooms hold pointers to peers: a pointer is a number, and
-- the heap says what it points to.
use tunel.Prelude.{
  ℕ, suc, ◌+◌, ◌%◌, ◌^◌, ◌≡◌, Bool, true, false, List, ◌∷◌, ◌++◌, Str, Option, none, some, arith,
  if◌then◌else◌, nat_eq, decimal, ◌==◌, ==_iff, Option-cases, inl, inr,
}
use tunel.Prelude.Map.{Map, get, put, get-put}
use tunel.Protocol.Stream.{Writer, ok, err}
use tunel.Protocol.Packet.{Ip4, write_packet}
use tunel.Protocol.Messages.{Control, Message, PeerInfo, encode}

-- A connection is known by its number, and so is a room by its name.
pub record Peer : Type 0 where
  pub room : Str
  pub ip : Ip4
  pub conn : ℕ
  pub pkts : Option Writer
  pub ctrl : Option Control
  pub cleaned : Bool
  pub pubkey : Str
  pub ed_pubkey : Str
  pub stun_endpoint : Str
  pub tx_packets : ℕ
  pub rx_packets : ℕ

pub record Heap : Type 0 where
  pub next : ℕ
  pub cells : Map ℕ Peer

unfoldable pub deref : Heap → ℕ → Option Peer
deref h p = get p h.cells

unfoldable pub store : ℕ → Peer → Heap → Heap
store p peer h = record h { cells = put p peer h.cells }

-- `&vpnPeer{…}`.
unfoldable pub alloc : Peer → Heap → Heap × ℕ
alloc peer h = (record { next = suc h.next; cells = put h.next peer h.cells }, h.next)

-- A change of the peer that a pointer points to.
unfoldable pub modify : (Peer → Peer) → ℕ → Heap → Heap
unfolding store deref
modify f p h = elim (deref h p) [ none ↦ h | some peer ↦ store p (f peer) h ]

-- `net.IP.String` of four bytes.
unfoldable pub ip_string : Ip4 → Str
ip_string x =
    decimal x.a ++ (b'.' ∷ (decimal x.b ++ (b'.' ∷ (decimal x.c ++ (b'.' ∷ decimal x.d)))))

unfoldable pub new_vpn_peer : Str → Ip4 → ℕ → Str → Str → Str → Peer
new_vpn_peer room ip conn pubkey ed_pubkey endpoint = record {
  room = room;
  ip = ip;
  conn = conn;
  pkts = none;
  ctrl = none;
  cleaned = false;
  pubkey = pubkey;
  ed_pubkey = ed_pubkey;
  stun_endpoint = endpoint;
  tx_packets = 0;
  rx_packets = 0;
}

-- A stream that this end has closed takes no more.
abbrev pub close_writer : Writer → Writer
close_writer w = record w { quota = 0 }

-- `cleanup`, which acts once.
unfoldable pub cleanup : Peer → Peer
cleanup p = if p.cleaned then p else record p {
  cleaned = true;
  pkts = elim p.pkts [ none ↦ none | some w ↦ some (close_writer w) ];
}

-- An `atomic.Int64` as its bit pattern.
abbrev pub add_one : ℕ → ℕ
add_one n = (n + 1) % 2 ^ 64

-- `WritePacket` on the peer's packet stream, and the count where it does not fail.
unfoldable pub send_packet : List ℕ → Peer → Peer
send_packet pkt p = elim p.pkts [
  | none ↦ p
  | some w ↦ elim (write_packet pkt w) [
    | ok _ w' ↦ record p { pkts = some w'; tx_packets = add_one p.tx_packets }
    | err _ w' ↦ record p { pkts = some w' }
  ]
]

-- `Encode` on the peer's control stream, its error dropped.
unfoldable pub notify : Message → Peer → Peer
notify msg p = elim p.ctrl [ none ↦ p | some c ↦ record p { ctrl = some (encode msg c).0 } ]

unfoldable pub peer_info : Peer → PeerInfo
peer_info p = record {
  pubkey = p.pubkey;
  ed_pubkey = p.ed_pubkey;
  ip = ip_string p.ip;
  stun_endpoint = p.stun_endpoint;
}

pub deref-store :
    (p q : ℕ) (peer : Peer) (h : Heap)
    → deref (store p peer h) q ≡ (if p == q then some peer else deref h q)
unfolding deref store
deref-store p q peer h = get-put p q peer h.cells

pub deref-modify :
    (f : Peer → Peer) (p q : ℕ) (h : Heap)
    → deref (modify f p h) q
      ≡ (if p == q then elim (deref h q) [ none ↦ none | some peer ↦ some (f peer) ] else deref h q)
unfolding modify
deref-modify f p q h = elim (Option-cases (deref h p)) [
  | inl gone ↦ rw (gone, modify) (ground (arith, ==_iff p q))
  | inr (peer, here) ↦ rw (here, modify) (ground (arith, ==_iff p q, deref-store p q (f peer) h))
]

pub deref-alloc :
    (peer : Peer) (q : ℕ) (h : Heap)
    → deref (alloc peer h).0 q ≡ (if h.next == q then some peer else deref h q)
unfolding deref alloc
deref-alloc peer q h = get-put h.next q peer h.cells

pub next-modify : (f : Peer → Peer) (p : ℕ) (h : Heap) → (modify f p h).next ≡ h.next
unfolding modify store
next-modify f p h = ground arith
