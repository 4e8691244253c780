-- ===== src/Client/P2p.antt =====
-- internal/client/quic.go: the frames and the connections of the direct transport between peers. QUIC
-- itself is a stream that is written to and read from.
pub mod Hello
pub mod Routing
use tunel.Prelude.{
  ℕ, ◌+◌, ◌*◌, ◌/◌, Bool, true, false, List, [], ◌∷◌, ◌++◌, Str, Option, none, some, if◌then◌else◌,
  string_eq, ltb, ◌==◌, ◌||◌, not, length, take, drop, get_or, arith,
}
use tunel.Prelude.Map.{Map, get, put, delete}
use tunel.Protocol.Stream.{
  Error, eof, p2p_hello_too_short, p2p_hello_mismatch, Reader, Writer, Outcome, ok, err, M, ◌>>=◌,
  ◌>>◌, pure, throw, read_full, write, byte,
}

unfoldable pub write_frame : List ℕ → M Writer (Unit {0})
write_frame xs = write (byte (length xs / 256) ∷ byte (length xs) ∷ xs)

-- The buffer's size is the argument; the result is the part of the buffer that is filled.
unfoldable pub read_frame : ℕ → M Reader (List ℕ)
read_frame size = do
  hdr ← read_full 2
  let n = get_or hdr 0 0 * 256 + get_or hdr 1 0
  if ltb size n || n == 0 then throw eof else read_full n

unfoldable pub write_hello : Str → Str → M Writer (Unit {0})
write_hello peer_ip my_ip =
    write_frame (byte (length peer_ip) ∷ byte (length my_ip) ∷ (peer_ip ++ my_ip))

-- The two addresses in a hello's data.
unfoldable pub parse_hello : List ℕ → M Reader (Str × Str)
parse_hello xs =
    let a_len = get_or xs 0 0 in
    let b_len = get_or xs 1 0 in
    if ltb (length xs) 2
    then throw p2p_hello_too_short
    else if not (a_len + b_len + 2 == length xs)
    then throw p2p_hello_mismatch
    else pure (take a_len (drop 2 xs), take b_len (drop (2 + a_len) xs))

unfoldable pub read_hello : M Reader (Str × Str)
read_hello = do xs ← read_frame 512; parse_hello xs

-- One stream to a peer.
pub record Conn : Type 0 where
  pub stream : Writer

pub record Manager : Type 0 where
  pub my_vpn_ip : Str
  pub conns : Map Str Conn

-- A connection that was there before is closed and replaced.
unfoldable pub register : Str → Conn → Manager → Manager
register ip conn m = record m { conns = put ip conn m.conns }

unfoldable pub evict : Str → Manager → Manager
evict ip m = record m { conns = delete ip m.conns }

-- True if the packet has gone to the peer directly.
unfoldable pub route : Str → List ℕ → Manager → Manager × Bool
route dst pkt m = elim (get dst m.conns) [
  | none ↦ (m, false)
  | some conn ↦ elim (write_frame pkt conn.stream) [
    | err e stream' ↦ (evict dst m, false)
    | ok _ stream' ↦ (register dst (record { stream = stream' }) m, true)
  ]
]

-- What `handleIncoming` does with the stream of a connection; its own hello may fail, and its error is
-- dropped.
abbrev pub writer_of {ℓ} : {A : Type ℓ} → Outcome Writer A → Writer
writer_of (ok a w) = w
writer_of (err e w) = w

unfoldable pub handle_incoming : Reader → Writer → Manager → Manager
handle_incoming r w m = elim (read_hello r) [
  | err e r' ↦ m
  | ok ips r' ↦ register ips.0 (record { stream = writer_of (write_hello ips.0 m.my_vpn_ip w) }) m
]

unfoldable pub active_count : Manager → ℕ
active_count m = length m.conns
