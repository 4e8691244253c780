-- ===== src/Protocol/Packet.antt =====
-- internal/protocol/vpn.go: IP packets on the packet stream, and the addresses in their headers.
pub mod Laws
use tunel.Prelude.{
  ℕ, ◌+◌, ◌/◌, ◌^◌, Bool, true, false, List, [], ◌∷◌, ◌++◌, arith, Option, none, some, ltb, ◌==◌,
  if◌then◌else◌, length, not, get_or, take, drop, ◌&&◌, ◌||◌,
}
use tunel.Protocol.Stream.{
  Error, bad_magic, packet_too_long, packet_exceeds_buffer, Reader, Writer, M, ◌>>=◌, ◌>>◌, pure,
  throw, read_full, write, uint16, put_uint16, get_uint16,
}

abbrev pub packet_stream_magic : ℕ
packet_stream_magic = 0x9A

abbrev pub max_packet_len : ℕ
max_packet_len = 65535

unfoldable pub write_packet_stream_magic : M Writer (Unit {0})
write_packet_stream_magic = write (packet_stream_magic ∷ [])

unfoldable pub read_packet_stream_magic : M Reader (Unit {0})
read_packet_stream_magic = do
  buf ← read_full 1
  if not (get_or buf 0 0 == packet_stream_magic) then throw bad_magic else pure tt

unfoldable pub write_packet : List ℕ → M Writer (Unit {0})
write_packet pkt =
    if ltb max_packet_len (length pkt)
    then throw packet_too_long
    else do write (put_uint16 (uint16 (length pkt))); if length pkt == 0 then pure tt else write pkt

-- `cap(dst)` is the argument; the result is `dst[:n]`.
unfoldable pub read_packet : ℕ → M Reader (List ℕ)
read_packet cap = do
  hdr ← read_full 2
  let n = get_uint16 hdr
  if n == 0
      then pure []
      else if ltb max_packet_len n || ltb cap n
      then throw packet_exceeds_buffer
      else read_full n

-- A `[4]byte`.
pub record Ip4 : Type 0 where
  pub a : ℕ
  pub b : ℕ
  pub c : ℕ
  pub d : ℕ

unfoldable pub ip_eq : Ip4 → Ip4 → Bool
ip_eq x y = x.a == y.a && (x.b == y.b && (x.c == y.c && x.d == y.d))

-- `copy(dst[:], pkt[k:k+4])` of a packet that is long enough.
address_at : ℕ → List ℕ → Ip4
address_at k pkt = record {
  a = get_or pkt k 0;
  b = get_or pkt (k + 1) 0;
  c = get_or pkt (k + 2) 0;
  d = get_or pkt (k + 3) 0;
}

unfoldable pub ipv4_dst : List ℕ → Option Ip4
unfolding address_at
ipv4_dst pkt =
    if ltb (length pkt) 20
    then none
    else if not (get_or pkt 0 0 / 2 ^ 4 == 4)
    then none
    else some (address_at 16 pkt)

unfoldable pub ipv4_src : List ℕ → Option Ip4
unfolding address_at
ipv4_src pkt =
    if ltb (length pkt) 20
    then none
    else if not (get_or pkt 0 0 / 2 ^ 4 == 4)
    then none
    else some (address_at 12 pkt)

unfoldable pub is_broadcast : Ip4 → Bool
unfolding ip_eq
is_broadcast dst = ip_eq dst (record { a = 255; b = 255; c = 255; d = 255 }) || dst.d == 255
