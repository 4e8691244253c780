-- ===== src/Protocol/Framing.antt =====
-- internal/protocol/framing.go: the tunnel id header and the frames of UDP data streams.
pub mod RoundTrip
pub mod Progress
use tunel.Prelude.{
  ℕ, ◌<◌, ◌≡◌, Bool, List, [], ◌∷◌, ◌++◌, arith, Str, ltb, ◌==◌, if◌then◌else◌, length, not, get_or,
}
use tunel.Protocol.Stream.{
  Error, hello_too_long, datagram_too_long, expected_hello, unknown_frame, datagram_exceeds_max,
  Reader, Writer, M, ◌>>=◌, ◌>>◌, pure, throw, read_full, write, byte, uint16, put_uint16,
  get_uint16,
}

abbrev pub tunnel_id_len : ℕ
tunnel_id_len = 2

abbrev pub frame_hello : ℕ
frame_hello = 0x00

abbrev pub frame_datagram : ℕ
frame_datagram = 0x01

abbrev pub frame_goodbye : ℕ
frame_goodbye = 0x02

abbrev pub max_datagram_len : ℕ
max_datagram_len = 65535

-- What `ReadFrame` returns of each type: an address, a payload, or neither.
pub data Frame : Type 0 where
  hello : Str → Frame
  datagram : List ℕ → Frame
  goodbye : Frame

unfoldable pub write_tunnel_id : ℕ → M Writer (Unit {0})
write_tunnel_id id = write (put_uint16 id)

unfoldable pub read_tunnel_id : M Reader ℕ
read_tunnel_id = do buf ← read_full tunnel_id_len; pure (get_uint16 buf)

-- A part that has no bytes is not written.
unfoldable pub write_part : List ℕ → M Writer (Unit {0})
write_part [] = pure tt
write_part (x ∷ xs) = write (x ∷ xs)

unfoldable pub write_hello_frame : Str → M Writer (Unit {0})
unfolding write_part
write_hello_frame peer =
    if ltb 255 (length peer)
    then throw (hello_too_long (length peer))
    else do write (frame_hello ∷ byte (length peer) ∷ []); write_part peer

unfoldable pub read_hello_frame : M Reader Str
read_hello_frame = do
  hdr ← read_full 2
  if not (get_or hdr 0 0 == frame_hello)
      then throw (expected_hello (get_or hdr 0 0))
      else read_full (get_or hdr 1 0)

unfoldable pub write_datagram_frame : List ℕ → M Writer (Unit {0})
unfolding write_part
write_datagram_frame data' =
    if ltb max_datagram_len (length data')
    then throw (datagram_too_long (length data'))
    else do write (frame_datagram ∷ put_uint16 (uint16 (length data'))); write_part data'

read_hello_body : M Reader Frame
read_hello_body = do len ← read_full 1; peer ← read_full (get_or len 0 0); pure (hello peer)

-- A 16-bit length never passes the maximum, but the code tests it.
read_datagram_body : M Reader Frame
read_datagram_body = do
  len ← read_full 2
  if ltb max_datagram_len (get_uint16 len)
      then throw (datagram_exceeds_max (get_uint16 len))
      else do payload ← read_full (get_uint16 len); pure (datagram payload)

-- The buffer of the caller holds the payload or a larger one does; the bytes are the same.
unfoldable pub read_frame : M Reader Frame
unfolding read_hello_body read_datagram_body
read_frame = do
  hdr ← read_full 1
  let kind = get_or hdr 0 0
  if kind == frame_hello
      then read_hello_body
      else if kind == frame_datagram
      then read_datagram_body
      else if kind == frame_goodbye
      then pure goodbye
      else throw (unknown_frame kind)
