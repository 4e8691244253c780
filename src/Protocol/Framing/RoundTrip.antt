-- ===== src/Protocol/Framing/RoundTrip.antt =====
-- What one end of a stream writes by internal/protocol/framing.go, the other reads back.
use tunel.Prelude.{
  ℕ, zero, suc, ◌+◌, ◌-◌, ◌/◌, ◌%◌, ◌≤◌, ◌<◌, ◌≡◌, Bool, List, [], ◌∷◌, ◌++◌, arith, Str, length,
  take, append_assoc, append-nil, length-take_le,
}
use tunel.Protocol.Stream.{
  Error, Reader, Writer, ok, err, read_full-append, read_full_short, IsReadError, write, write_fits,
  ◌>>◌,
}
use tunel.Protocol.Framing.{
  Frame, hello, datagram, goodbye, write_tunnel_id, read_tunnel_id, write_hello_frame,
  read_hello_frame, write_datagram_frame, read_frame, write_part,
}

-- The wire format, as the comment at the top of framing.go gives it.
abbrev pub frame_bytes : Frame → List ℕ
frame_bytes (hello addr) = 0x00 ∷ length addr ∷ addr
frame_bytes (datagram payload) = 0x01 ∷ length payload / 256 ∷ length payload % 256 ∷ payload
frame_bytes goodbye = 0x02 ∷ []

-- The frames that have a wire form: a length of one byte, and of two.
abbrev pub IsSendable : Frame → Type 0
IsSendable (hello addr) = length addr ≤ 255
IsSendable (datagram payload) = length payload ≤ 65535
IsSendable goodbye = Unit {0}

write_part_fits :
    (xs : List ℕ) (w : Writer)
    → length xs ≤ w.quota
    → write_part xs w ≡ ok tt (record { written = w.written ++ xs; quota = w.quota - length xs })
unfolding write_part
write_part_fits [] w h = ground (arith, append-nil w.written)
write_part_fits (x ∷ xs) w h = write_fits (x ∷ xs) w h

header_then_part :
    (xs ys : List ℕ) (w : Writer)
    → length xs + length ys ≤ w.quota
    → (write xs >> write_part ys) w
      ≡ ok tt
          (record { written = w.written ++ (xs ++ ys); quota = w.quota - (length xs + length ys) })
header_then_part xs ys w room =
    let w' : Writer = record { written = w.written ++ xs; quota = w.quota - length xs } in
    ground (arith, write_fits xs w, write_part_fits ys w', append_assoc w.written xs ys)

-- Where the stream takes them, the bytes of the HELLO format are what is written.
pub write_hello_frame-frame_bytes :
    (addr : Str) (w : Writer)
    → length addr ≤ 255
    → 2 + length addr ≤ w.quota
    → write_hello_frame addr w
      ≡ ok tt (record {
        written = w.written ++ frame_bytes (hello addr);
        quota = w.quota - (2 + length addr);
      })
unfolding write_hello_frame
write_hello_frame-frame_bytes addr w short room =
    ground (arith, header_then_part (0x00 ∷ length addr ∷ []) addr w)

-- So are the bytes of the DATAGRAM format.
pub write_datagram_frame-frame_bytes :
    (payload : List ℕ) (w : Writer)
    → length payload ≤ 65535
    → 3 + length payload ≤ w.quota
    → write_datagram_frame payload w
      ≡ ok tt (record {
        written = w.written ++ frame_bytes (datagram payload);
        quota = w.quota - (3 + length payload);
      })
unfolding write_datagram_frame
write_datagram_frame-frame_bytes payload w short room =
    ground
      (arith, header_then_part (0x01 ∷ length payload / 256 ∷ length payload % 256 ∷ []) payload w)

-- `ReadFrame` takes exactly one frame off the stream.
pub read_frame-frame_bytes :
    (f : Frame) (rest : List ℕ) (broken : Bool)
    → IsSendable f
    → read_frame (record { pending = frame_bytes f ++ rest; broken = broken })
      ≡ ok f (record { pending = rest; broken = broken })
unfolding read_frame
read_frame-frame_bytes (hello addr) rest broken short = ground (
  arith,
  read_full-append (0x00 ∷ []) (length addr ∷ addr ++ rest) broken,
  read_full-append (length addr ∷ []) (addr ++ rest) broken,
  read_full-append addr rest broken,
)
read_frame-frame_bytes (datagram payload) rest broken short =
    let size : List ℕ = length payload / 256 ∷ length payload % 256 ∷ [] in
    ground (
      arith,
      read_full-append (0x01 ∷ []) (size ++ (payload ++ rest)) broken,
      read_full-append size (payload ++ rest) broken,
      read_full-append payload rest broken,
    )
read_frame-frame_bytes goodbye rest broken short =
    ground (arith, read_full-append (0x02 ∷ []) rest broken)

-- A new stream that takes `quota` bytes, and the far end of it with `rest` behind what was written.
abbrev pub fresh : ℕ → Writer
fresh quota = record { written = []; quota = quota }

abbrev pub far_end : Writer → List ℕ → Bool → Reader
far_end w rest broken = record { pending = w.written ++ rest; broken = broken }

-- A tunnel id of 16 bits is read back as it was written.
pub read_tunnel_id-write_tunnel_id :
    (id quota : ℕ) (rest : List ℕ) (broken : Bool)
    → id < 65536
    → 2 ≤ quota
    → (w : Writer) × (write_tunnel_id id (fresh quota) ≡ ok tt w)
      × (read_tunnel_id (far_end w rest broken)
          ≡ ok id (record { pending = rest; broken = broken }))
unfolding write_tunnel_id read_tunnel_id
read_tunnel_id-write_tunnel_id id quota rest broken small room =
    let header : List ℕ = id / 256 ∷ id % 256 ∷ [] in
    (
      record { written = header; quota = quota - 2 },
      ground (arith, write_fits header (fresh quota)),
      ground (arith, read_full-append header rest broken),
    )

-- The hello is written, and read back by both readers with `rest` still to come.
abbrev pub HelloReadBack : Str → ℕ → List ℕ → Bool → Type 0
HelloReadBack addr quota rest broken =
    (w : Writer) × (write_hello_frame addr (fresh quota) ≡ ok tt w)
    × (read_frame (far_end w rest broken)
        ≡ ok (hello addr) (record { pending = rest; broken = broken }))
    × (read_hello_frame (far_end w rest broken)
        ≡ ok addr (record { pending = rest; broken = broken }))

-- A HELLO frame with an address of at most 255 bytes, on a stream that takes it, is read back by both
-- of its readers, and nothing behind it is taken.
pub read_frame-write_hello_frame :
    (addr : Str) (quota : ℕ) (rest : List ℕ) (broken : Bool)
    → length addr ≤ 255
    → 2 + length addr ≤ quota
    → HelloReadBack addr quota rest broken
unfolding read_hello_frame
read_frame-write_hello_frame addr quota rest broken short room = (
  record { written = frame_bytes (hello addr); quota = quota - (2 + length addr) },
  write_hello_frame-frame_bytes addr (fresh quota) short room,
  read_frame-frame_bytes (hello addr) rest broken short,
  ground (
    arith,
    read_full-append (0x00 ∷ length addr ∷ []) (addr ++ rest) broken,
    read_full-append addr rest broken,
  ),
)

-- The datagram is written, and read back with `rest` still to come.
abbrev pub DatagramReadBack : List ℕ → ℕ → List ℕ → Bool → Type 0
DatagramReadBack payload quota rest broken =
    (w : Writer) × (write_datagram_frame payload (fresh quota) ≡ ok tt w)
    × (read_frame (far_end w rest broken)
        ≡ ok (datagram payload) (record { pending = rest; broken = broken }))

-- A datagram of at most 65535 bytes, on a stream that takes it, is read back as it was written.
pub read_frame-write_datagram_frame :
    (payload : List ℕ) (quota : ℕ) (rest : List ℕ) (broken : Bool)
    → length payload ≤ 65535
    → 3 + length payload ≤ quota
    → DatagramReadBack payload quota rest broken
read_frame-write_datagram_frame payload quota rest broken short room = (
  record { written = frame_bytes (datagram payload); quota = quota - (3 + length payload) },
  write_datagram_frame-frame_bytes payload (fresh quota) short room,
  read_frame-frame_bytes (datagram payload) rest broken short,
)

-- What is read of the first `k` bytes of a frame is an error of the stream.
abbrev pub Refused : Frame → ℕ → Bool → Type 0
Refused f k broken =
    (e : Error) × (read_frame (record { pending = take k (frame_bytes f); broken = broken })
      ≡ err e (record { pending = []; broken = broken }))
    × IsReadError e

-- A frame that can be sent and that the stream cuts off, at any byte, is reported as the end of the stream or as the
-- transport's error, never as a frame and never as a malformed one.
pub read_frame_cut :
    (f : Frame) (k : ℕ) (broken : Bool)
    → IsSendable f
    → k < length (frame_bytes f)
    → Refused f k broken
unfolding read_frame
read_frame_cut f zero broken ok' h =
    let (e, eq, is) = read_full_short 1 (record { pending = []; broken = broken }) (omega arith) in
    (e, ground arith, is)
read_frame_cut (hello addr) (suc zero) broken ok' h =
    let (e, eq, is) = read_full_short 1 (record { pending = []; broken = broken }) (omega arith) in
    (e, ground (arith, read_full-append (0x00 ∷ []) [] broken), is)
read_frame_cut (hello addr) (suc (suc k)) broken ok' h =
    let part : Reader = record { pending = take k addr; broken = broken } in
    let (e, eq, is) =
      read_full_short (length addr) part (omega (arith, length-take_le k addr (omega arith))) in
    (
      e,
      ground (
        arith,
        read_full-append (0x00 ∷ []) (length addr ∷ take k addr) broken,
        read_full-append (length addr ∷ []) (take k addr) broken,
      ),
      is,
    )
read_frame_cut (datagram payload) (suc zero) broken ok' h =
    let (e, eq, is) = read_full_short 2 (record { pending = []; broken = broken }) (omega arith) in
    (e, ground (arith, read_full-append (0x01 ∷ []) [] broken), is)
read_frame_cut (datagram payload) (suc (suc zero)) broken ok' h =
    let size : List ℕ = length payload / 256 ∷ [] in
    let (e, eq, is) =
      read_full_short 2 (record { pending = size; broken = broken }) (omega arith) in
    (e, ground (arith, read_full-append (0x01 ∷ []) size broken), is)
read_frame_cut (datagram payload) (suc (suc (suc k))) broken ok' h =
    let size : List ℕ = length payload / 256 ∷ length payload % 256 ∷ [] in
    let part : Reader = record { pending = take k payload; broken = broken } in
    let (e, eq, is) =
      read_full_short (length payload) part
        (omega (arith, length-take_le k payload (omega arith))) in
    (
      e,
      ground (
        arith,
        read_full-append (0x01 ∷ []) (size ++ take k payload) broken,
        read_full-append size (take k payload) broken,
      ),
      is,
    )
read_frame_cut goodbye (suc k) broken ok' h = absurd (omega arith)
