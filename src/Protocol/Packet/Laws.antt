-- ===== src/Protocol/Packet/Laws.antt =====
-- Round trips and headers of internal/protocol/vpn.go.
use tunel.Prelude.{
  ℕ, suc, ◌*◌, ◌≢◌, ◌+◌, ◌-◌, ◌/◌, ◌%◌, ◌≤◌, ◌<◌, ◌≡◌, ◌↔◌, Bool, true, List, [], ◌∷◌, ◌++◌, arith,
  length, some, none, append_assoc, Eq,
}
use tunel.Protocol.Stream.{Writer, ok, read_full-append, write_fits, get_uint16-put_uint16}
use tunel.Protocol.Framing.RoundTrip.{fresh, far_end}
use tunel.Protocol.Packet.{Ip4, ip_eq, write_packet, read_packet, ipv4_dst, ipv4_src}

pub ip_eq_iff : (x y : Ip4) → (ip_eq x y ≡ true) ↔ (x ≡ y)
unfolding ip_eq
ip_eq_iff x y = ground arith

instance abbrev pub ip4_eq : Eq Ip4
ip4_eq = record { beq = ip_eq; beq_iff = ip_eq_iff }

-- `[2 bytes BE: length N][N bytes: raw IP packet]`.
abbrev pub packet_bytes : List ℕ → List ℕ
packet_bytes pkt = length pkt / 256 ∷ length pkt % 256 ∷ pkt

-- Where the stream takes them, the length and the packet are what is written.
pub write_packet-packet_bytes :
    (pkt : List ℕ) (w : Writer)
    → length pkt ≤ 65535
    → 2 + length pkt ≤ w.quota
    → write_packet pkt w
      ≡ ok tt
          (record { written = w.written ++ packet_bytes pkt; quota = w.quota - (2 + length pkt) })
unfolding write_packet
write_packet-packet_bytes [] w short room = ground (arith, write_fits (0 ∷ 0 ∷ []) w)
write_packet-packet_bytes (x ∷ xs) w short room =
    let size : List ℕ = suc (length xs) / 256 ∷ suc (length xs) % 256 ∷ [] in
    let w' : Writer = record { written = w.written ++ size; quota = w.quota - 2 } in
    ground (arith, write_fits size w, write_fits (x ∷ xs) w', append_assoc w.written size (x ∷ xs))

pub read_packet-packet_bytes :
    (pkt : List ℕ) (size : ℕ) (rest : List ℕ) (broken : Bool)
    → length pkt ≤ 65535
    → length pkt ≤ size
    → read_packet size (record { pending = packet_bytes pkt ++ rest; broken = broken })
      ≡ ok pkt (record { pending = rest; broken = broken })
unfolding read_packet
read_packet-packet_bytes [] size rest broken short fits =
    ground (arith, read_full-append (0 ∷ 0 ∷ []) rest broken)
read_packet-packet_bytes (x ∷ xs) size rest broken short fits = ground (
  arith,
  read_full-append (suc (length xs) / 256 ∷ suc (length xs) % 256 ∷ []) (x ∷ xs ++ rest) broken,
  read_full-append (x ∷ xs) rest broken,
  get_uint16-put_uint16 (suc (length xs)) (omega arith),
)

-- The packet is written, and read back with `rest` still to come.
abbrev pub PacketReadBack : List ℕ → ℕ → ℕ → List ℕ → Bool → Type 0
PacketReadBack pkt quota size rest broken =
    (w : Writer) × (write_packet pkt (fresh quota) ≡ ok tt w)
    × (read_packet size (far_end w rest broken)
        ≡ ok pkt (record { pending = rest; broken = broken }))

-- A packet of at most 65535 bytes, on a stream that takes it, is read back as it was written, into a
-- buffer that is large enough.
pub read_packet-write_packet :
    (pkt : List ℕ) (quota size : ℕ) (rest : List ℕ) (broken : Bool)
    → length pkt ≤ 65535
    → length pkt ≤ size
    → 2 + length pkt ≤ quota
    → PacketReadBack pkt quota size rest broken
read_packet-write_packet pkt quota size rest broken short fits room = (
  record { written = packet_bytes pkt; quota = quota - (2 + length pkt) },
  write_packet-packet_bytes pkt (fresh quota) short room,
  read_packet-packet_bytes pkt size rest broken short fits,
)

abbrev pub ip_bytes : Ip4 → List ℕ
ip_bytes x = x.a ∷ x.b ∷ x.c ∷ x.d ∷ []

-- A packet with the first twelve bytes of an IPv4 header, its addresses, and all that follows.
abbrev pub ipv4_packet : ℕ → ℕ → List ℕ → Ip4 → Ip4 → List ℕ → List ℕ
ipv4_packet version ihl fields src dst rest =
    (16 * version + ihl) ∷ (fields ++ (ip_bytes src ++ (ip_bytes dst ++ rest)))

-- What is found of the addresses of a packet, by its version.
abbrev pub Addressed : ℕ → List ℕ → Ip4 → Ip4 → Type 0
Addressed version pkt src dst =
    (version ≡ 4 → (ipv4_src pkt ≡ some src) × (ipv4_dst pkt ≡ some dst))
    × (version ≢ 4 → (ipv4_src pkt ≡ none) × (ipv4_dst pkt ≡ none))

-- Both addresses of a packet with a whole header are found if its version is 4, and neither if it is
-- another.
pub ipv4_dst_src :
    (version ihl : ℕ) (fields : List ℕ) (src dst : Ip4) (rest : List ℕ)
    → ihl < 16
    → length fields ≡ 11
    → Addressed version (ipv4_packet version ihl fields src dst rest) src dst
unfolding ipv4_dst ipv4_src
ipv4_dst_src version ihl (b1 ∷ b2 ∷ b3 ∷ b4 ∷ b5 ∷ b6 ∷ b7 ∷ b8 ∷ b9 ∷ b10 ∷ b11 ∷ []) src dst rest
      small eleven =
    ground arith
ipv4_dst_src version ihl _ src dst rest small eleven = absurd (omega arith)
