-- ===== src/Server/Room.antt =====
-- internal/server/room.go: one room of the VPN, its subnet and its peers.
pub mod Allocate
pub mod Invariant
pub mod Grant
pub mod Release
pub mod Routing
pub mod Order
pub mod History
pub mod Extends
pub mod Race
use tunel.Prelude.{
  ℕ, zero, suc, ◌+◌, ◌≡◌, Bool, true, false, List, [], ◌∷◌, ◌++◌, Str, Option, none, some, arith,
  if◌then◌else◌, nat_eq, ◌==◌, leb, ◌||◌, length, ◌-◌, ◌/◌, ◌%◌, decimal,
}
use tunel.Prelude.Map.{Map, get, put, delete}
use tunel.Protocol.Stream.{byte}
use tunel.Protocol.Packet.{Ip4, ipv4_dst, is_broadcast}
use tunel.Protocol.Packet.Laws.{ip4_eq}
use tunel.Protocol.Messages.{PeerInfo}
use tunel.Server.Peer.{
  Heap, Peer, deref, modify, alloc, new_vpn_peer, cleanup, send_packet, peer_info, ip_string,
}

-- A `*net.IPNet` of IPv4: its address and its mask.
pub record Subnet : Type 0 where
  pub ip : Ip4
  pub mask : Ip4

-- `peers` and `by_conn` hold pointers to peers.
pub record Room : Type 0 where
  pub name : Str
  pub subnet : Subnet
  pub is_private : Bool
  pub password : Str
  pub peers : Map Ip4 ℕ
  pub by_conn : Map ℕ ℕ
  pub next_ip : ℕ
  pub peer_count : ℕ

-- `none` for a subnet that is nil or not of IPv4, for which the code has an error.
unfoldable pub new_room : Str → Option Subnet → Bool → Str → Option Room
new_room name none is_private password = none
new_room name (some subnet) is_private password = some (record {
  name = name;
  subnet = subnet;
  is_private = is_private;
  password = password;
  peers = [];
  by_conn = [];
  next_ip = 1;
  peer_count = 0;
})

abbrev pub subnet_base : Room → Ip4
subnet_base r = r.subnet.ip

unfoldable pub mask_dotted : Room → Str
mask_dotted r = ip_string r.subnet.mask

-- The number of ones of a byte in which they stand at the front.
abbrev byte_ones : ℕ → Option ℕ
byte_ones x =
    if x == 0
    then some 0
    else if x == 128
    then some 1
    else if x == 192
    then some 2
    else if x == 224
    then some 3
    else if x == 240
    then some 4
    else if x == 248
    then some 5
    else if x == 252
    then some 6
    else if x == 254
    then some 7
    else if x == 255
    then some 8
    else none

-- The length of a mask whose ones stand at its front.
abbrev mask_length : List ℕ → Option ℕ
mask_length [] = some 0
mask_length (x ∷ xs) =
    let rest = mask_length xs in
    elim (byte_ones x) [
      | none ↦ none
      | some ones ↦ elim rest [
        | none ↦ none
        | some more ↦
            if ones == 8 then some (ones + more) else if more == 0 then some ones else none
      ]
    ]

abbrev hex_digit : ℕ → ℕ
hex_digit x = if leb 10 x then b'a' + (x - 10) else b'0' + x

abbrev hex_byte : ℕ → Str
hex_byte x = hex_digit (x / 16) ∷ hex_digit (x % 16) ∷ []

-- `net.IPNet.String`, with the mask in hexadecimal if it has no length.
unfoldable pub cidr : Room → Str
cidr r =
    let m = r.subnet.mask in
    ip_string r.subnet.ip
    ++ (b'/' ∷ elim (mask_length (m.a ∷ m.b ∷ m.c ∷ m.d ∷ [])) [
      | some n ↦ decimal n
      | none ↦ hex_byte m.a ++ (hex_byte m.b ++ (hex_byte m.c ++ hex_byte m.d))
    ])

-- The first host address of the subnet.
unfoldable pub gateway_ip : Room → Ip4
gateway_ip r = record r.subnet.ip { d = 1 }

abbrev pub is_taken : Ip4 → Map Ip4 ℕ → Bool
is_taken ip peers = elim (get ip peers) [ none ↦ false | some p ↦ true ]

abbrev pub with_host : Ip4 → ℕ → Ip4
with_host base oct = record base { d = oct }

-- `nextIP++` on a byte, and back to 1 from 255.
unfoldable pub advance : ℕ → ℕ
advance next = let bumped = byte (next + 1) in if leb 255 bumped then 1 else bumped

-- The rounds that are left of the loop of `allocate`, from a value of `nextIP`.
unfoldable pub allocate_loop : ℕ → Ip4 → Map Ip4 ℕ → ℕ → ℕ × Option Ip4
allocate_loop zero base peers next = (next, none)
allocate_loop (suc rounds) base peers next =
    let continue = allocate_loop rounds base peers (advance next) in
    if next == 0 || next == 255
    then continue
    else if is_taken (with_host base next) peers
    then continue
    else (advance next, some (with_host base next))

-- The next free address, or `none` for "room full".
unfoldable pub allocate : Room → Room × Option Ip4
allocate r =
    let (next, found) = allocate_loop 254 (subnet_base r) r.peers r.next_ip in
    (record r { next_ip = next }, found)

-- The part of `grantPeer` behind `allocate`, its second lock section with the count that is stored after it: the
-- pointer to the new peer is the last part.
unfoldable pub admit : Heap → Room → Ip4 → ℕ → Str → Str → Str → Heap × Room × ℕ
admit h r ip conn pubkey ed_pubkey endpoint =
    let (h', p) = alloc (new_vpn_peer r.name ip conn pubkey ed_pubkey endpoint) h in
    let peers' = put ip p r.peers in
    (h', record r { peers = peers'; by_conn = put conn p r.by_conn; peer_count = length peers' }, p)

-- `none` is the error of `allocate`; else the pointer to the new peer.
unfoldable pub grant_peer : Heap → Room → ℕ → Str → Str → Str → Heap × Room × Option ℕ
grant_peer h r conn pubkey ed_pubkey endpoint =
    let (r', found) = allocate r in
    elim found [
      | none ↦ (h, r', none)
      | some ip ↦
          let (h', r'', p) = admit h r' ip conn pubkey ed_pubkey endpoint in (h', r'', some p)
    ]

-- The part of `releasePeer` that is reached with a peer.
unfoldable pub remove : Heap → Room → ℕ → ℕ → Peer → Heap × Room
remove h r conn p peer =
    let peers' = delete peer.ip r.peers in
    (
      modify cleanup p h,
      record r { peers = peers'; by_conn = delete conn r.by_conn; peer_count = length peers' },
    )

-- `none` if the connection has no peer here; else the pointer to the peer that was removed.
unfoldable pub release_peer : Heap → Room → ℕ → Heap × Room × Option ℕ
release_peer h r conn = elim (get conn r.by_conn) [
  | none ↦ (h, r, none)
  | some p ↦ elim (deref h p) [
    | none ↦ (h, r, none)
    | some peer ↦ let (h', r') = remove h r conn p peer in (h', r', some p)
  ]
]

unfoldable pub lookup_ip : Room → Ip4 → Option ℕ
lookup_ip r ip = get ip r.peers

peer_infos : Heap → Map Ip4 ℕ → List PeerInfo
peer_infos h [] = []
peer_infos h ((ip, p) ∷ rest) = elim (deref h p) [
  | none ↦ peer_infos h rest
  | some peer ↦ peer_info peer ∷ peer_infos h rest
]

unfoldable pub peers_snapshot : Heap → Room → List PeerInfo
unfolding peer_infos
peers_snapshot h r = peer_infos h r.peers

-- The loop of `broadcast`: a peer with no packet stream is passed over by `send_packet`.
unfoldable pub broadcast_loop : List ℕ → ℕ → Map Ip4 ℕ → Heap → Heap
broadcast_loop pkt from [] h = h
broadcast_loop pkt from ((ip, p) ∷ rest) h =
    broadcast_loop pkt from rest (if p == from then h else modify (send_packet pkt) p h)

unfoldable pub broadcast : Room → List ℕ → ℕ → Heap → Heap
broadcast r pkt from h = broadcast_loop pkt from r.peers h

unfoldable pub route : Room → List ℕ → ℕ → Heap → Heap
route r pkt from h = elim (ipv4_dst pkt) [
  | none ↦ h
  | some dst ↦ if is_broadcast dst then broadcast r pkt from h else elim (lookup_ip r dst) [
    | none ↦ h
    | some target ↦ if target == from then h else modify (send_packet pkt) target h
  ]
]

abbrev pub size : Room → ℕ
size r = r.peer_count
