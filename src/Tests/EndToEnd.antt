-- ===== src/Tests/EndToEnd.antt =====
-- A game behind a tunnel, and two peers of a VPN room, at which the theorems on both ends apply.
use mathlib.Core.List.{Memᴰ}
use tunel.Prelude.{
  ◌≡◌, ◌≢◌, inl, refl, false, List, [], ◌∷◌, ℕ, Str, pos, codes, none, some, arith, nat_eq,
  string_eq, map, str_eq,
}
use tunel.Prelude.Map.{get}
use tunel.Protocol.Messages.{Control}
use tunel.Protocol.Packet.{Ip4, ipv4_dst, is_broadcast, ip_eq}
use tunel.Protocol.Packet.Laws.{ip4_eq}
use tunel.Client.Spec.{TunnelSpec, check_config, check_tunnels, known_proto, is_port}
use tunel.Client.Spec as ClientSpec
use tunel.Client.Tunnels.{RemoteTunnel, Session}
use tunel.Client.Vpn.{Round, Tun, packet, tun_to_stream}
use tunel.Server.Control.{Config}
use tunel.Server.Tunnels.{World}
use tunel.Server.Udp.{Side, serve_datagram}
use tunel.Server.Peer.{Peer, deref}
use tunel.Server.Room.{Room}
use tunel.Server.Hub.{Hub, read_loop, subnet_number}
use tunel.EndToEnd.Grant.{IsAgreed, grant_tunnel-IsAgreed}
use tunel.EndToEnd.Traffic.{AreHanded, serve_more, datagrams_arrive}
use tunel.EndToEnd.Relay.{AreGiven, IsLinked, packets_arrive}

abbrev game : TunnelSpec
game = record {
  proto = codes "udp";
  public_port = pos 19132;
  local_target = codes "localhost:19132";
  name = [];
}

abbrev client : ClientSpec.Config
client = record {
  server = codes "example.org:7000";
  token = codes "secret";
  tunnels = game ∷ [];
  ca_cert = [];
  insecure = false;
  tls = false;
  max_attempts = pos 2;
}

client-accepted : check_config client ≡ none
unfolding check_config check_tunnels known_proto is_port str_eq
client-accepted = refl

abbrev server : Config
server = record { token = codes "secret"; allowed_ports = [] }

abbrev world : World
world = record {
  conn_id = codes "1";
  tunnels = [];
  ports = [];
  next_id = 258;
  closed = false;
  next_ref = 0;
  cells = [];
  tcp = [];
  udp = [];
  refusal = codes "address already in use";
}

abbrev control : Control
control = record { sent = []; takes = 9 }

free : (get 19132 world.ports ≡ none) × (get 19132 world.tcp ≡ none) × (get 19132 world.udp ≡ none)
unfolding get
free = (refl, refl, refl)

grant_tunnel-IsAgreed_example : IsAgreed (codes "secret") server game 19132 control world control []
grant_tunnel-IsAgreed_example =
    grant_tunnel-IsAgreed client server game 19132 control world control [] client-accepted
      (Memᴰ.head refl) refl refl (inl refl) (refl, free.0, free.1, free.2, omega arith)
      (omega arith) (omega arith)

abbrev player : Str
player = codes "1.2.3.4:5"

abbrev side : Side
side = record { id = 258; peers = []; next = 0; cells = []; outgoing = []; takes = 7 }

abbrev remote : RemoteTunnel
remote = record { spec = game; local = codes "localhost:19132"; proto = codes "udp"; name = [] }

abbrev session : Session
session = (258, remote) ∷ []

lookups : (get player side.peers ≡ none) × (get 258 session ≡ some remote)
unfolding get
lookups = (refl, refl)

abbrev datagrams : List (List ℕ)
datagrams = [] ∷ (3 ∷ []) ∷ []

datagrams_arrive_example :
    AreHanded
      (serve_more player datagrams
        (serve_datagram player (1 ∷ 2 ∷ []) (some (record { written = []; quota = 99 })) side))
      0
      session
      remote
      false
      ((1 ∷ 2 ∷ []) ∷ datagrams)
datagrams_arrive_example =
    datagrams_arrive player (1 ∷ 2 ∷ []) datagrams 99 side session remote false lookups.0
      (omega arith) (omega arith) (ground arith) (omega arith) lookups.1 refl

abbrev address : ℕ → Ip4
address host = record { a = 10; b = 99; c = 0; d = host }

abbrev sender : Peer
sender = record {
  room = codes "lobby";
  ip = address 1;
  conn = 1;
  pkts = none;
  ctrl = none;
  cleaned = false;
  pubkey = [];
  ed_pubkey = [];
  stun_endpoint = [];
  tx_packets = 0;
  rx_packets = 0;
}

abbrev receiver : Peer
receiver = record sender {
  ip = address 2;
  conn = 2;
  pkts = some (record { written = []; quota = 99 });
}

abbrev lobby : Room
lobby = record {
  name = codes "lobby";
  subnet = subnet_number 0;
  is_private = false;
  password = [];
  peers = (address 1, 0) ∷ (address 2, 1) ∷ [];
  by_conn = (1, 0) ∷ (2, 1) ∷ [];
  next_ip = 3;
  peer_count = 2;
}

abbrev hub : Hub
hub = record {
  rooms = (codes "lobby", lobby) ∷ [];
  heap = record { next = 2; cells = (0, sender) ∷ (1, receiver) ∷ [] };
  next_subnet = 1;
}

hub-IsLinked : IsLinked hub 0 1 (address 2) (record { written = []; quota = 99 })
unfolding deref get ip_eq str_eq
hub-IsLinked = (sender, receiver, lobby, refl, refl, refl, refl, refl)

abbrev greeting : List ℕ
greeting =
    69 ∷ 0 ∷ 0 ∷ 20 ∷ 0 ∷ 0 ∷ 0 ∷ 0 ∷ 64 ∷ 17 ∷ 0 ∷ 0 ∷ 10 ∷ 99 ∷ 0 ∷ 1 ∷ 10 ∷ 99 ∷ 0 ∷ 2 ∷ []

greeting-dst : ipv4_dst greeting ≡ some (address 2)
unfolding ipv4_dst
greeting-dst = refl

single : is_broadcast (address 2) ≡ false
unfolding is_broadcast ip_eq
single = refl

abbrev second : ℕ
second = 1

apart : second ≢ 0
apart e = ground arith

full : greeting ≢ []
full e = ground arith

abbrev quiet : Round
quiet = record { cancelled_before = false; cancelled_writing = false }

abbrev device : Tun
device = record { given = []; takes = 4 }

packets_arrive_example :
    AreGiven
      (read_loop 3 0
        (record {
          pending =
              (tun_to_stream
                (map packet (greeting ∷ greeting ∷ []))
                none
                (record { written = []; quota = 60 })).1.written;
          broken = false;
        })
        hub).0
      0
      1
      (address 2)
      (quiet ∷ quiet ∷ quiet ∷ [])
      device
      (greeting ∷ greeting ∷ [])
packets_arrive_example =
    packets_arrive hub 0 1 (address 2) 60 99 3 none (quiet ∷ quiet ∷ quiet ∷ []) device
      (greeting ∷ greeting ∷ []) apart single
      ((greeting-dst, full, omega arith), ((greeting-dst, full, omega arith), tt)) hub-IsLinked tt
      (omega arith) (omega arith) (omega arith) (omega arith)
      ((refl, refl), ((refl, refl), ((refl, refl), tt))) (omega arith)
