-- ===== src/Tests/Sessions.antt =====
-- Sessions of the client, direct connections and the dashboard, at which the theorems on them apply.
use tunel.Prelude.{
  map, ◌++◌, ◌⊎◌, List, ◌&&◌, ◌≡◌, ◌≢◌, All, ◌↔◌, ◌-◌, ◌<◌, refl, true, false, [], ◌∷◌, Str, pos,
  codes, none, some, arith, string_eq, nat_eq, str_eq,
}
use tunel.Prelude.Map.{get, Distinct}
use tunel.Protocol.Stream.{write}
use tunel.Protocol.Messages.{AuthOk, Control}
use tunel.Client.Spec.{Config}
use tunel.Client.Run as Run
use tunel.Client.Run.{Turn, connecting, closed, returned}
use tunel.Client.Tunnels.{Setup, accepted, run_once}
use tunel.Client.Tunnels.Established.{IsGranted, run_once_ended_iff}
use tunel.Client.Vpn.{Identity, Session, by_pump, run_once_vpn, run_vpn}
use tunel.Client.Vpn
use tunel.Protocol.Duplex.{Event, gives, ends, stream, socket, sent, has_ended, until_end}
use tunel.Client.Pipe.{pipe_both, fresh}
use tunel.Client.Pipe
use tunel.Client.Pipe.Both.{pipe_both-sent}
use tunel.Server.Tcp.{relay_all}
use tunel.Server.Tcp
use tunel.Server.Tcp.Cut.{relay_all-pipe_both}
use tunel.Client.Dial.{dial, plain, encrypted}
use tunel.Client.Dial.Pinned.{IsPinned, dial-IsPinned}
use tunel.Server.Life.{Life, connected, cancel, stopped, reaped, ended, live, has_returned}
use tunel.Server.Life.Shutdown.{GoesOn, AllEnd, cancelled_waits}
use tunel.Server.Hub.ReadLoop.{packets}
use tunel.Client.Vpn.{Round, Tun, stream_to_tun, tun_to_stream, packet, device_failed}
use tunel.Client.Vpn.Ends.{turn_of, IsUp, run_vpn_gives_up}
use tunel.Client.P2p.{Manager, route, write_frame}
use tunel.Client.Peers.{Peers}
use tunel.Client.Links.{Reached, Timed, reap, route_at, idle_limit}
use tunel.Client.Links.Dialled.{IsSettled, dial-IsSettled}
use tunel.Client.Links.Reaped.{reap-route_at}

abbrev granted : AuthOk
granted = record {
  session_id = codes "1";
  tunnel_id = 1;
  vpn_ip = codes "10.99.0.2";
  vpn_mask = codes "255.255.255.0";
  vpn_gateway = codes "10.99.0.1";
  vpn_subnet = codes "10.99.0.0/24";
  room = codes "lobby";
  room_size = 1;
}

abbrev control : Control
control = record { sent = []; takes = 9 }

abbrev web : Setup
web = record {
  spec = record {
    proto = [];
    public_port = pos 8080;
    local_target = codes "localhost:80";
    name = [];
  };
  opened = some control;
  reply = accepted granted;
}

run_once_ended_iff_example :
    ((run_once true (codes "secret") (web ∷ []) false).1 ≡ Run.ended)
    ↔ ((true ≡ true) × All IsGranted (web ∷ []) × (false ≡ true))
run_once_ended_iff_example = run_once_ended_iff true (codes "secret") (web ∷ []) false

abbrev identity : Identity
identity = record {
  identity_pubkey = codes "aa";
  ed_pubkey = codes "bb";
  stun_endpoint = [];
  room = [];
  room_password = [];
}

abbrev session : Session
session = record {
  connects = true;
  control = some control;
  reply = accepted granted;
  packets = some (record { written = []; quota = 99 });
  tun_opens = true;
  tun_configures = true;
  ends = by_pump Vpn.stopped;
  cancelled = false;
}

addressed : granted.vpn_ip ≢ []
addressed e = ground arith

session-IsUp : IsUp session
session-IsUp = (
  control,
  granted,
  record { written = []; quota = 99 },
  refl,
  refl,
  omega arith,
  refl,
  addressed,
  refl,
  omega arith,
  refl,
  refl,
)

abbrev config : Config
config = record {
  server = codes "example.org:7000";
  token = codes "secret";
  tunnels = [];
  ca_cert = [];
  insecure = true;
  tls = true;
  max_attempts = pos 0;
}

abbrev turn : Turn
turn = record {
  cancelled_before = false;
  attempt = run_once_vpn (codes "secret") identity session;
  cancelled_during = false;
  cancelled_waiting = false;
}

abbrev quiet : Round
quiet = record { cancelled_before = false; cancelled_writing = false }

abbrev device : Tun
device = record { given = []; takes = 4 }

-- One packet comes from the server and one from the device, before the stream is closed.
run_vpn_gives_up_example :
    ((run_vpn 0 config (
          turn_of
            (codes "secret")
            identity
            session
            (stream_to_tun
              (quiet ∷ quiet ∷ [])
              (record { pending = packets ((69 ∷ 0 ∷ []) ∷ []); broken = false })
              device).1
            turn
          ∷ turn
          ∷ [])
        ≡ (connecting 1 ∷ closed ∷ [], returned))
      ↔ (false ≡ false))
    × (run_vpn 0 config (
          turn_of
            (codes "secret")
            identity
            session
            (tun_to_stream
              (map packet ((69 ∷ 1 ∷ []) ∷ []) ++ (device_failed ∷ []))
              none
              (record { written = []; quota = 9 })).2
            turn
          ∷ turn
          ∷ [])
        ≡ (connecting 1 ∷ closed ∷ [], returned))
run_vpn_gives_up_example =
    run_vpn_gives_up 0 config identity session turn (turn ∷ []) ((69 ∷ 0 ∷ []) ∷ [])
      ((69 ∷ 1 ∷ []) ∷ []) false (quiet ∷ quiet ∷ []) device none
      (record { written = []; quota = 9 }) session-IsUp refl refl (omega arith, tt)
      (omega arith, tt) ((refl, refl), ((refl, refl), tt)) (omega arith) (omega arith) tt
      (omega arith)

abbrev own_ca : Config
own_ca = record config { insecure = false; ca_cert = codes "ca.crt" }

dial-IsPinned_example :
    ((dial Str Str some some str_eq own_ca true
          (some (codes "ca"))
          (some (codes "ca" ∷ codes "root" ∷ []))
        ≡ plain)
      ↔ ((true ≡ false) × (true ≡ true)))
    × ((dial Str Str some some str_eq own_ca true
            (some (codes "ca"))
            (some (codes "ca" ∷ codes "root" ∷ []))
          ≡ encrypted (codes "ca" ∷ codes "root" ∷ []))
        ↔ ((true ≡ true)
            × (true ≡ true)
            × (some (codes "ca" ∷ codes "root" ∷ []) ≡ some (codes "ca" ∷ codes "root" ∷ []))
            × ((false ≡ true)
                ⊎ IsPinned Str Str some some str_eq
                    (some (codes "ca"))
                    (codes "ca" ∷ codes "root" ∷ []))))
dial-IsPinned_example =
    dial-IsPinned Str Str some some str_eq own_ca true (some (codes "ca"))
      (some (codes "ca" ∷ codes "root" ∷ [])) (codes "ca" ∷ codes "root" ∷ [])

abbrev busy : Life
busy = record { listening = true; cancelled = false; sessions = (4, false) ∷ []; next = 5 }

connected_once : get 4 busy.sessions ≡ some false
unfolding get
connected_once = refl

abbrev after_cancel : Life
after_cancel = live (cancel ∷ stopped ∷ reaped 4 ∷ connected ∷ ended 4 ∷ []) busy

cancelled_waits_example :
    (after_cancel.listening ≡ false)
    × (after_cancel.next ≡ 5)
    × ((get 4 after_cancel.sessions ≡ some true) ↔ All (GoesOn 4) (connected ∷ ended 4 ∷ []))
    × ((has_returned after_cancel ≡ true) ↔ AllEnd (connected ∷ ended 4 ∷ []) busy.sessions)
cancelled_waits_example = cancelled_waits (connected ∷ ended 4 ∷ []) busy 4 false connected_once

abbrev three : Str
three = codes "10.99.0.3"

abbrev known : Peers
known =
    (three, record { pubkey = codes "aa"; ed_pubkey = codes "bb"; ip = three; stun_endpoint = [] })
    ∷ []

abbrev manager : Manager
manager = record {
  my_vpn_ip = codes "10.99.0.2";
  conns = (three, record { stream = record { written = []; quota = 40 } }) ∷ [];
}

abbrev reached : Reached
reached = record {
  reaches = true;
  shown = some (codes "bb");
  opened = some (record { written = []; quota = 40 });
}

dial-IsSettled_example : IsSettled (λ key. key) three known reached manager
dial-IsSettled_example = dial-IsSettled (λ key. key) three known reached manager

abbrev timed : Timed
timed = record { manager = manager; seen = (three, 5) ∷ [] }

taken : (route_at 1000 three (69 ∷ 0 ∷ []) timed).1 ≡ true
unfolding route_at route write_frame write get str_eq
taken = refl

seen_once : Distinct timed.seen
unfolding get
seen_once = (refl, tt)

reap-route_at_example :
    (get three (reap 95000000000 (route_at 1000 three (69 ∷ 0 ∷ []) timed).0).manager.conns ≡ none)
    ↔ (idle_limit < 95000000000 - 1000)
reap-route_at_example = reap-route_at 1000 95000000000 three (69 ∷ 0 ∷ []) timed seen_once taken

abbrev talk : List Event
talk =
    gives socket (1 ∷ 2 ∷ [])
    ∷ gives stream (3 ∷ [])
    ∷ ends stream
    ∷ gives socket (4 ∷ [])
    ∷ ends socket
    ∷ []

pipe_both-sent_example :
    ((pipe_both talk fresh).to_socket ≡ sent stream talk)
    × ((pipe_both talk fresh).to_stream ≡ sent socket talk)
    × (Pipe.has_returned (pipe_both talk fresh) ≡ has_ended stream talk && has_ended socket talk)
pipe_both-sent_example = pipe_both-sent talk

relay_all-pipe_both_example :
    ((relay_all talk Tcp.fresh).to_public ≡ (pipe_both talk fresh).to_socket)
    × ((relay_all talk Tcp.fresh).to_public ≡ sent stream talk)
    × ((relay_all talk Tcp.fresh).to_stream ≡ (pipe_both (until_end talk) fresh).to_stream)
    × ((relay_all talk Tcp.fresh).returned ≡ has_ended stream talk)
relay_all-pipe_both_example = relay_all-pipe_both talk
