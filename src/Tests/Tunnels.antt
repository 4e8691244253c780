-- ===== src/Tests/Tunnels.antt =====
-- A connection with one TCP tunnel, at which the theorems on the control streams and on the tunnels
-- of internal/server apply.
use tunel.Prelude.{
  ◌≡◌, ◌≢◌, ◌↔◌, inl, refl, true, false, List, [], ◌∷◌, pos, codes, none, some, arith, nat_eq, ℕ,
}
use tunel.Prelude.Map.{get}
use tunel.Protocol.Messages.{Auth, Control, MessageType, msg_auth, msg_ping}
use tunel.Server.Tunnels.{
  Tunnel, outside, tunnel, World, tcp_name, register, open_and_acknowledge, grant_tunnel,
  close_public, close_all,
}
use tunel.Server.Tunnels.Registry.{IsValid, Live}
use tunel.Server.Tunnels.Grant.{grant_tunnel-IsValid}
use tunel.Server.Tunnels.CloseAll.{close_all_frees, IsShutDown}
use tunel.Server.Tunnels.Race.{grant_outlives_close_all}
use tunel.Server.Peer.{deref}
use tunel.Server.Hub.{empty_hub}
use tunel.Server.Hub.Invariant as Hub
use tunel.Server.Control.{Opening, Server, envelope, open_tunnel, check_opening}
use tunel.Server.Control.Authorise.{IsAuthorised, check_opening_iff}
use tunel.Server.Control.Token.{Harmless, token_protects}
use tunel.Protocol.Stream.{Reader, Writer}
use tunel.Server.Dispatch.{handle_stream}
use tunel.Server.Dispatch.Soundness.{handle_stream-IsSound}
use tunel.Server.Control.Session.{IsSound}

abbrev game : Tunnel
game = record {
  id = 1;
  proto = tcp_name;
  public_port = 25565;
  local_target = codes "localhost:25565";
  closed = false;
  tcp_ln = true;
  udp_ln = false;
}

-- The machine has another program's port 80 as well.
abbrev busy : World
busy = record {
  conn_id = codes "1";
  tunnels = (1, 0) ∷ [];
  ports = (25565, 0) ∷ [];
  next_id = 2;
  closed = false;
  next_ref = 1;
  cells = (0, game) ∷ [];
  tcp = (80, outside) ∷ (25565, tunnel 0) ∷ [];
  udp = [];
  refusal = codes "address already in use";
}

busy-Live : Live busy 25565 0
unfolding get
busy-Live = (game, refl, refl, refl, refl, inl (refl, refl))

busy-IsValid : IsValid busy
unfolding get
busy-IsValid = record {
  unused = λ t le. ground arith;
  live = λ port t e.
      let at : 25565 ≡ port = ground arith in
      let here : 0 ≡ t = ground arith in rw (← at, ← here) busy-Live;
  named = λ id t e.
      let at : 1 ≡ id = ground arith in
      let here : 0 ≡ t = ground arith in rw (← at, ← here) (game, refl, refl, refl);
  below = λ id t e. ground arith;
  tcp_owned = λ port t e.
      let at : 25565 ≡ port = ground arith in
      let here : 0 ≡ t = ground arith in rw (← at, ← here) (refl, game, refl, refl);
  udp_owned = λ port t e. absurd (cc e);
  shut = λ c. absurd (cc c);
}

abbrev control : Control
control = record { sent = []; takes = 9 }

grant_tunnel-IsValid_example :
    IsValid (grant_tunnel control tcp_name 8080 (codes "localhost:80") busy).0
grant_tunnel-IsValid_example =
    grant_tunnel-IsValid control tcp_name 8080 (codes "localhost:80") busy busy-IsValid (inl refl)
      (omega arith)

close_all_frees_example : IsShutDown (close_all busy)
close_all_frees_example = close_all_frees busy busy-IsValid refl

port_free : (get 8080 busy.ports ≡ none) × (get 8080 busy.tcp ≡ none)
unfolding get
port_free = (refl, refl)

grant_outlives_close_all_example :
    get 8080
      (close_public 1
        (open_and_acknowledge 1 2 8080 control
          (close_all (register tcp_name 8080 (codes "localhost:80") busy).0)).0).tcp
    ≡ some (tunnel 1)
grant_outlives_close_all_example =
    grant_outlives_close_all busy 8080 (codes "localhost:80") control refl port_free.0 port_free.1
      (omega arith)

abbrev request : Auth
request = record {
  token = codes "secret";
  public_port = pos 8080;
  local_target = codes "localhost:80";
  proto = tcp_name;
  vpn_subnet_hint = [];
  identity_pubkey = [];
  ed_pubkey = [];
  stun_endpoint = [];
  room = [];
  room_password = [];
}

abbrev server : Server
server = record {
  config = record { token = codes "secret"; allowed_ports = 80 ∷ 8080 ∷ [] };
  conn = 1;
  world = busy;
  hub = some empty_hub;
}

check_opening_iff_example :
    (check_opening server.config (envelope msg_auth (some request))
      ≡ open_tunnel tcp_name 8080 request)
    ↔ IsAuthorised server.config (envelope msg_auth (some request)) tcp_name 8080 request
check_opening_iff_example =
    check_opening_iff server.config (envelope msg_auth (some request)) tcp_name 8080 request

empty_hub-IsValid : Hub.IsValid empty_hub
unfolding deref get
empty_hub-IsValid = record { fresh = λ p le. refl; all_rooms = tt }

abbrev intruder : Auth
intruder = record request { token = codes "guess" }

lacks :
    (a : Auth)
    → envelope msg_auth (some intruder) ≡ envelope msg_auth (some a)
    → a.token ≢ server.config.token
lacks a e same = ground arith

token_protects_example : Harmless (envelope msg_auth (some intruder)) (msg_ping ∷ []) control server
token_protects_example =
    token_protects (envelope msg_auth (some intruder)) (msg_ping ∷ []) control server lacks

-- What the decoder makes of the bytes of the stream.
abbrev decode : List ℕ → Opening × List MessageType
decode bytes = (envelope msg_auth (some request), msg_ping ∷ [])

abbrev input : Reader
input = record { pending = codes "{}"; broken = false }

abbrev output : Writer
output = record { written = []; quota = 9 }

server-IsSound : IsSound server
server-IsSound = (busy-IsValid, empty_hub-IsValid)

handle_stream-IsSound_example : IsSound (handle_stream decode input output control server)
handle_stream-IsSound_example =
    handle_stream-IsSound decode input output control server server-IsSound (omega arith)
