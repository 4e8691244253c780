-- ===== src/Tests/Client.antt =====
-- Flags, configurations, rounds and peers at which the theorems on internal/client, cmd/tunelc and
-- internal/config apply.
use tunel.Config.{parse_allowed_ports}
use tunel.Config.Written.{Entry, number, word, IsWritten, IsUnread, listed}
use tunel.Config.Allowed.{Names, port_allowed-parse_allowed_ports}
use tunel.Server.Control.{port_allowed}
use tunel.Prelude.{
  true, ◌↔◌, ◌⊎◌, ◌≡◌, ◌≢◌, refl, false, [], ◌∷◌, Str, pos, codes, arith, List, All, inl, inr,
}
use tunel.Protocol.Messages.{PeerInfo}
use tunel.Protocol.Stream.{Writer}
use tunel.Client.Spec.{TunnelSpec, Config}
use tunel.Client.Flag.{spec}
use tunel.Client.Run.{Turn, lost, exhausted, run, backoff}
use tunel.Client.Run.Attempts.{connections, run_exhausts}
use tunel.Client.Run.Backoff.{backoff_vanishes}
use tunel.Client.P2p.{Manager}
use tunel.Client.P2p.Hello.{IsFiledUnder, handle_incoming_own_address}
use tunel.Client.P2p.Routing.{IsRouted, route_sends}
use tunel.Client.Peers.{members, joined, left, on_signals}
use tunel.Client.Peers.Fingerprint.{HasNoFingerprint, no_fingerprint}

abbrev game : TunnelSpec
game = spec (codes "mc") (codes "tcp") (pos 25565) (codes "localhost:25565")

abbrev config : Config
config = record {
  server = codes "example.org:7000";
  token = codes "secret";
  tunnels = game ∷ [];
  ca_cert = [];
  insecure = false;
  tls = false;
  max_attempts = pos 2;
}

abbrev failure : Turn
failure = record {
  cancelled_before = false;
  attempt = lost;
  cancelled_during = false;
  cancelled_waiting = false;
}

run_exhausts_example :
    ((run 0 config (failure ∷ failure ∷ failure ∷ [])).1 ≡ exhausted 2)
    × (connections (run 0 config (failure ∷ failure ∷ failure ∷ [])).0 ≡ 2)
run_exhausts_example =
    run_exhausts 0 1 config (failure ∷ failure ∷ failure ∷ []) refl refl (omega arith)
      (ground arith)

backoff_vanishes_example : backoff 0 60 ≡ pos 0
backoff_vanishes_example = backoff_vanishes 0 60 (omega arith) (omega arith)

abbrev two : Str
two = codes "10.99.0.2"

abbrev three : Str
three = codes "10.99.0.3"

abbrev stream : Writer
stream = record { written = []; quota = 40 }

abbrev manager : Manager
manager = record { my_vpn_ip = two; conns = (three, record { stream = stream }) ∷ [] }

other : three ≢ two
other e = ground arith

handle_incoming_own_address_example : IsFiledUnder two three (7 ∷ []) false stream manager
handle_incoming_own_address_example =
    handle_incoming_own_address three manager stream (7 ∷ []) false (omega arith) (omega arith)
      (omega arith) other

route_sends_example : IsRouted three (69 ∷ 0 ∷ []) manager
route_sends_example = route_sends three (69 ∷ 0 ∷ []) manager

abbrev peer : PeerInfo
peer = record {
  pubkey = codes "aa";
  ed_pubkey = codes "bb";
  ip = three;
  stun_endpoint = codes "1.2.3.4:5";
}

no_fingerprint_example :
    HasNoFingerprint
      (λ key. key)
      (on_signals (members (peer ∷ []) ∷ left two ∷ joined peer ∷ []) [])
no_fingerprint_example =
    no_fingerprint (λ key. key) (members (peer ∷ []) ∷ left two ∷ joined peer ∷ [])

-- "80, 25565,http"
abbrev entries : List Entry
entries = number [] 80 [] ∷ number (codes " ") 25565 [] ∷ word [] b'h' (codes "ttp") ∷ []

entries-IsWritten : All IsWritten entries
entries-IsWritten = (
  (tt, tt),
  (
    ((inl refl, tt), tt),
    (
      (
        tt,
        (
          (λ e. ground arith),
          inr (omega arith),
          (λ e. ground arith),
          (λ e. ground arith),
          inr (omega arith),
        ),
        ((λ e. ground arith), ((λ e. ground arith), ((λ e. ground arith), tt))),
      ),
      tt,
    ),
  ),
)

port_allowed-parse_allowed_ports_example :
    (port_allowed
        (record { token = codes "secret"; allowed_ports = parse_allowed_ports (listed entries) })
        25565
      ≡ true)
    ↔ (Names 25565 entries ⊎ All IsUnread entries)
port_allowed-parse_allowed_ports_example =
    port_allowed-parse_allowed_ports (codes "secret") entries 25565 entries-IsWritten
