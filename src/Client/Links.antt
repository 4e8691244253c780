-- ===== src/Client/Links.antt =====
-- How a direct connection begins and ends: `Dial`, `pumpIncoming`, `Stop` and `reapLoop` of
-- internal/client/quic.go. QUIC decides whether a peer is reached, which certificate it shows and which
-- stream opens. The times of `lastSeen` stand beside the connections, under the same addresses.
pub mod Dialled
pub mod Reaped
pub mod Vain
use tunel.Prelude.{
  ℕ, zero, suc, ◌+◌, ◌-◌, ◌*◌, Bool, true, false, List, [], ◌∷◌, ◌++◌, Str, Option, none, some,
  if◌then◌else◌, string_eq, str_eq, ltb, not, length,
}
use tunel.Prelude.Map.{Map, get, put, delete}
use tunel.Protocol.Stream.{Reader, Writer, Outcome, ok, err}
use tunel.Client.P2p.{
  active_count, Conn, Manager, register, evict, route, read_frame, write_hello, handle_incoming,
  writer_of, read_hello,
}
use tunel.Client.Peers.{Peers, peer_fingerprint, list_peer_ips}
use tunel.Protocol.Messages.{PeerInfo}

-- `verifyFingerprint` of the certificates that a peer shows: the fingerprint of the first, if there is one
-- that can be read. True if there is no error.
unfoldable pub verify_fingerprint : Option Str → Str → Bool
verify_fingerprint none expected = false
verify_fingerprint (some shown) expected = str_eq shown expected

pub data DialError : Type 0 where
  not_registered dial_failed stream_failed hello_failed : DialError

-- What QUIC does of a dial: whether the endpoint is reached, the fingerprint of its certificate, and the
-- stream that opens.
pub record Reached : Type 0 where
  pub reaches : Bool
  pub shown : Option Str
  pub opened : Option Writer

-- `Dial`: the connections afterwards, and the error, if there is one.
unfoldable pub dial : (Str → Str) → Str → Peers → Reached → Manager → Manager × Option DialError
dial short_fp ip peers q m = elim (peer_fingerprint short_fp ip peers) [
  | none ↦ (m, some not_registered)
  | some fp ↦
      if not q.reaches
      then (m, some dial_failed)
      else if not (verify_fingerprint q.shown fp)
      then (m, some dial_failed)
      else elim q.opened [
        | none ↦ (m, some stream_failed)
        | some w ↦ elim (write_hello ip m.my_vpn_ip w) [
          | err e w' ↦ (m, some hello_failed)
          | ok _ w' ↦ (register ip (record { stream = w' }) m, none)
        ]
      ]
]

-- `connectPeer`, once its goroutine has run: the error of the dial is only logged.
unfoldable pub connect_peer :
    (Str → Str) → PeerInfo → Peers → Reached → Option Manager → Option Manager
connect_peer short_fp pi peers q none = none
connect_peer short_fp pi peers q (some m) =
    if str_eq pi.stun_endpoint [] then some m else some (dial short_fp pi.ip peers q m).0

-- `P2PStats`: how many peers are known, and how many direct connections there are.
unfoldable pub p2p_stats : Peers → Option Manager → ℕ × ℕ
p2p_stats peers m =
    (length (list_peer_ips peers), elim m [ none ↦ 0 | some manager ↦ active_count manager ])

-- `pumpIncoming`, with fuel for its rounds: what is written to the TUN device, whose errors are dropped.
unfoldable pub pump_incoming : ℕ → Reader → List (List ℕ)
pump_incoming zero r = []
pump_incoming (suc fuel) r = elim (read_frame 65535 r) [
  | err e r' ↦ []
  | ok pkt r' ↦ pkt ∷ pump_incoming fuel r'
]

-- `Stop` closes the streams, once; the connections stay in the table.
unfoldable pub close_each : Map Str Conn → Map Str Conn
close_each [] = []
close_each ((ip, c) ∷ rest) =
    (ip, record { stream = record c.stream { quota = 0 } }) ∷ close_each rest

unfoldable pub stop : Manager → Manager
stop m = record m { conns = close_each m.conns }

-- The connections with the times of their last use, in nanoseconds.
pub record Timed : Type 0 where
  pub manager : Manager
  pub seen : Map Str ℕ

unfoldable pub register_at : ℕ → Str → Conn → Timed → Timed
register_at now ip c t = record { manager = register ip c t.manager; seen = put ip now t.seen }

unfoldable pub route_at : ℕ → Str → List ℕ → Timed → Timed × Bool
route_at now dst pkt t =
    let (m, taken) = route dst pkt t.manager in
    (record { manager = m; seen = if taken then put dst now t.seen else delete dst t.seen }, taken)

abbrev pub idle_limit : ℕ
idle_limit = 90 * 1000000000

-- Whether a connection that was used then is reaped now.
abbrev pub is_idle : ℕ → ℕ → Bool
is_idle now seen = ltb idle_limit (now - seen)

-- The loop of `reapLoop` over the addresses.
unfoldable pub reap_each : ℕ → Map Str ℕ → Timed → Timed
reap_each now [] t = t
reap_each now ((ip, seen) ∷ rest) t =
    let later = reap_each now rest t in
    if is_idle now seen
    then record { manager = evict ip later.manager; seen = delete ip later.seen }
    else later

unfoldable pub reap : ℕ → Timed → Timed
reap now t = reap_each now t.seen t
