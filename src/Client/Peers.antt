-- ===== src/Client/Peers.antt =====
-- The peers that a client in VPN mode knows: `storePeer`, `removePeer`, `peerFingerprint` and
-- `listPeerIPs` of internal/client/client.go, and the signals of the control stream that change them,
-- in internal/client/vpn.go.
pub mod Fingerprint
use tunel.Prelude.{
  ℕ, Bool, true, false, List, [], ◌∷◌, ◌++◌, Str, Option, none, some, if◌then◌else◌, string_eq,
  str_eq,
}
use tunel.Prelude.Map.{Map, get, put, delete}
use tunel.Protocol.Messages.{PeerInfo}

abbrev pub Peers : Type 0
Peers = Map Str PeerInfo

-- What is kept of a peer: the clone of `storePeer` sets three fields.
abbrev pub clone : PeerInfo → PeerInfo
clone pi = record {
  pubkey = pi.pubkey;
  ed_pubkey = [];
  ip = pi.ip;
  stun_endpoint = pi.stun_endpoint;
}

unfoldable pub store_peer : PeerInfo → Peers → Peers
store_peer pi peers = put pi.ip (clone pi) peers

unfoldable pub remove_peer : Str → Peers → Peers
remove_peer ip peers = delete ip peers

-- `short_fp` is `shortFPFromHex`, by SHA-256.
unfoldable pub peer_fingerprint : (Str → Str) → Str → Peers → Option Str
peer_fingerprint short_fp ip peers = elim (get ip peers) [
  | none ↦ none
  | some p ↦ if str_eq p.ed_pubkey [] then none else some (short_fp p.ed_pubkey)
]

unfoldable pub list_peer_ips : Peers → List Str
list_peer_ips [] = []
list_peer_ips ((ip, p) ∷ peers) = ip ∷ list_peer_ips peers

-- The frames of the control stream that change the peers.
pub data Signal : Type 0 where
  members : List PeerInfo → Signal
  joined : PeerInfo → Signal
  left : Str → Signal

unfoldable pub store_all : List PeerInfo → Peers → Peers
store_all [] peers = peers
store_all (pi ∷ rest) peers = store_all rest (store_peer pi peers)

unfoldable pub on_signal : Signal → Peers → Peers
on_signal (members ps) peers = store_all ps peers
on_signal (joined pi) peers = store_peer pi peers
on_signal (left ip) peers = remove_peer ip peers

unfoldable pub on_signals : List Signal → Peers → Peers
on_signals [] peers = peers
on_signals (s ∷ rest) peers = on_signals rest (on_signal s peers)

-- `Dial` up to its first test: true if it goes on to dial.
abbrev pub may_dial : (Str → Str) → Str → Peers → Bool
may_dial short_fp ip peers = elim (peer_fingerprint short_fp ip peers) [
  | none ↦ false
  | some fp ↦ true
]

-- The loop of `verifyIncoming` over the known peers: true if the fingerprint is one of theirs.
unfoldable pub knows_fingerprint : (Str → Str) → Str → List Str → Peers → Bool
knows_fingerprint short_fp fp [] peers = false
knows_fingerprint short_fp fp (ip ∷ ips) peers =
    let later = knows_fingerprint short_fp fp ips peers in
    elim (peer_fingerprint short_fp ip peers) [
      | none ↦ later
      | some p ↦ if str_eq p fp then true else later
    ]

unfoldable pub verify_incoming : (Str → Str) → Str → Peers → Bool
verify_incoming short_fp fp peers =
    if str_eq fp [] then false else knows_fingerprint short_fp fp (list_peer_ips peers) peers
