-- ===== src/Client/Links/Vain.antt =====
-- What `connectPeer` of internal/client/client.go comes to with the peers that a client is told of.
use tunel.Prelude.{◌≡◌, refl, List, [], Str, Option, none, some, arith, string_eq}
use tunel.Protocol.Messages.{PeerInfo}
use tunel.Client.P2p.{Manager}
use tunel.Client.Peers.{Signal, on_signals}
use tunel.Client.Peers.Fingerprint.{no_fingerprint}
use tunel.Client.Links.{Reached, dial, connect_peer}

-- Whatever the server tells a client, and whoever could be reached, trying to connect to a peer directly
-- leaves the direct connections as they are.
pub connect_peer_vain :
    (short_fp : Str → Str) (signals : List Signal) (pi : PeerInfo) (q : Reached)
    (m : Option Manager)
    → connect_peer short_fp pi (on_signals signals []) q m ≡ m
unfolding connect_peer dial
connect_peer_vain short_fp signals pi q none = refl
connect_peer_vain short_fp signals pi q (some m) =
    ground (arith, (no_fingerprint short_fp signals).0 pi.ip)
