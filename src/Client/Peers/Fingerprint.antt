-- ===== src/Client/Peers/Fingerprint.antt =====
-- The fingerprints of the peers that the client is told of: internal/client/client.go.
use tunel.Prelude.{
  ◌≡◌, refl, false, List, [], ◌∷◌, Str, none, some, arith, string_eq, str_eq_iff, Option-cases, inl,
  inr,
}
use tunel.Prelude.Map.{get, delete, get-put, get-delete}
use tunel.Protocol.Messages.{PeerInfo}
use tunel.Client.Peers.{
  Peers, clone, store_peer, remove_peer, peer_fingerprint, list_peer_ips, Signal, members, joined,
  left, store_all, on_signal, on_signals, knows_fingerprint, verify_incoming,
}

-- No entry has an ed25519 key.
abbrev IsKeyless : Peers → Type 0
IsKeyless peers = (ip : Str) (p : PeerInfo) → get ip peers ≡ some p → p.ed_pubkey ≡ []

store_peer-IsKeyless :
    (pi : PeerInfo) (peers : Peers) → IsKeyless peers → IsKeyless (store_peer pi peers)
unfolding store_peer
store_peer-IsKeyless pi peers h ip p e = ground (arith, get-put pi.ip ip (clone pi) peers, h ip p)

store_all-IsKeyless :
    (ps : List PeerInfo) (peers : Peers) → IsKeyless peers → IsKeyless (store_all ps peers)
unfolding store_all
store_all-IsKeyless [] peers h = h
store_all-IsKeyless (pi ∷ rest) peers h =
    store_all-IsKeyless rest (store_peer pi peers) (store_peer-IsKeyless pi peers h)

on_signals-IsKeyless :
    (signals : List Signal) (peers : Peers) → IsKeyless peers → IsKeyless (on_signals signals peers)
unfolding on_signals on_signal remove_peer
on_signals-IsKeyless [] peers h = h
on_signals-IsKeyless (members ps ∷ rest) peers h =
    on_signals-IsKeyless rest (store_all ps peers) (store_all-IsKeyless ps peers h)
on_signals-IsKeyless (joined pi ∷ rest) peers h =
    on_signals-IsKeyless rest (store_peer pi peers) (store_peer-IsKeyless pi peers h)
on_signals-IsKeyless (left ip ∷ rest) peers h =
    on_signals-IsKeyless rest (delete ip peers)
      (λ j p e. ground (arith, get-delete ip j peers, h j p))

fingerprint_keyless :
    (short_fp : Str → Str) (ip : Str) (peers : Peers)
    → IsKeyless peers
    → peer_fingerprint short_fp ip peers ≡ none
unfolding peer_fingerprint
fingerprint_keyless short_fp ip peers h = elim (Option-cases (get ip peers)) [
  | inl absent ↦ ground arith
  | inr (p, present) ↦ ground (arith, h ip p, str_eq_iff p.ed_pubkey [])
]

knows_keyless :
    (short_fp : Str → Str) (fp : Str) (ips : List Str) (peers : Peers)
    → IsKeyless peers
    → knows_fingerprint short_fp fp ips peers ≡ false
unfolding knows_fingerprint
knows_keyless short_fp fp [] peers h = refl
knows_keyless short_fp fp (ip ∷ ips) peers h =
    ground (arith, fingerprint_keyless short_fp ip peers h, knows_keyless short_fp fp ips peers h)

abbrev pub HasNoFingerprint : (Str → Str) → Peers → Type 0
HasNoFingerprint short_fp peers =
    ((ip : Str) → peer_fingerprint short_fp ip peers ≡ none)
    × ((fp : Str) → verify_incoming short_fp fp peers ≡ false)

-- Whatever the server tells a client of its room, even with the peers' keys, no peer has a fingerprint:
-- `Dial` finds none registered, and `verifyIncoming` refuses every certificate.
pub no_fingerprint :
    (short_fp : Str → Str) (signals : List Signal)
    → HasNoFingerprint short_fp (on_signals signals [])
unfolding verify_incoming get
no_fingerprint short_fp signals =
    let h : IsKeyless (on_signals signals []) = on_signals-IsKeyless signals [] (λ ip p e. cc) in
    (
      (λ ip. fingerprint_keyless short_fp ip (on_signals signals []) h),
      λ fp. ground (
        arith,
        knows_keyless short_fp fp (list_peer_ips (on_signals signals [])) (on_signals signals []) h,
      ),
    )
