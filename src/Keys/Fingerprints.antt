-- ===== src/Keys/Fingerprints.antt =====
-- The fingerprints of ed25519 keys: internal/crypto/tls.go and internal/client/quic.go.
use tunel.Prelude.{ℕ, ◌≡◌, ◌↔◌, true, List, ◌∷◌, Option, some, arith, str_eq_iff}
use tunel.Keys.{
  encode_hex, ed_pub_key_from_hex, hashed_key_fingerprint, short_fp, short_fp_from_hex,
  cert_fingerprint, validate_peer_fingerprint,
}
use tunel.Keys.Hex.{IsKey, sized-encode_hex}

-- One key has one fingerprint: in its certificate, in the text that the server passes on, and in the subject
-- of the certificate; and a chain is accepted for it exactly if its first certificate has a key with that
-- fingerprint. The key has 32 bytes, and that of the certificate is not left out.
pub fingerprints_agree :
    (sha : List ℕ → List ℕ) (key other : List ℕ) (rest : List (Option (List ℕ)))
    → IsKey 32 key
    → IsKey 32 other
    → (short_fp_from_hex sha (encode_hex key) ≡ short_fp sha key)
      × (hashed_key_fingerprint sha key ≡ short_fp sha key)
      × ((validate_peer_fingerprint sha (some other ∷ rest) (hashed_key_fingerprint sha key) ≡ true)
          ↔ (short_fp sha other ≡ short_fp sha key))
unfolding short_fp_from_hex short_fp hashed_key_fingerprint ed_pub_key_from_hex
    validate_peer_fingerprint cert_fingerprint
fingerprints_agree sha key other rest is is' = (
  ground (arith, sized-encode_hex 32 key is),
  ground arith,
  ground (arith, str_eq_iff (short_fp sha other) (short_fp sha key)),
)
