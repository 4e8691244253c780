-- ===== src/Client/Dial.antt =====
-- How the client reaches the server: `dial` of internal/client/client.go. Certificates, the pool of a
-- `--cacert` file and the check of a certificate against it are those of crypto/x509.
pub mod Pinned
use tunel.Prelude.{ℕ, Bool, true, false, List, [], ◌∷◌, Option, none, some, if◌then◌else◌, not}
use tunel.Client.Spec.{Config}

pub data DialError : Type 0 where
  unreachable unread_cacert no_certs refused : DialError

-- A connection in plain TCP, or TLS with the certificates that the server has shown.
pub data Dialled : Type 0 where
  plain : Dialled
  encrypted : List (List ℕ) → Dialled
  failed : DialError → Dialled

module _ (Cert Pool : Type 0) (parse : List ℕ → Option Cert) (pool_of : List ℕ → Option Pool)
    (verify : Pool → Cert → Bool) where
  -- The loop over the raw certificates.
  unfoldable pub parse_all : List (List ℕ) → Option (List Cert)
  parse_all [] = some []
  parse_all (b ∷ raw) =
      let later = parse_all raw in
      elim (parse b) [ none ↦ none | some c ↦ elim later [ none ↦ none | some cs ↦ some (c ∷ cs) ] ]

  -- `VerifyPeerCertificate`: true if there is no error.
  unfoldable pub verify_peer : Pool → List (List ℕ) → Bool
  verify_peer pool raw = elim (parse_all raw) [
    | none ↦ false
    | some [] ↦ false
    | some (c ∷ cs) ↦ verify pool c
  ]

  -- The handshake, whose other errors are those of TLS: what the server shows, if it comes to that.
  unfoldable pub handshake : (List (List ℕ) → Bool) → Bool → Option (List (List ℕ)) → Dialled
  handshake check reaches shown = if not reaches then failed unreachable else elim shown [
    | none ↦ failed refused
    | some raw ↦ if check raw then encrypted raw else failed refused
  ]

  -- `dial`, by whether the server is reached, the bytes of the `--cacert` file, if it can be read, and the
  -- certificates that the server shows.
  unfoldable pub dial : Config → Bool → Option (List ℕ) → Option (List (List ℕ)) → Dialled
  dial cfg reaches file shown =
      if not cfg.tls
      then (if reaches then plain else failed unreachable)
      else if cfg.insecure
      then handshake (λ raw. true) reaches shown
      else elim file [
        | none ↦ failed unread_cacert
        | some pem ↦ elim (pool_of pem) [
          | none ↦ failed no_certs
          | some pool ↦ handshake (verify_peer pool) reaches shown
        ]
      ]
