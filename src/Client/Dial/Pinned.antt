-- ===== src/Client/Dial/Pinned.antt =====
-- Which servers a client talks to: `dial` of internal/client/client.go.
use tunel.Prelude.{
  ℕ, ◌≡◌, ◌↔◌, ◌⊎◌, Bool, true, false, List, [], ◌∷◌, Option, none, some, arith, refl, All, ◌≢◌,
  Option-cases, Bool-cases, inl, inr,
}
use tunel.Client.Spec.{Config}
use tunel.Client.Dial.{plain, encrypted, parse_all, verify_peer, handshake, dial}

module _ (Cert Pool : Type 0) (parse : List ℕ → Option Cert) (pool_of : List ℕ → Option Pool)
    (verify : Pool → Cert → Bool) where
  abbrev pub IsReadable : List ℕ → Type 0
  IsReadable b = (c : Cert) × (parse b ≡ some c)

  -- The `--cacert` file has certificates, and of the certificates that the server shows all can be read, and
  -- the first stands the check against those of the file.
  abbrev pub IsPinned : Option (List ℕ) → List (List ℕ) → Type 0
  IsPinned file [] = ⊥
  IsPinned file (first ∷ rest) =
      (pem : List ℕ) × (pool : Pool) × (c : Cert) × (file ≡ some pem)
      × (pool_of pem ≡ some pool)
      × (parse first ≡ some c)
      × (verify pool c ≡ true)
      × All IsReadable rest

  parse_all→ :
      (raw : List (List ℕ)) (cs : List Cert)
      → parse_all Cert Pool parse pool_of verify raw ≡ some cs
      → All IsReadable raw
  unfolding parse_all
  parse_all→ [] cs e = tt
  parse_all→ (b ∷ raw) cs e = elim (Option-cases (parse b)) [
    | inl unread ↦ absurd (ground arith)
    | inr (c, read) ↦ elim (Option-cases (parse_all Cert Pool parse pool_of verify raw)) [
      | inl unread ↦ absurd (ground arith)
      | inr (cs', later) ↦ ((c, read), parse_all→ raw cs' later)
    ]
  ]

  parse_all← :
      (raw : List (List ℕ))
      → All IsReadable raw
      → (cs : List Cert) × (parse_all Cert Pool parse pool_of verify raw ≡ some cs)
  unfolding parse_all
  parse_all← [] all = ([], refl)
  parse_all← (b ∷ raw) ((c, read), all) =
      let (cs, later) = parse_all← raw all in (c ∷ cs, ground arith)

  -- The check of a handshake, with the pool of the file.
  verify_peer_iff :
      (pem : List ℕ) (pool : Pool) (raw : List (List ℕ))
      → pool_of pem ≡ some pool
      → (verify_peer Cert Pool parse pool_of verify pool raw ≡ true) ↔ IsPinned (some pem) raw
  unfolding verify_peer parse_all
  verify_peer_iff pem pool [] there = ((λ e. absurd (cc e)), λ h. absurd h)
  verify_peer_iff pem pool (b ∷ raw) there = (forth, back)
    where
      forth :
          verify_peer Cert Pool parse pool_of verify pool (b ∷ raw) ≡ true
          → IsPinned (some pem) (b ∷ raw)
      forth e = elim (Option-cases (parse b)) [
        | inl unread ↦ absurd (ground arith)
        | inr (c, read) ↦ elim (Option-cases (parse_all Cert Pool parse pool_of verify raw)) [
          | inl unread ↦ absurd (ground arith)
          | inr (cs, later) ↦
              (pem, pool, c, refl, there, read, ground arith, parse_all→ raw cs later)
        ]
      ]

      back :
          IsPinned (some pem) (b ∷ raw)
          → verify_peer Cert Pool parse pool_of verify pool (b ∷ raw) ≡ true
      back (pem', pool', c, same, there', read, stands, all) =
          let (cs, later) = parse_all← raw all in ground arith

  handshake_iff :
      (check : List (List ℕ) → Bool) (reaches : Bool) (shown : Option (List (List ℕ)))
      (raw : List (List ℕ))
      → (handshake Cert Pool parse pool_of verify check reaches shown ≡ encrypted raw)
        ↔ ((reaches ≡ true) × (shown ≡ some raw) × (check raw ≡ true))
  unfolding handshake
  handshake_iff check reaches none raw = ground arith
  handshake_iff check reaches (some raw') raw = ground arith

  handshake-plain :
      (check : List (List ℕ) → Bool) (reaches : Bool) (shown : Option (List (List ℕ)))
      → handshake Cert Pool parse pool_of verify check reaches shown ≢ plain
  unfolding handshake
  handshake-plain check reaches none e = ground arith
  handshake-plain check reaches (some raw) e = ground arith

  -- The connection with TLS and without `--insecure`.
  secured_iff :
      (cfg : Config) (reaches : Bool) (file : Option (List ℕ)) (shown : Option (List (List ℕ)))
      (raw : List (List ℕ))
      → cfg.tls ≡ true
      → cfg.insecure ≡ false
      → (dial Cert Pool parse pool_of verify cfg reaches file shown ≡ encrypted raw)
        ↔ ((reaches ≡ true) × (shown ≡ some raw) × IsPinned file raw)
  unfolding dial
  secured_iff cfg reaches none shown [] tls secure = ground arith
  secured_iff cfg reaches none shown (b ∷ raw) tls secure =
      ((λ e. absurd (ground arith)), λ h. absurd (ground arith))
  secured_iff cfg reaches (some pem) shown raw tls secure = elim (Option-cases (pool_of pem)) [
    | inl absent ↦ ((λ e. absurd (ground arith)), λ h. absurd (unpinned raw absent h.2))
    | inr (pool, there) ↦
        let check = verify_peer_iff pem pool raw there in
        let shake =
          handshake_iff (verify_peer Cert Pool parse pool_of verify pool) reaches shown raw in
        rw (tls, secure, there)
          (
            (λ e. let (r, s, v) = shake.0 e in (r, s, check.0 v)),
            λ h. let (r, s, v) = h in shake.1 (r, s, check.1 v),
          )
  ]
    where
      unpinned : (raw : List (List ℕ)) → pool_of pem ≡ none → IsPinned (some pem) raw → ⊥
      unpinned [] absent h = h
      unpinned (b ∷ raw) absent (pem', pool, c, same, there, _, _, _) = ground arith

  bare_iff :
      (cfg : Config) (reaches : Bool) (file : Option (List ℕ)) (shown : Option (List (List ℕ)))
      (raw : List (List ℕ))
      → cfg.tls ≡ true
      → cfg.insecure ≡ true
      → (dial Cert Pool parse pool_of verify cfg reaches file shown ≡ encrypted raw)
        ↔ ((reaches ≡ true) × (shown ≡ some raw))
  unfolding dial
  bare_iff cfg reaches file shown raw tls bare =
      ground (arith, handshake_iff (λ raw. true) reaches shown raw)

  unencrypted :
      (cfg : Config) (reaches : Bool) (file : Option (List ℕ)) (shown : Option (List (List ℕ)))
      (raw : List (List ℕ))
      → cfg.tls ≡ false
      → dial Cert Pool parse pool_of verify cfg reaches file shown ≢ encrypted raw
  unfolding dial
  unencrypted cfg reaches file shown raw off e = ground arith

  plain_iff :
      (cfg : Config) (reaches : Bool) (file : Option (List ℕ)) (shown : Option (List (List ℕ)))
      → (dial Cert Pool parse pool_of verify cfg reaches file shown ≡ plain)
        ↔ ((cfg.tls ≡ false) × (reaches ≡ true))
  unfolding dial
  plain_iff cfg reaches none shown = ground (arith, handshake-plain (λ raw. true) reaches shown)
  plain_iff cfg reaches (some pem) shown = elim (Option-cases (pool_of pem)) [
    | inl absent ↦ ground (arith, handshake-plain (λ raw. true) reaches shown)
    | inr (pool, there) ↦ ground (
      arith,
      handshake-plain (λ raw. true) reaches shown,
      handshake-plain (verify_peer Cert Pool parse pool_of verify pool) reaches shown,
    )
  ]

  encrypted_iff :
      (cfg : Config) (reaches : Bool) (file : Option (List ℕ)) (shown : Option (List (List ℕ)))
      (raw : List (List ℕ))
      → (dial Cert Pool parse pool_of verify cfg reaches file shown ≡ encrypted raw) ↔ (
          (cfg.tls ≡ true)
          × (reaches ≡ true)
          × (shown ≡ some raw)
          × ((cfg.insecure ≡ true) ⊎ IsPinned file raw))
  encrypted_iff cfg reaches file shown raw = elim (Bool-cases cfg.tls) [
    | inl tls ↦ elim (Bool-cases cfg.insecure) [
      | inl bare ↦
          let shake = bare_iff cfg reaches file shown raw tls bare in
          ((λ e. let (r, s) = shake.0 e in (tls, r, s, inl bare)), λ h. shake.1 (h.1, h.2))
      | inr secure ↦
          let safe = secured_iff cfg reaches file shown raw tls secure in
          (
            (λ e. let (r, s, p) = safe.0 e in (tls, r, s, inr p)),
            λ h. elim h.3 [ inl bare ↦ absurd (cc (bare, secure)) | inr p ↦ safe.1 (h.1, h.2, p) ],
          )
    ]
    | inr off ↦
        ((λ e. absurd (unencrypted cfg reaches file shown raw off e)), λ h. absurd (cc (h.0, off)))
  ]

  -- The client has a plain connection exactly if it is to use no TLS and the server is reached. It has an
  -- encrypted one exactly if it is to use TLS, the server is reached and shows certificates, and either it is
  -- `--insecure`, or the `--cacert` file has certificates, all those that the server shows can be read, and
  -- the first of them stands the check against those of the file.
  pub dial-IsPinned :
      (cfg : Config) (reaches : Bool) (file : Option (List ℕ)) (shown : Option (List (List ℕ)))
      (raw : List (List ℕ))
      → ((dial Cert Pool parse pool_of verify cfg reaches file shown ≡ plain)
          ↔ ((cfg.tls ≡ false) × (reaches ≡ true)))
        × ((dial Cert Pool parse pool_of verify cfg reaches file shown ≡ encrypted raw) ↔ (
            (cfg.tls ≡ true)
            × (reaches ≡ true)
            × (shown ≡ some raw)
            × ((cfg.insecure ≡ true) ⊎ IsPinned file raw)))
  dial-IsPinned cfg reaches file shown raw =
      (plain_iff cfg reaches file shown, encrypted_iff cfg reaches file shown raw)
