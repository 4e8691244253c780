-- ===== src/Keys.antt =====
-- internal/crypto: the key pairs of a client, their text, and the file that keeps them; and the
-- fingerprints of internal/crypto/tls.go and internal/client/quic.go. The curve, the hash and the source of
-- random bytes are parameters.
pub mod Hex
pub mod Stored
pub mod Fingerprints
use Prim.Native.Nat.{bit_and, bit_or}
use tunel.Prelude.{
  ℕ, zero, suc, ◌+◌, ◌-◌, ◌*◌, ◌/◌, ◌%◌, Bool, true, false, List, [], ◌∷◌, ◌++◌, Str, Option, none,
  some, codes, if◌then◌else◌, ltb, leb, ◌==◌, ◌&&◌, ◌||◌, not, length, get_or, take, str_eq,
}

abbrev pub keypair_size : ℕ
keypair_size = 32

pub record Keypair : Type 0 where
  pub public : List ℕ
  pub private : List ℕ

-- `hex.EncodeToString`.
unfoldable pub hex_digit : ℕ → ℕ
hex_digit n = if ltb n 10 then b'0' + n else b'a' + (n - 10)

unfoldable pub encode_hex : List ℕ → Str
encode_hex [] = []
encode_hex (b ∷ bs) = hex_digit (b / 16) ∷ hex_digit (b % 16) ∷ encode_hex bs

unfoldable pub hex_value : ℕ → Option ℕ
hex_value c =
    if leb b'0' c && leb c b'9'
    then some (c - b'0')
    else if leb b'a' c && leb c b'f'
    then some (c - b'a' + 10)
    else if leb b'A' c && leb c b'F'
    then some (c - b'A' + 10)
    else none

-- `hex.DecodeString`: `none` is an error.
unfoldable pub decode_hex : Str → Option (List ℕ)
decode_hex [] = some []
decode_hex (c ∷ []) = none
decode_hex (c ∷ d ∷ s) =
    let rest = decode_hex s in
    elim (hex_value c) [
      | none ↦ none
      | some hi ↦ elim (hex_value d) [
        | none ↦ none
        | some lo ↦ elim rest [ none ↦ none | some bs ↦ some ((hi * 16 + lo) ∷ bs) ]
      ]
    ]

-- A key of `size` bytes.
unfoldable pub sized : ℕ → Option (List ℕ) → Option (List ℕ)
sized size none = none
sized size (some bs) = if not (length bs == size) then none else some bs

-- `ParsePublicHex` and `ParsePrivateHex`, which differ in the texts of their errors only.
unfoldable pub parse_hex : Str → Option (List ℕ)
parse_hex s = sized keypair_size (decode_hex s)

-- The loop of `splitLines`, with the line that has begun: lines end by CR or LF, and empty ones are left
-- out.
unfoldable pub split_onto : Str → Str → List Str
split_onto line [] = elim line [ [] ↦ [] | c ∷ s ↦ (c ∷ s) ∷ [] ]
split_onto line (c ∷ s) =
    let next_line = split_onto [] s in
    let goes_on = split_onto (line ++ (c ∷ [])) s in
    if c == 10 || c == 13
    then elim line [ [] ↦ next_line | d ∷ t ↦ (d ∷ t) ∷ next_line ]
    else goes_on

unfoldable pub split_lines : Str → List Str
split_lines s = split_onto [] s

unfoldable pub parse_pair : List Str → Option Keypair
parse_pair [] = none
parse_pair (a ∷ []) = none
parse_pair (a ∷ b ∷ rest) = elim (parse_hex a) [
  | none ↦ none
  | some pub_key ↦ elim (parse_hex b) [
    | none ↦ none
    | some priv_key ↦ some (record { public = pub_key; private = priv_key })
  ]
]

unfoldable pub parse_from_lines : Str → Option Keypair
parse_from_lines b = parse_pair (split_lines b)

-- The text that `saveToFile` writes.
unfoldable pub file_text : Keypair → Str
file_text kp = encode_hex kp.public ++ (10 ∷ (encode_hex kp.private ++ (10 ∷ [])))

-- The two operations on the last byte of a private key, and all three on its bytes.
unfoldable pub clamp_last : List ℕ → List ℕ
clamp_last [] = []
clamp_last (b ∷ []) = bit_or (bit_and b 127) 64 ∷ []
clamp_last (b ∷ c ∷ more) = b ∷ clamp_last (c ∷ more)

unfoldable pub clamp : List ℕ → List ℕ
clamp [] = []
clamp (first ∷ rest) = bit_and first 248 ∷ clamp_last rest

-- `GenerateKeypair` with the bytes that `rand.Read` gives, if it does; `base` is `ScalarBaseMult`.
unfoldable pub generate_keypair : (List ℕ → List ℕ) → Option (List ℕ) → Option Keypair
generate_keypair base none = none
generate_keypair base (some random) =
    some (record { public = base (clamp random); private = clamp random })

-- The key file: no such file, an error of reading, or its bytes.
pub data KeyFile : Type 0 where
  missing unreadable : KeyFile
  contents : Str → KeyFile

-- `LoadOrGenerate`: the file afterwards, and the key pair, if there was no error. `failure` is what is left
-- of a file that cannot be written.
unfoldable pub load_or_generate :
    (List ℕ → List ℕ) → Option (List ℕ) → Option KeyFile → KeyFile → KeyFile × Option Keypair
load_or_generate base random failure missing = elim (generate_keypair base random) [
  | none ↦ (missing, none)
  | some kp ↦ elim failure [ none ↦ (contents (file_text kp), some kp) | some left ↦ (left, none) ]
]
load_or_generate base random failure unreadable = (unreadable, none)
load_or_generate base random failure (contents b) = (contents b, parse_from_lines b)

abbrev pub ed_private_size : ℕ
ed_private_size = 64

abbrev pub ed_public_size : ℕ
ed_public_size = 32

unfoldable pub ed_priv_key_from_hex : Str → Option (List ℕ)
ed_priv_key_from_hex s = sized ed_private_size (decode_hex s)

unfoldable pub ed_pub_key_from_hex : Str → Option (List ℕ)
ed_pub_key_from_hex s = sized ed_public_size (decode_hex s)

-- `HashedKeyFingerprint`; `sha` is SHA-256.
unfoldable pub hashed_key_fingerprint : (List ℕ → List ℕ) → List ℕ → Str
hashed_key_fingerprint sha key =
    if not (length key == ed_public_size) then [] else encode_hex (take 4 (sha key))

-- `shortFP` of internal/client/quic.go.
unfoldable pub short_fp : (List ℕ → List ℕ) → List ℕ → Str
short_fp sha key = encode_hex (take 4 (sha key))

-- `shortFPFromHex`.
unfoldable pub short_fp_from_hex : (List ℕ → List ℕ) → Str → Str
short_fp_from_hex sha s = elim (ed_pub_key_from_hex s) [
  | none ↦ []
  | some key ↦ encode_hex (take 4 (sha key))
]

-- The certificates of a chain that can be parsed: the ed25519 key of each, if it has one.
unfoldable pub cert_fingerprint : (List ℕ → List ℕ) → Option (List ℕ) → Str
cert_fingerprint sha none = []
cert_fingerprint sha (some key) = hashed_key_fingerprint sha key

-- `ValidatePeerFingerprint`: true if there is no error.
unfoldable pub validate_peer_fingerprint : (List ℕ → List ℕ) → List (Option (List ℕ)) → Str → Bool
validate_peer_fingerprint sha [] expected = false
validate_peer_fingerprint sha (cert ∷ rest) expected = str_eq (cert_fingerprint sha cert) expected
