-- ===== src/Keys/Hex.antt =====
-- The text of bytes in hexadecimal, as internal/crypto uses it.
use tunel.Prelude.{ℕ, ◌*◌, ◌/◌, ◌%◌, ◌<◌, ◌≡◌, refl, List, [], ◌∷◌, some, arith, All, length}
use tunel.Protocol.Stream.{IsByte}
use tunel.Keys.{hex_digit, hex_value, encode_hex, decode_hex, sized}

hex_value-hex_digit : (n : ℕ) → n < 16 → hex_value (hex_digit n) ≡ some n
unfolding hex_value hex_digit
hex_value-hex_digit n small = ground arith

-- Bytes are read back from their text.
pub decode_hex-encode_hex : (bs : List ℕ) → All IsByte bs → decode_hex (encode_hex bs) ≡ some bs
unfolding decode_hex encode_hex
decode_hex-encode_hex [] all = refl
decode_hex-encode_hex (b ∷ bs) (small, all) = ground (
  arith,
  hex_value-hex_digit (b / 16) (omega arith),
  hex_value-hex_digit (b % 16) (omega arith),
  decode_hex-encode_hex bs all,
)

-- The text has no line end in it.
abbrev pub IsVisible : ℕ → Type 0
IsVisible c = 13 < c

hex_digit-IsVisible : (n : ℕ) → IsVisible (hex_digit n)
unfolding hex_digit
hex_digit-IsVisible n = ground arith

pub encode_hex-IsVisible : (bs : List ℕ) → All IsVisible (encode_hex bs)
unfolding encode_hex
encode_hex-IsVisible [] = tt
encode_hex-IsVisible (b ∷ bs) =
    (hex_digit-IsVisible (b / 16), (hex_digit-IsVisible (b % 16), encode_hex-IsVisible bs))

-- A key of the right size.
abbrev pub IsKey : ℕ → List ℕ → Type 0
IsKey size bs = All IsByte bs × (length bs ≡ size)

pub sized-encode_hex :
    (size : ℕ) (bs : List ℕ) → IsKey size bs → sized size (decode_hex (encode_hex bs)) ≡ some bs
unfolding sized
sized-encode_hex size bs (all, is) = ground (arith, decode_hex-encode_hex bs all)

-- The text of a key is two digits for each byte.
pub length-encode_hex : (bs : List ℕ) → length (encode_hex bs) ≡ length bs * 2
unfolding encode_hex
length-encode_hex [] = omega arith
length-encode_hex (b ∷ bs) = omega (arith, length-encode_hex bs)
