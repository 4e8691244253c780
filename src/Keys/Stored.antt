-- ===== src/Keys/Stored.antt =====
-- The key file: `LoadOrGenerate`, `parseFromLines` and `saveToFile` of internal/crypto/keys.go.
use Prim.Native.Nat.{bit_and, bit_or}
use tunel.Prelude.{
  ℕ, suc, ◌+◌, ◌%◌, ◌≤◌, ◌<◌, ◌≡◌, refl, true, List, [], ◌∷◌, ◌++◌, Str, Option, some, none, arith,
  All, length, length-append, passes_to, passes_to_lem, append_assoc, append-nil, ◌==◌, ltb, leb,
  ◌&&◌, ap, get_or,
}
use tunel.Protocol.Stream.{IsByte}
use tunel.Keys.{
  Keypair, encode_hex, split_onto, split_lines, parse_pair, parse_from_lines, parse_hex, file_text,
  clamp, clamp_last, generate_keypair, KeyFile, missing, contents, load_or_generate,
}
use tunel.Keys.Hex.{IsVisible, encode_hex-IsVisible, IsKey, sized-encode_hex, length-encode_hex}

-- A line that is not empty is cut off at its end.
split_onto-line :
    (line s rest : Str)
    → All IsVisible s
    → 1 ≤ length line + length s
    → split_onto line (s ++ (10 ∷ rest)) ≡ (line ++ s) ∷ split_onto [] rest
unfolding split_onto
split_onto-line [] [] rest all full = absurd (omega arith)
split_onto-line (c ∷ line) [] rest all full = ground (arith, append-nil line)
split_onto-line line (c ∷ s) rest (visible, all) full = ground (
  arith,
  split_onto-line (line ++ (c ∷ [])) s rest all (omega (arith, length-append line (c ∷ []))),
  append_assoc line (c ∷ []) s,
)

split_onto-nil : split_onto [] [] ≡ []
unfolding split_onto
split_onto-nil = refl

split_lines-file_text :
    (kp : Keypair)
    → length kp.public ≡ 32
    → length kp.private ≡ 32
    → split_lines (file_text kp) ≡ encode_hex kp.public ∷ encode_hex kp.private ∷ []
unfolding split_lines file_text
split_lines-file_text kp full full' = ground (
  arith,
  split_onto-line [] (encode_hex kp.public) (encode_hex kp.private ++ (10 ∷ []))
      (encode_hex-IsVisible kp.public) (omega (arith, length-encode_hex kp.public)),
  split_onto-line [] (encode_hex kp.private) [] (encode_hex-IsVisible kp.private)
      (omega (arith, length-encode_hex kp.private)),
  split_onto-nil,
)

-- A key pair that is saved is read back as it is.
pub parse_from_lines-file_text :
    (kp : Keypair)
    → IsKey 32 kp.public
    → IsKey 32 kp.private
    → parse_from_lines (file_text kp) ≡ some kp
unfolding parse_from_lines parse_pair parse_hex
parse_from_lines-file_text kp public private = ground (
  arith,
  split_lines-file_text kp public.1 private.1,
  sized-encode_hex 32 kp.public public,
  sized-encode_hex 32 kp.private private,
)

clear_table : passes_to (λ x. bit_and x 248 % 8 == 0 && ltb (bit_and x 248) 256) 256 ≡ true
unfolding passes_to
clear_table = refl

set_table :
    passes_to (λ x. leb 64 (bit_or (bit_and x 127) 64) && ltb (bit_or (bit_and x 127) 64) 128) 256
    ≡ true
unfolding passes_to
set_table = refl

-- The last byte of a key.
abbrev last : List ℕ → ℕ
last [] = 0
last (b ∷ []) = b
last (b ∷ c ∷ bs) = last (c ∷ bs)

last-cons : (b : ℕ) (xs : List ℕ) → 1 ≤ length xs → last (b ∷ xs) ≡ last xs
last-cons b [] full = elim full [ ]
last-cons b (x ∷ xs) full = refl

clamp_last_lem :
    (b : ℕ) (bs : List ℕ)
    → All IsByte (b ∷ bs)
    → All IsByte (clamp_last (b ∷ bs))
      × (length (clamp_last (b ∷ bs)) ≡ suc (length bs))
      × (64 ≤ last (clamp_last (b ∷ bs)))
      × (last (clamp_last (b ∷ bs)) < 128)
unfolding clamp_last
clamp_last_lem b [] (small, all) =
    let set = passes_to_lem _ 256 b small set_table in
    ((ground arith, tt), refl, ground arith, ground arith)
clamp_last_lem b (c ∷ bs) (small, all) =
    let (bytes, size, low, high) = clamp_last_lem c bs all in
    let same = last-cons b (clamp_last (c ∷ bs)) (omega arith) in
    ((small, bytes), ap suc size, omega arith, omega arith)

-- A private key as curve25519 wants it: of the right size, a multiple of 8, and with the second highest of
-- its bits as the highest that is set. The first byte is the lowest.
abbrev pub IsClamped : List ℕ → Type 0
IsClamped bs = IsKey 32 bs × (get_or bs 0 0 % 8 ≡ 0) × (64 ≤ last bs) × (last bs < 128)

clamp-IsClamped : (random : List ℕ) → IsKey 32 random → IsClamped (clamp random)
unfolding clamp
clamp-IsClamped [] (all, size) = absurd (omega arith)
clamp-IsClamped (a ∷ []) (all, size) = absurd (omega arith)
clamp-IsClamped (a ∷ b ∷ bs) ((small, all), size) =
    let (bytes, size', low, high) = clamp_last_lem b bs all in
    let clear = passes_to_lem _ 256 a small clear_table in
    let same = last-cons (bit_and a 248) (clamp_last (b ∷ bs)) (omega arith) in
    (((ground arith, bytes), omega arith), ground arith, omega arith, omega arith)

-- A client that starts without a key file has a private key that is clamped, and finds the same key pair in
-- the file whenever it starts again, whatever random bytes it would then be given. The random bytes are 32,
-- the curve gives 32 bytes, and the file can be written.
pub load_or_generate-kept :
    (base : List ℕ → List ℕ) (random : List ℕ) (random' : Option (List ℕ))
    (failure' : Option KeyFile)
    → IsKey 32 random
    → IsKey 32 (base (clamp random))
    → (kp : Keypair) × (file : KeyFile) × (load_or_generate base (some random) none missing
        ≡ (file, some kp))
      × IsClamped kp.private
      × (load_or_generate base random' failure' file ≡ (file, some kp))
unfolding load_or_generate generate_keypair
load_or_generate-kept base random random' failure' size size' =
    let kp : Keypair = record { public = base (clamp random); private = clamp random } in
    let clamped = clamp-IsClamped random size in
    (
      kp,
      contents (file_text kp),
      refl,
      clamped,
      ap (λ found. (contents (file_text kp), found))
          (parse_from_lines-file_text kp size' clamped.0),
    )
