-- ===== src/Tests/Keys.antt =====
-- Keys of 32 bytes, at which the theorems on internal/crypto apply.
use tunel.Prelude.{◌≡◌, List, [], ◌∷◌, ℕ, some, none, arith, zero, suc}
use tunel.Keys.{Keypair, KeyFile, missing, load_or_generate}
use tunel.Keys.Hex.{IsKey}
use tunel.Keys.Stored.{IsClamped, load_or_generate-kept}

abbrev counting : ℕ → List ℕ
counting zero = []
counting (suc n) = suc n ∷ counting n

abbrev base : List ℕ → List ℕ
base private = counting 32

key : IsKey 32 (counting 32)
key = (ground arith, omega arith)

load_or_generate-kept_example :
    (kp : Keypair) × (file : KeyFile) × (load_or_generate base (some (counting 32)) none missing
      ≡ (file, some kp))
    × IsClamped kp.private
    × (load_or_generate base none none file ≡ (file, some kp))
load_or_generate-kept_example = load_or_generate-kept base (counting 32) none none key key
