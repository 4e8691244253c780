-- ===== src/Prelude/Map.antt =====
-- Go maps as association lists: `m[k]`, `m[k] = v`, `delete(m, k)` and `len(m)`. The order of the
-- list stands for the order, not fixed by the language, in which a `range` visits the keys.
use mathlib.Core.Path.{◌≡◌, refl}
use mathlib.Core.List.{List, [], ◌∷◌}
use mathlib.Core.Option.{Option, none, some}
use native.Mathlib.Omega.{arith}
use tunel.Prelude.Tests.{Eq, if◌then◌else◌}

abbrev pub Map {ℓ κ} : Type ℓ → Type κ → Type (ℓ ⊔ κ)
Map K V = List (K × V)

module _ {ℓ κ} {K : Type ℓ} {V : Type κ} ⦃e : Eq K⦄ where
  unfoldable pub get : K → Map K V → Option V
  get k [] = none
  get k ((j, v) ∷ m) = if e.beq j k then some v else get k m

  unfoldable pub put : K → V → Map K V → Map K V
  put k v [] = (k, v) ∷ []
  put k v ((j, w) ∷ m) = if e.beq j k then (k, v) ∷ m else (j, w) ∷ put k v m

  -- Every entry of the key goes, so that the law holds of any list.
  unfoldable pub delete : K → Map K V → Map K V
  delete k [] = []
  delete k ((j, v) ∷ m) = let rest = delete k m in if e.beq j k then rest else (j, v) ∷ rest

  pub get-put :
      (k j : K) (v : V) (m : Map K V) → get j (put k v m) ≡ (if e.beq k j then some v else get j m)
  unfolding get put
  get-put k j v [] = refl
  get-put k j v ((i, w) ∷ m) =
      ground (arith, e.beq_iff k j, e.beq_iff i k, e.beq_iff i j, get-put k j v m)

  pub get-delete :
      (k j : K) (m : Map K V) → get j (delete k m) ≡ (if e.beq k j then none else get j m)
  unfolding get delete
  get-delete k j [] = ground arith
  get-delete k j ((i, w) ∷ m) =
      ground (arith, e.beq_iff k j, e.beq_iff i k, e.beq_iff i j, get-delete k j m)

  pub get-put_self : (k : K) (v : V) (m : Map K V) → get k (put k v m) ≡ some v
  get-put_self k v m = ground (arith, get-put k k v m, e.beq_iff k k)

  pub get-delete_self : (k : K) (m : Map K V) → get k (delete k m) ≡ none
  get-delete_self k m = ground (arith, get-delete k k m, e.beq_iff k k)

  -- No key has two entries: what a Go map is.
  abbrev pub Distinct : Map K V → Type κ
  Distinct [] = Unit {κ}
  Distinct ((k, v) ∷ m) = (get k m ≡ none) × Distinct m

  pub put-Distinct : (k : K) (v : V) (m : Map K V) → Distinct m → Distinct (put k v m)
  unfolding put get
  put-Distinct k v [] d = (refl, tt)
  put-Distinct k v ((j, w) ∷ m) (new, d) =
      ground (arith, e.beq_iff j k, e.beq_iff k j, get-put k j v m, put-Distinct k v m d)

  pub delete-Distinct : (k : K) (m : Map K V) → Distinct m → Distinct (delete k m)
  unfolding delete
  delete-Distinct k [] d = tt
  delete-Distinct k ((j, w) ∷ m) (new, d) =
      ground (arith, e.beq_iff j k, e.beq_iff k j, get-delete k j m, delete-Distinct k m d)
