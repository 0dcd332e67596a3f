-- ===== src/Base/Maps.antt =====
-- A Go map as an association list over keys with a decidable equality. The order of the list is
-- the order of one iteration of the map, which Go leaves open. The lookup is the library's.
use mathlib.Core.Path.{◌≡◌, refl}
use mathlib.Core.Logic.{ite}
use mathlib.Core.Option.{Option, none, some}
use mathlib.Core.List.{List, [], ◌∷◌}
use native.Mathlib.Omega.{arith}

module _ {ℓ} {K V : Type ℓ} (dec : Discrete K) where
  abbrev pub lookup : K → List (K × V) → Option V
  lookup k [] = none
  lookup k ((j, v) ∷ m) = ite (dec k j) (some v) (lookup k m)

  -- `m[k]` for a value type whose zero value is `d`.
  abbrev pub lookup_or : V → K → List (K × V) → V
  lookup_or d k m = elim (lookup k m) [ none ↦ d | some v ↦ v ]

  -- `m[k] = v`.
  unfoldable pub insert : K → V → List (K × V) → List (K × V)
  insert k v [] = (k, v) ∷ []
  insert k v ((j, w) ∷ m) = ite (dec k j) ((k, v) ∷ m) ((j, w) ∷ insert k v m)

  -- `delete(m, k)`.
  unfoldable pub delete : K → List (K × V) → List (K × V)
  delete k [] = []
  delete k ((j, w) ∷ m) = let rest = delete k m in ite (dec k j) rest ((j, w) ∷ rest)

  pub lookup-insert :
      (j k : K) (v : V) (m : List (K × V))
      → lookup j (insert k v m) ≡ ite (dec j k) (some v) (lookup j m)
  unfolding insert
  lookup-insert j k v [] = refl
  lookup-insert j k v ((i, w) ∷ m) = ground (arith, lookup-insert j k v m)

  pub lookup-delete :
      (j k : K) (m : List (K × V)) → lookup j (delete k m) ≡ ite (dec j k) none (lookup j m)
  unfolding delete
  lookup-delete j k [] = ground arith
  lookup-delete j k ((i, w) ∷ m) = ground (arith, lookup-delete j k m)
