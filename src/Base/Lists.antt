-- ===== src/Base/Lists.antt =====
-- Lists measured and indexed by native numbers, under the library's names.
use Prim.Native.Nat.{ℕ, zero, suc, ◌+◌}
use mathlib.Core.Path.{◌≡◌}
use mathlib.Core.Bool.{Bool, true, false}
use mathlib.Core.Logic.{ite}
use mathlib.Core.List.{List, [], ◌∷◌, ◌++◌}
use mathlib.Core.Option.{Option, none, some}
use native.Mathlib.Omega.{arith}

module _ {ℓ} {A : Type ℓ} where
  abbrev pub length : List A → ℕ
  length [] = 0
  length (x ∷ xs) = suc (length xs)

  abbrev pub get_elem? : List A → ℕ → Option A
  get_elem? [] i = none
  get_elem? (x ∷ xs) zero = some x
  get_elem? (x ∷ xs) (suc i) = get_elem? xs i

  abbrev pub get_or : List A → ℕ → A → A
  get_or [] i d = d
  get_or (x ∷ xs) zero d = x
  get_or (x ∷ xs) (suc i) d = get_or xs i d

  abbrev pub replicate : ℕ → A → List A
  replicate zero a = []
  replicate (suc n) a = a ∷ replicate n a

  pub length-append : (xs ys : List A) → length (xs ++ ys) ≡ length xs + length ys
  length-append [] ys = omega arith
  length-append (x ∷ xs) ys = omega (arith, length-append xs ys)

-- Membership as a test, over a decidable equality.
module _ {ℓ} {A : Type ℓ} (dec : Discrete A) where
  abbrev pub elem : A → List A → Bool
  elem a [] = false
  elem a (x ∷ xs) = ite (dec a x) true (elem a xs)

  pub elem-append_left : (a : A) (xs ys : List A) → elem a xs ≡ true → elem a (xs ++ ys) ≡ true
  elem-append_left a [] ys h = absurd (ground arith)
  elem-append_left a (x ∷ xs) ys h = ground (arith, elem-append_left a xs ys)

  pub elem-append_right : (a : A) (xs ys : List A) → elem a ys ≡ true → elem a (xs ++ ys) ≡ true
  elem-append_right a [] ys h = h
  elem-append_right a (x ∷ xs) ys h = ground (arith, elem-append_right a xs ys h)

-- A property of every element.
abbrev pub All {ℓ κ} : {A : Type ℓ} → (A → Type κ) → List A → Type κ
All P [] = Unit
All P (x ∷ xs) = P x × All P xs
