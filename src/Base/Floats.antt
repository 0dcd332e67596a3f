-- ===== src/Base/Floats.antt =====
-- What the program uses of `float64` and of Go's `math`.
use Prim.Native.Nat.{ℕ, ◌^◌, ◌≤◌, ◌<◌}
use mathlib.Core.Path.{◌≡◌}
use mathlib.Core.Bool.{Bool, true, false}
use edge_cdn.Base.Int.{ℤ, pos}

-- `lit m e` is the constant m / 10^e; `lt` and `le` are `<` and `<=`, which are
-- both false at a NaN. `of_nat` is `float64` of an integer, and `truncate` is `int64` of a float.
pub record Float : Type 1 where
  pub Real : Type 0
  pub sub : Real → Real → Real
  pub add : Real → Real → Real
  pub mul : Real → Real → Real
  pub div : Real → Real → Real
  pub sin : Real → Real
  pub cos : Real → Real
  pub sqrt : Real → Real
  pub atan2 : Real → Real → Real
  pub lt : Real → Real → Bool
  pub lit : ℤ → ℕ → Real
  pub pi : Real
  pub max_float : Real
  pub le : Real → Real → Bool
  pub pow : Real → Real → Real
  pub of_nat : ℕ → Real
  pub truncate : Real → ℤ

-- The laws of IEEE 754, and of Go's `math.Pow` and conversions, that the statements use. A finite
-- number is at most `max_float`.
pub record IsFloat (F : Float) : Type 0 where
  pub le_trans : (x y z : F.Real) → F.le x y ≡ true → F.le y z ≡ true → F.le x z ≡ true
  pub le_of_not_lt :
      (x y : F.Real) → F.le x x ≡ true → F.le y y ≡ true → F.lt x y ≡ false → F.le y x ≡ true
  pub le_of_lt : (x y : F.Real) → F.lt x y ≡ true → F.le x y ≡ true
  pub refl_of_le : (x y : F.Real) → F.le x y ≡ true → F.le y y ≡ true
  pub of_nat_finite : (n : ℕ) → n < 2 ^ 63 → F.le (F.of_nat n) F.max_float ≡ true
  pub of_nat_le : (m n : ℕ) → m ≤ n → F.le (F.of_nat m) (F.of_nat n) ≡ true
  pub pow_nonneg :
      (x : F.Real) (n : ℕ)
      → F.le (F.of_nat 0) x ≡ true
      → F.le (F.of_nat 0) (F.pow x (F.of_nat n)) ≡ true
  -- A positive finite number times a number that may be infinite.
  pub mul_nonneg :
      (n : ℕ) (y : F.Real)
      → 0 < n
      → n < 2 ^ 63
      → F.le (F.of_nat 0) y ≡ true
      → F.le (F.of_nat 0) (F.mul (F.of_nat n) y) ≡ true
  -- Finite numbers times a number from 0 to 1.
  pub mul_bounds :
      (x y c : F.Real)
      → F.le (F.of_nat 0) x ≡ true
      → F.le x y ≡ true
      → F.le y F.max_float ≡ true
      → F.le (F.of_nat 0) c ≡ true
      → F.le c (F.of_nat 1) ≡ true
      → (F.le (F.of_nat 0) (F.mul x c) ≡ true)
        × (F.le (F.mul x c) x ≡ true)
        × (F.le (F.mul x c) (F.mul y c) ≡ true)
  -- Sums of numbers that are not negative.
  pub add_mono :
      (a b c d : F.Real)
      → F.le (F.of_nat 0) a ≡ true
      → F.le a b ≡ true
      → F.le (F.of_nat 0) c ≡ true
      → F.le c d ≡ true
      → (F.le a (F.add a c) ≡ true) × (F.le (F.add a c) (F.add b d) ≡ true)
  pub truncate_mono :
      (x y : F.Real)
      → F.le (F.of_nat 0) x ≡ true
      → F.le x y ≡ true
      → F.lt y (F.of_nat (2 ^ 63)) ≡ true
      → (m : ℕ) × (n : ℕ) × (F.truncate x ≡ pos m) × (F.truncate y ≡ pos n) × (m ≤ n)
  -- A quotient of integers, of which the first is at most the second.
  pub div_bounds :
      (m n : ℕ)
      → m ≤ n
      → 0 < n
      → n < 2 ^ 63
      → (F.le (F.of_nat 0) (F.div (F.of_nat m) (F.of_nat n)) ≡ true)
        × (F.le (F.div (F.of_nat m) (F.of_nat n)) (F.of_nat 1) ≡ true)
