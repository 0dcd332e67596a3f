-- ===== src/Examples/Retries.antt =====
-- The waits of the retries (internal/retry), with natural numbers for floats.
use native.Mathlib.Nat.{div-eq_of_lt}
use edge_cdn.Base.{ℕ, zero, suc, ◌*◌, ◌≤◌, ◌≡◌, ◌+◌, refl, true, arith}
use edge_cdn.Base.Int.{pos}
use edge_cdn.Base.Floats.{IsFloat}
use edge_cdn.Retry.{Config}
use edge_cdn.Retry.Backoff.{Growth, capped_backoff, backoff_float, calculate_backoff}
use edge_cdn.Retry.Waits.{longest_wait, calculate_backoff_bounds}
use edge_cdn.Examples.Gateways.{numbers}

abbrev three : Config
three = record { max_attempts = 3; initial_backoff = 1; max_backoff = 10; has_check = true }

abbrev doubling : Growth ℕ
doubling = record { multiplier = 2; jitter_fraction = 1 }

mul_most : (x y c : ℕ) → c ≤ 1 → x ≤ y → (x * c ≤ x) × (x * c ≤ y * c)
mul_most x y zero h le = (omega arith, omega arith)
mul_most x y (suc zero) h le = (omega arith, omega arith)
mul_most x y (suc (suc c)) h le = absurd (omega (arith, h))

pub numbers-IsFloat : IsFloat numbers
numbers-IsFloat = record {
  le_trans = λ x y z h h'. ground (arith, h, h');
  le_of_not_lt = λ x y h h' n. ground (arith, n);
  le_of_lt = λ x y h. ground (arith, h);
  refl_of_le = λ x y h. ground arith;
  of_nat_finite = λ n h. ground (arith, h);
  of_nat_le = λ m n h. ground (arith, h);
  pow_nonneg = λ x n h. ground arith;
  mul_nonneg = λ n y h h' h''. ground arith;
  mul_bounds = λ x y c h xy h' h'' c_le.
      let (a, b) = mul_most x y c (ground (arith, c_le)) (ground (arith, xy)) in
      (ground arith, ground (arith, a), ground (arith, b));
  add_mono = λ a b c d h ab h' cd. (ground arith, ground (arith, ab, cd));
  truncate_mono = λ x y h xy h'. (x, y, refl, refl, ground (arith, xy));
  div_bounds = λ m n le pos small.
      (ground arith, ground (arith, div-eq_of_lt {n = m} {m = n + 1} (omega arith)));
}

-- The third wait doubles twice, and the jitter at most doubles it again.
third_wait : calculate_backoff numbers three doubling 1 2 ≡ pos 8
unfolding calculate_backoff backoff_float capped_backoff
third_wait = refl

calculate_backoff_bounds_example :
    (wait : ℕ) × (longest : ℕ) × (calculate_backoff numbers three doubling 1 2 ≡ pos wait)
    × (pos 20 ≡ pos longest)
    × (wait ≤ longest)
unfolding longest_wait
calculate_backoff_bounds_example =
    calculate_backoff_bounds numbers numbers-IsFloat three doubling 1 2 (omega arith) (omega arith)
      (omega arith) refl refl refl refl refl
