-- ===== src/Retry/Waits.antt =====
-- internal/retry/retry.go: how long the waits are.
use edge_cdn.Base.{ℕ, ◌^◌, ◌≤◌, ◌<◌, ◌≡◌, inl, inr, true, arith, if◌then◌else◌, Bool-cases}
use edge_cdn.Base.Int.{pos}
use edge_cdn.Base.Floats.{Float, IsFloat}
use edge_cdn.Retry.{Config}
use edge_cdn.Retry.Backoff.{Growth, capped_backoff, backoff_float, calculate_backoff}

-- What bounds a wait: `max_backoff`, and the jitter of it, if there is one.
unfoldable pub longest_wait : (F : Float) → Config → Growth F.Real → F.Real
longest_wait F cfg g =
    if F.lt (F.of_nat 0) g.jitter_fraction
    then F.add (F.of_nat cfg.max_backoff) (F.mul (F.of_nat cfg.max_backoff) g.jitter_fraction)
    else F.of_nat cfg.max_backoff

module _ (F : Float) (law : IsFloat F) (cfg : Config) (g : Growth F.Real) where
  open F use {Real, add, mul, lt, le, pow, of_nat, truncate}
  open law use {
    le_trans, le_of_not_lt, le_of_lt, refl_of_le, of_nat_finite, of_nat_le, pow_nonneg, mul_nonneg,
    mul_bounds, add_mono, truncate_mono,
  }

  capped_backoff_bounds :
      (attempt : ℕ)
      → 0 < cfg.initial_backoff
      → cfg.initial_backoff < 2 ^ 63
      → le (of_nat 0) g.multiplier ≡ true
      → (le (of_nat 0) (capped_backoff F cfg g attempt) ≡ true)
        × (le (capped_backoff F cfg g attempt) (of_nat cfg.max_backoff) ≡ true)
  unfolding capped_backoff
  capped_backoff_bounds attempt h small pos_mult =
      let m = of_nat cfg.max_backoff in
      let b = mul (of_nat cfg.initial_backoff) (pow g.multiplier (of_nat attempt)) in
      let nonneg : le (of_nat 0) b ≡ true =
        mul_nonneg cfg.initial_backoff (pow g.multiplier (of_nat attempt)) h small
          (pow_nonneg g.multiplier attempt pos_mult) in
      let m_nonneg : le (of_nat 0) m ≡ true = of_nat_le 0 cfg.max_backoff (omega arith) in
      elim (Bool-cases (lt m b)) [
        | inl y ↦ rw y (m_nonneg, refl_of_le (of_nat 0) m m_nonneg)
        | inr n ↦ rw n (
          nonneg,
          le_of_not_lt m b (refl_of_le (of_nat 0) m m_nonneg) (refl_of_le (of_nat 0) b nonneg) n,
        )
      ]

  backoff_float_bounds :
      (draw : Real) (attempt : ℕ)
      → 0 < cfg.initial_backoff
      → cfg.initial_backoff < 2 ^ 63
      → cfg.max_backoff < 2 ^ 63
      → le (of_nat 0) g.multiplier ≡ true
      → le g.jitter_fraction (of_nat 1) ≡ true
      → le (of_nat 0) draw ≡ true
      → le draw (of_nat 1) ≡ true
      → (le (of_nat 0) (backoff_float F cfg g draw attempt) ≡ true)
        × (le (backoff_float F cfg g draw attempt) (longest_wait F cfg g) ≡ true)
  unfolding backoff_float longest_wait
  backoff_float_bounds draw attempt h small small' pos_mult j_le d_nonneg d_le =
      let m = of_nat cfg.max_backoff in
      let b = capped_backoff F cfg g attempt in
      let j = g.jitter_fraction in
      let (nonneg, capped) = capped_backoff_bounds attempt h small pos_mult in
      elim (Bool-cases (lt (of_nat 0) j)) [
        | inr n ↦ rw n (nonneg, capped)
        | inl y ↦
            let j_nonneg = le_of_lt (of_nat 0) j y in
            let finite = of_nat_finite cfg.max_backoff small' in
            let (bj, _, bj_le) = mul_bounds b m j nonneg capped finite j_nonneg j_le in
            let (_, mj_le, _) =
              mul_bounds m m j (of_nat_le 0 cfg.max_backoff (omega arith))
                (of_nat_le cfg.max_backoff cfg.max_backoff (omega arith)) finite j_nonneg j_le in
            let (bjd, bjd_le, _) =
              mul_bounds (mul b j) (mul m j) draw bj bj_le
                (le_trans (mul m j) m F.max_float mj_le finite) d_nonneg d_le in
            let (more, less) =
              add_mono b m (mul (mul b j) draw) (mul m j) nonneg capped bjd
                (le_trans (mul (mul b j) draw) (mul b j) (mul m j) bjd_le bj_le) in
            rw y (le_trans (of_nat 0) b (add b (mul (mul b j) draw)) nonneg more, less)
      ]

  -- A wait is a number of nanoseconds, not negative, and at most `max_backoff` with the jitter of it. The
  -- durations are positive and below 2^63 ns, the multiplier is not negative, the jitter is at most
  -- 1, the random fraction lies from 0 to 1, and the bound is a duration.
  pub calculate_backoff_bounds :
      (draw : Real) (attempt : ℕ)
      → 0 < cfg.initial_backoff
      → cfg.initial_backoff < 2 ^ 63
      → cfg.max_backoff < 2 ^ 63
      → le (of_nat 0) g.multiplier ≡ true
      → le g.jitter_fraction (of_nat 1) ≡ true
      → le (of_nat 0) draw ≡ true
      → le draw (of_nat 1) ≡ true
      → lt (longest_wait F cfg g) (of_nat (2 ^ 63)) ≡ true
      → (wait : ℕ) × (longest : ℕ) × (calculate_backoff F cfg g draw attempt ≡ pos wait)
        × (truncate (longest_wait F cfg g) ≡ pos longest)
        × (wait ≤ longest)
  unfolding calculate_backoff
  calculate_backoff_bounds draw attempt h small small' pos_mult j_le d_nonneg d_le fits =
      let (nonneg, le_longest) =
        backoff_float_bounds draw attempt h small small' pos_mult j_le d_nonneg d_le in
      truncate_mono (backoff_float F cfg g draw attempt) (longest_wait F cfg g) nonneg le_longest
        fits
