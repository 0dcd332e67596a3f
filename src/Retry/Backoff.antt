-- ===== src/Retry/Backoff.antt =====
-- The waits of internal/retry/retry.go, over the floats `F`. The random fraction of a wait is an
-- argument.
use edge_cdn.Base.{ℕ, false, if◌then◌else◌}
use edge_cdn.Base.Int.{ℤ, pos}
use edge_cdn.Base.Floats.{Float}
use edge_cdn.Retry.{Config, new_config}

-- The two fields of the configuration that only the waits use.
pub record Growth (Real : Type 0) : Type 0 where
  pub multiplier : Real
  pub jitter_fraction : Real

module _ (F : Float) where
  open F use {Real, add, mul, lt, le, pow, lit, of_nat, truncate}

  unfoldable pub new_growth : Real → Real → Growth Real
  new_growth multiplier jitter_fraction = record {
    multiplier = if le multiplier (of_nat 0) then of_nat 2 else multiplier;
    jitter_fraction = jitter_fraction;
  }

  -- `DefaultConfig`
  unfoldable pub default_config : Config
  unfolding new_config
  default_config = new_config (pos 3) (pos 100_000_000) (pos 5_000_000_000) false

  unfoldable pub default_growth : Growth Real
  unfolding new_growth
  default_growth = new_growth (lit (pos 20) 1) (lit (pos 25) 2)

  -- `calculateBackoff` before the jitter, and before the conversion.
  unfoldable pub capped_backoff : Config → Growth Real → ℕ → Real
  capped_backoff cfg g attempt =
      let backoff = mul (of_nat cfg.initial_backoff) (pow g.multiplier (of_nat attempt)) in
      if lt (of_nat cfg.max_backoff) backoff then of_nat cfg.max_backoff else backoff

  unfoldable pub backoff_float : Config → Growth Real → Real → ℕ → Real
  unfolding capped_backoff
  backoff_float cfg g draw attempt =
      let backoff = capped_backoff cfg g attempt in
      if lt (of_nat 0) g.jitter_fraction
      then add backoff (mul (mul backoff g.jitter_fraction) draw)
      else backoff

  unfoldable pub calculate_backoff : Config → Growth Real → Real → ℕ → ℤ
  unfolding backoff_float
  calculate_backoff cfg g draw attempt = truncate (backoff_float cfg g draw attempt)
