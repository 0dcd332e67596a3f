-- ===== src/Breaker/Machine.antt =====
-- The breaker as a state machine: its invariant, its transitions, and its three thresholds.
use edge_cdn.Base.{ℕ, ◌<◌, ◌≡◌, ◌⊎◌, Bool, true, false, List, [], ◌∷◌, arith}
use edge_cdn.Base.Int.{pos, positive_or_pos}
use edge_cdn.Breaker.{
  Breaker, closed, half_open, state_code, Config, new_breaker, begin, complete, state_of, reset,
}

pub record IsValid (b : Breaker) : Type 0 where
  pub fails_pos : 0 < b.cfg.fail_threshold
  pub succs_pos : 0 < b.cfg.success_threshold
  pub limit_pos : 0 < b.cfg.half_open_max_concurrent
  pub fails_below : b.failures < b.cfg.fail_threshold
  pub succs_below : b.successes < b.cfg.success_threshold
  pub fails_closed : 0 < b.failures → b.state ≡ closed
  pub succs_half_open : 0 < b.successes → b.state ≡ half_open
  pub gauge : b.state_gauge ≡ state_code b.state
  pub idle : (b.state ≡ half_open) ⊎ (b.half_open_in_flight ≡ pos 0)

-- What the code does between two waits.
pub data Event : Type 0 where
  begins : ℕ → Event
  completes : Bool → ℕ → Event
  reads : ℕ → Event
  resets : ℕ → Event

unfoldable pub step : Breaker → Event → Breaker
step b (begins now) = (begin now b).0
step b (completes ok now) = complete ok now b
step b (reads now) = (state_of now b).0
step b (resets now) = reset now b

unfoldable pub run : Breaker → List Event → Breaker
unfolding step
run b [] = b
run b (e ∷ es) = run (step b e) es

pub new_breaker-IsValid : (cfg : Config) (now : ℕ) → IsValid (new_breaker cfg now)
unfolding new_breaker
new_breaker-IsValid cfg now = ground (
  arith,
  positive_or_pos 5 cfg.fail_threshold,
  positive_or_pos 2 cfg.success_threshold,
  positive_or_pos 1 cfg.half_open_max_concurrent,
)

pub step-IsValid : (b : Breaker) (e : Event) → IsValid b → IsValid (step b e)
unfolding step begin complete state_of reset
step-IsValid b (begins now) v = ground arith
step-IsValid b (completes true now) v = ground arith
step-IsValid b (completes false now) v = ground arith
step-IsValid b (reads now) v = ground arith
step-IsValid b (resets now) v = ground arith

run-IsValid_from : (b : Breaker) (es : List Event) → IsValid b → IsValid (run b es)
unfolding run
run-IsValid_from b [] v = v
run-IsValid_from b (e ∷ es) v = run-IsValid_from (step b e) es (step-IsValid b e v)

-- A breaker made by `New` from any configuration stays valid under any interleaving of the steps
-- of its calls: the counts stay below their thresholds, failures are counted only when closed and
-- successes only when half-open, and the gauge shows the state.
pub run-IsValid :
    (cfg : Config) (now : ℕ) (es : List Event) → IsValid (run (new_breaker cfg now) es)
run-IsValid cfg now es = run-IsValid_from (new_breaker cfg now) es (new_breaker-IsValid cfg now)
