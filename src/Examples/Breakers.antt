-- ===== src/Examples/Breakers.antt =====
-- The circuit breaker (internal/circuitbreaker) with a threshold of 2 failures and 2 successes.
use edge_cdn.Base.{ℕ, ◌≡◌, refl, true, false, [], ◌∷◌, arith}
use Prim.Native.Nat.{min}
use edge_cdn.Base.Text.{codes}
use edge_cdn.Base.Int.{pos}
use edge_cdn.Breaker.{
  Breaker, State, closed, open_state, state_code, default_config, new_breaker, begin, complete,
  state_of,
}
use edge_cdn.Base.{List, ◌+◌}
use edge_cdn.Breaker.Graph.{Walk, run-Walk}
use edge_cdn.Breaker.Machine.{
  Event, step, IsValid, begins, completes, reads, resets, run, run-IsValid,
}
use edge_cdn.Breaker.Thresholds.{open_refuses}
use edge_cdn.Breaker.Probes.{admitted, stale_success_overadmits}

abbrev at : State → ℕ → Breaker
at s since = record {
  state = s;
  failures = 0;
  successes = 0;
  last_state_change = since;
  cfg = record {
    fail_threshold = 2;
    success_threshold = 2;
    open_timeout = 100;
    half_open_max_concurrent = 1;
    name = codes "origin";
  };
  half_open_in_flight = pos 0;
  state_gauge = state_code s;
  trips_total = 0;
  success_total = 0;
  failure_total = 0;
  rejected_total = 0;
}

run-IsValid_example : IsValid (
    run
      (new_breaker (default_config (codes "origin")) 5)
      (begins 6 ∷ completes false 7 ∷ reads 8 ∷ resets 9 ∷ []))
run-IsValid_example =
    run-IsValid (default_config (codes "origin")) 5
      (begins 6 ∷ completes false 7 ∷ reads 8 ∷ resets 9 ∷ [])

open_refuses_example :
    ((begin 90 (run (at open_state 0) (begins 10 ∷ completes true 20 ∷ reads 30 ∷ []))).1 ≡ false)
    × ((begin 90 (run (at open_state 0) (begins 10 ∷ completes true 20 ∷ reads 30 ∷ []))).0.state
        ≡ open_state)
open_refuses_example =
    open_refuses (at open_state 0) (begins 10 ∷ completes true 20 ∷ reads 30 ∷ []) 90 refl
      (omega arith) (omega arith)

stale_success_overadmits_example :
    admitted 3 120 (complete true 110 (state_of 105 (at open_state 0)).0) ≡ min 3 2
stale_success_overadmits_example =
    stale_success_overadmits 3 (at open_state 0) 105 110 120 refl (omega arith) (omega arith)

abbrev some_events : List Event
some_events = completes false 1 ∷ completes false 2 ∷ begins 200 ∷ completes false 201 ∷ []

run-Walk_example :
    let b = run (at closed 0) some_events in
    (k : ℕ) × Walk some_events closed b.state k × (b.trips_total ≡ 0 + k)
run-Walk_example = run-Walk (at closed 0) some_events

-- The way has two trips.
two_trips : (run (at closed 0) some_events).trips_total ≡ 2
unfolding run step begin complete
two_trips = refl
