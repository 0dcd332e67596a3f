-- ===== src/Breaker/Thresholds.antt =====
-- When the breaker trips, how long it stays open, and when it closes again.
use edge_cdn.Base.{ℕ, ◌+◌, ◌≤◌, ◌<◌, ◌≡◌, refl, ◌⊎◌, true, false, List, [], ◌∷◌, arith, length, All}
use edge_cdn.Base.Int.{pos}
use edge_cdn.Breaker.{Breaker, closed, open_state, half_open, begin, complete, execute, state_of}
use edge_cdn.Breaker.Machine.{Event, begins, completes, reads, resets, step, run}

abbrev pub failing : List ℕ → List Event
failing [] = []
failing (t ∷ ts) = completes false t ∷ failing ts

fail_once :
    (b : Breaker) (t : ℕ)
    → b.state ≡ closed
    → ((b.failures + 1 < b.cfg.fail_threshold)
        × ((step b (completes false t)).state ≡ closed)
        × ((step b (completes false t)).failures ≡ b.failures + 1)
        × ((step b (completes false t)).trips_total ≡ b.trips_total)
        × ((step b (completes false t)).cfg ≡ b.cfg))
      ⊎ ((b.cfg.fail_threshold ≤ b.failures + 1)
          × ((step b (completes false t)).state ≡ open_state)
          × ((step b (completes false t)).trips_total ≡ b.trips_total + 1))
unfolding step complete
fail_once b t c = ground arith

-- A closed breaker stays closed and counts while its consecutive failures stay below the
-- threshold.
pub failing_stays :
    (b : Breaker) (ts : List ℕ)
    → b.state ≡ closed
    → b.failures + length ts < b.cfg.fail_threshold
    → ((run b (failing ts)).state ≡ closed)
      × ((run b (failing ts)).failures ≡ b.failures + length ts)
      × ((run b (failing ts)).trips_total ≡ b.trips_total)
      × ((run b (failing ts)).cfg ≡ b.cfg)
unfolding run
failing_stays b [] c h = ground arith
failing_stays b (t ∷ ts) c h =
    ground (arith, fail_once b t c, failing_stays (step b (completes false t)) ts)

-- The events of a period in which nobody resets the breaker and the clock stays at most `limit`.
abbrev pub Before : ℕ → Event → Type 0
Before limit (begins t) = t ≤ limit
Before limit (completes ok t) = t ≤ limit
Before limit (reads t) = t ≤ limit
Before limit (resets t) = ⊥

IsOpenAt : Breaker → Breaker → Type 0
IsOpenAt b₀ b =
    (b.state ≡ open_state) × (b.last_state_change ≡ b₀.last_state_change) × (b.cfg ≡ b₀.cfg)

step-IsOpenAt :
    (b₀ b : Breaker) (e : Event)
    → IsOpenAt b₀ b
    → Before (b₀.last_state_change + b₀.cfg.open_timeout) e
    → IsOpenAt b₀ (step b e)
unfolding IsOpenAt step begin complete state_of
step-IsOpenAt b₀ b (begins t) o h = ground arith
step-IsOpenAt b₀ b (completes true t) o h = ground arith
step-IsOpenAt b₀ b (completes false t) o h = ground arith
step-IsOpenAt b₀ b (reads t) o h = ground arith
step-IsOpenAt b₀ b (resets t) o h = absurd h

run-IsOpenAt :
    (b₀ b : Breaker) (es : List Event)
    → IsOpenAt b₀ b
    → All (Before (b₀.last_state_change + b₀.cfg.open_timeout)) es
    → IsOpenAt b₀ (run b es)
unfolding run
run-IsOpenAt b₀ b [] o h = o
run-IsOpenAt b₀ b (e ∷ es) o h = run-IsOpenAt b₀ (step b e) es (step-IsOpenAt b₀ b e o h.0) h.1

refused :
    (b₀ b : Breaker) (now : ℕ)
    → IsOpenAt b₀ b
    → now ≤ b₀.last_state_change + b₀.cfg.open_timeout
    → ((begin now b).1 ≡ false) × ((begin now b).0.state ≡ open_state)
unfolding IsOpenAt begin
refused b₀ b now o h = ground arith

-- An open breaker refuses every call until its timeout is over, whatever calls began, returned or
-- read its state in the meantime, unless it was reset.
pub open_refuses :
    (b : Breaker) (es : List Event) (now : ℕ)
    → b.state ≡ open_state
    → All (Before (b.last_state_change + b.cfg.open_timeout)) es
    → now ≤ b.last_state_change + b.cfg.open_timeout
    → ((begin now (run b es)).1 ≡ false) × ((begin now (run b es)).0.state ≡ open_state)
unfolding IsOpenAt
open_refuses b es now o h late =
    refused b (run b es) now (run-IsOpenAt b b es (o, refl, refl) h) late

-- Successful calls, one after the other, each with its begin and its end.
pub succeed : List (ℕ × ℕ) → Breaker → Breaker
succeed [] b = b
succeed ((t, t') ∷ ts) b = succeed ts (execute t true t' b).0

probe_once :
    (b : Breaker) (t t' : ℕ)
    → b.state ≡ half_open
    → b.half_open_in_flight ≡ pos 0
    → 0 < b.cfg.half_open_max_concurrent
    → let b' = (execute t true t' b).0 in
      (b'.half_open_in_flight ≡ pos 0)
      × (((b.successes + 1 < b.cfg.success_threshold)
            × (b'.state ≡ half_open)
            × (b'.successes ≡ b.successes + 1)
            × (b'.cfg ≡ b.cfg))
          ⊎ ((b.cfg.success_threshold ≤ b.successes + 1) × (b'.state ≡ closed) × (b'.failures ≡ 0)))
unfolding execute
probe_once b t t' h z m = ground arith

-- An idle half-open breaker that admits some probe stays half-open and idle, and counts, while its consecutive successes
-- stay below the threshold.
pub succeed_stays :
    (b : Breaker) (ts : List (ℕ × ℕ))
    → b.state ≡ half_open
    → b.half_open_in_flight ≡ pos 0
    → 0 < b.cfg.half_open_max_concurrent
    → b.successes + length ts < b.cfg.success_threshold
    → ((succeed ts b).state ≡ half_open)
      × ((succeed ts b).successes ≡ b.successes + length ts)
      × ((succeed ts b).half_open_in_flight ≡ pos 0)
unfolding succeed
succeed_stays b [] h z m s = ground arith
succeed_stays b ((t, t') ∷ ts) h z m s =
    ground (arith, probe_once b t t' h z m, succeed_stays (execute t true t' b).0 ts)

-- An idle half-open breaker that admits some probe and has fewer successes than its threshold
-- closes, without failures, at the consecutive success that reaches its threshold.
pub succeed_closes :
    (b : Breaker) (ts : List (ℕ × ℕ))
    → b.state ≡ half_open
    → b.half_open_in_flight ≡ pos 0
    → 0 < b.cfg.half_open_max_concurrent
    → b.successes < b.cfg.success_threshold
    → b.successes + length ts ≡ b.cfg.success_threshold
    → ((succeed ts b).state ≡ closed) × ((succeed ts b).failures ≡ 0)
unfolding succeed
succeed_closes b [] h z m s e = absurd (omega arith)
succeed_closes b ((t, t') ∷ []) h z m s e = ground (arith, probe_once b t t' h z m)
succeed_closes b ((t, t') ∷ u ∷ ts) h z m s e =
    ground (arith, probe_once b t t' h z m, succeed_closes (execute t true t' b).0 (u ∷ ts))
