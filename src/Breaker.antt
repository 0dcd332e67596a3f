-- ===== src/Breaker.antt =====
-- internal/circuitbreaker/circuitbreaker.go: the circuit breaker. `Execute` runs the call outside
-- the lock, so it is two steps, `begin` before the call and `complete` after it; other calls may
-- take steps between them. A time is a number of nanoseconds on the monotonic clock, read once
-- for each step. The two success thresholds and the counters count events, so they stay far below
-- 2^63; only `half_open_in_flight` is decremented, and it is a signed integer.
pub mod Machine
pub mod Thresholds
pub mod Probes
pub mod Graph
use edge_cdn.Base.{
  ℕ, suc, ◌+◌, ◌-◌, Bool, true, false, Option, none, some, ltb, leb, if◌then◌else◌, length,
}
use edge_cdn.Base.Text.{Str, codes}
use edge_cdn.Base.Int.{ℤ, pos, negsuc, incr, decr, positive_or}

pub data State : Type 0 where
  closed open_state half_open : State

-- `State.String`; the `default` case is unreachable for the three states.
unfoldable pub state_string : State → Str
state_string closed = codes "closed"
state_string open_state = codes "open"
state_string half_open = codes "half-open"

-- `float64(newState)`, the value of the gauge.
abbrev pub state_code : State → ℕ
state_code closed = 0
state_code open_state = 1
state_code half_open = 2

-- The configuration as it is passed in: any integers.
pub record Config : Type 0 where
  pub fail_threshold : ℤ
  pub success_threshold : ℤ
  pub open_timeout : ℤ
  pub half_open_max_concurrent : ℤ
  pub name : Str

-- The configuration as `New` leaves it.
pub record Settings : Type 0 where
  pub fail_threshold : ℕ
  pub success_threshold : ℕ
  pub open_timeout : ℕ
  pub half_open_max_concurrent : ℕ
  pub name : Str

abbrev pub second : ℕ
second = 1_000_000_000

unfoldable pub default_config : Str → Config
default_config name = record {
  fail_threshold = pos 5;
  success_threshold = pos 2;
  open_timeout = pos 30_000_000_000;
  half_open_max_concurrent = pos 1;
  name = name;
}

-- The last five fields are the Prometheus gauge and counters.
pub record Breaker : Type 0 where
  pub state : State
  pub failures : ℕ
  pub successes : ℕ
  pub last_state_change : ℕ
  pub cfg : Settings
  pub half_open_in_flight : ℤ
  pub state_gauge : ℕ
  pub trips_total : ℕ
  pub success_total : ℕ
  pub failure_total : ℕ
  pub rejected_total : ℕ

abbrev name_or_default : Str → Str
name_or_default name = if leb (length name) 0 then codes "default" else name

unfoldable pub new_breaker : Config → ℕ → Breaker
new_breaker cfg now = record {
  state = closed;
  failures = 0;
  successes = 0;
  last_state_change = now;
  cfg = record {
    fail_threshold = positive_or 5 cfg.fail_threshold;
    success_threshold = positive_or 2 cfg.success_threshold;
    open_timeout = positive_or 30_000_000_000 cfg.open_timeout;
    half_open_max_concurrent = positive_or 1 cfg.half_open_max_concurrent;
    name = name_or_default cfg.name;
  };
  half_open_in_flight = pos 0;
  state_gauge = 0;
  trips_total = 0;
  success_total = 0;
  failure_total = 0;
  rejected_total = 0;
}

unfoldable pub set_state : State → ℕ → Breaker → Breaker
set_state new_state now b = record b {
  state = new_state;
  last_state_change = now;
  failures = 0;
  successes = 0;
  half_open_in_flight = pos 0;
  state_gauge = state_code new_state;
}

-- `time.Since(b.lastStateChange) > b.cfg.OpenTimeout`; the clock does not run back.
abbrev pub timed_out : ℕ → Breaker → Bool
timed_out now b = ltb b.cfg.open_timeout (now - b.last_state_change)

-- `b.halfOpenInFlight >= b.cfg.HalfOpenMaxConcurrent`
abbrev pub at_limit : ℤ → ℕ → Bool
at_limit (pos n) m = leb m n
at_limit (negsuc n) m = false

reject : Breaker → Breaker × Bool
reject b = (record b { rejected_total = b.rejected_total + 1 }, false)

-- `if b.state == StateHalfOpen { b.halfOpenInFlight++ }`, and the call goes ahead.
admit : State → Breaker → Breaker × Bool
admit half_open b = (record b { half_open_in_flight = incr b.half_open_in_flight }, true)
admit _ b = (b, true)

begin_in : State → ℕ → Breaker → Breaker × Bool
unfolding reject admit set_state
begin_in closed now b = admit b.state b
begin_in open_state now b =
    if timed_out now b then admit half_open (set_state half_open now b) else reject b
begin_in half_open now b =
    if at_limit b.half_open_in_flight b.cfg.half_open_max_concurrent
    then reject b
    else admit b.state b

-- `Execute` up to the call; `false` is `ErrCircuitOpen`.
unfoldable pub begin : ℕ → Breaker → Breaker × Bool
unfolding begin_in
begin now b = begin_in b.state now b

success_in : State → ℕ → Breaker → Breaker
unfolding set_state
success_in closed now b = record b { failures = 0 }
success_in open_state now b = b
success_in half_open now b =
    let b' = record b { successes = b.successes + 1 } in
    if leb b.cfg.success_threshold (b.successes + 1) then set_state closed now b' else b'

unfoldable pub on_success : ℕ → Breaker → Breaker
unfolding success_in
on_success now b = success_in b.state now (record b { success_total = b.success_total + 1 })

trip : ℕ → Breaker → Breaker
unfolding set_state
trip now b = record (set_state open_state now b) { trips_total = b.trips_total + 1 }

failure_in : State → ℕ → Breaker → Breaker
unfolding trip
failure_in closed now b =
    let b' = record b { failures = b.failures + 1 } in
    if leb b.cfg.fail_threshold (b.failures + 1) then trip now b' else b'
failure_in open_state now b = b
failure_in half_open now b = trip now b

unfoldable pub on_failure : ℕ → Breaker → Breaker
unfolding failure_in
on_failure now b = failure_in b.state now (record b { failure_total = b.failure_total + 1 })

release_slot : State → Breaker → Breaker
release_slot half_open b = record b { half_open_in_flight = decr b.half_open_in_flight }
release_slot _ b = b

-- `Execute` after the call: `true` where it returned no error.
unfoldable pub complete : Bool → ℕ → Breaker → Breaker
unfolding release_slot on_success on_failure
complete true now b = on_success now (release_slot b.state b)
complete false now b = on_failure now (release_slot b.state b)

-- `Execute` with nothing between its two halves: the result of the call, or `none` where it was
-- not made.
unfoldable pub execute : ℕ → Bool → ℕ → Breaker → Breaker × Option Bool
unfolding begin complete
execute before ok after b =
    let (b', admitted) = begin before b in
    if admitted then (complete ok after b', some ok) else (b', none)

read_state : State → ℕ → Breaker → Breaker × State
unfolding set_state
read_state open_state now b =
    if timed_out now b then (set_state half_open now b, half_open) else (b, open_state)
read_state closed now b = (b, closed)
read_state half_open now b = (b, half_open)

-- `State()`, which moves an open breaker on once its timeout is over.
unfoldable pub state_of : ℕ → Breaker → Breaker × State
unfolding read_state
state_of now b = read_state b.state now b

unfoldable pub reset : ℕ → Breaker → Breaker
unfolding set_state
reset now b = set_state closed now b
