-- ===== src/Origin/Content.antt =====
-- The latency and the content of the origin.
use edge_cdn.Base.{ℕ, ◌-◌, ◌≤◌, ◌<◌, Option, none, some, arith}
use edge_cdn.Base.Int.{ℤ, pos, negsuc}
use edge_cdn.Origin.{new_server, random_latency}

-- The result of drawing a number below a bound, if drawing succeeds.
abbrev pub IsBelow : ℕ → Option ℕ → Type 0
IsBelow n none = Unit {0}
IsBelow n (some d) = d < n

new_server_lt : (lo hi : ℤ) → (new_server lo hi).min_latency_ms < (new_server lo hi).max_latency_ms
unfolding new_server
new_server_lt lo (pos n) = ground arith
new_server_lt lo (negsuc n) = ground arith

-- Every latency of a server, made with any bounds, lies from its minimum to below its maximum, for a
-- draw below the spread and where drawing fails.
pub random_latency_bounds :
    (lo hi : ℤ) (draw : Option ℕ)
    → let s = new_server lo hi in
      IsBelow (s.max_latency_ms - s.min_latency_ms) draw
      → (s.min_latency_ms ≤ random_latency draw s) × (random_latency draw s < s.max_latency_ms)
unfolding random_latency
random_latency_bounds lo hi none h = ground (arith, new_server_lt lo hi)
random_latency_bounds lo hi (some n) h = ground (arith, new_server_lt lo hi)
