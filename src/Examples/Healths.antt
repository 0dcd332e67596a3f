-- ===== src/Examples/Healths.antt =====
-- The health checker (internal/health) with thresholds 2 and 2.
use edge_cdn.Base.{◌≡◌, refl, Bool, true, false, Option, some, List, [], ◌∷◌, arith}
use edge_cdn.Base.Text.{Str, codes}
use edge_cdn.Base.Int.{pos}
use edge_cdn.Health.{Config, NodeHealth, Probe, update_node, new_checker}
use edge_cdn.Health.Streaks.{probes, outcomes, HasStreak, down_needs_streak}
use edge_cdn.Health.Recovery.{failures_mark_down}
use edge_cdn.Health.Pool.{IsSound, IsValid, registers, unregisters, checks, calls, calls-IsValid}

abbrev twice : Config
twice = record {
  interval = 5;
  timeout = 2;
  fail_threshold = 2;
  success_threshold = 2;
  on_transition = false;
}

abbrev probe_of : Bool → Probe
probe_of b = record { healthy = b; now = 9; latency = 1 }

abbrev node_in : Bool → NodeHealth
node_in up = record {
  address = codes "n";
  region = codes "us-east";
  is_healthy = up;
  last_check = 0;
  last_latency = 0;
  fail_count = 0;
  success_count = 0;
  total_checks = 0;
  total_fails = 0;
}

node_in-IsSound : (up : Bool) → IsSound twice (node_in up)
node_in-IsSound up = ground arith

abbrev fails : List Probe
fails = probe_of true ∷ probe_of false ∷ probe_of false ∷ []

abbrev passes : List Probe
passes = probe_of false ∷ probe_of true ∷ probe_of true ∷ []

goes_down : (probes twice fails (node_in true)).is_healthy ≡ false
unfolding probes update_node
goes_down = refl

comes_up : (probes twice passes (node_in false)).is_healthy ≡ true
unfolding probes update_node
comes_up = refl

down_needs_streak_example : HasStreak false 2 (outcomes fails)
down_needs_streak_example =
    down_needs_streak twice fails (node_in true) (omega arith) refl refl goes_down

failures_mark_down_example :
    (probes twice (probe_of false ∷ probe_of false ∷ []) (node_in true)).is_healthy ≡ false
failures_mark_down_example =
    failures_mark_down twice (omega arith) (omega arith) (probe_of false ∷ probe_of false ∷ [])
      (node_in true) (node_in-IsSound true) (refl, (refl, tt)) (omega arith)

abbrev all_fail : Str → Option Probe
all_fail a = some (probe_of false)

calls-IsValid_example : IsValid (
    calls
      (registers (codes "n") (codes "us-east") ∷ checks all_fail ∷ unregisters (codes "n") ∷ [])
      (new_checker (pos 0) (pos 0) (pos 2) (pos 2) true))
calls-IsValid_example =
    calls-IsValid (pos 0) (pos 0) (pos 2) (pos 2) true
      (registers (codes "n") (codes "us-east") ∷ checks all_fail ∷ unregisters (codes "n") ∷ [])
