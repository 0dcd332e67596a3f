-- ===== src/Health/Recovery.antt =====
-- How many probes it takes to mark a node down, and to mark it up again.
use edge_cdn.Base.{◌+◌, ◌≤◌, ◌<◌, ◌≡◌, Bool, true, false, List, [], ◌∷◌, arith, length}
use edge_cdn.Health.{Config, NodeHealth, Probe, update_node}
use edge_cdn.Health.Pool.{IsSound, update_node-IsSound}
use edge_cdn.Health.Streaks.{probes}

-- Probes with one outcome.
abbrev pub AllAre : Bool → List Probe → Type 0
AllAre b [] = Unit {0}
AllAre b (p ∷ ps) = (p.healthy ≡ b) × AllAre b ps

module _ (cfg : Config) (hf : 0 < cfg.fail_threshold) (hs : 0 < cfg.success_threshold) where
  fail_step :
      (p : Probe) (n : NodeHealth)
      → p.healthy ≡ false
      → ((update_node cfg p n).0.fail_count ≡ n.fail_count + 1)
        × (n.is_healthy ≡ false → (update_node cfg p n).0.is_healthy ≡ false)
  unfolding update_node
  fail_step p n e = ground arith

  pass_step :
      (p : Probe) (n : NodeHealth)
      → p.healthy ≡ true
      → ((update_node cfg p n).0.success_count ≡ n.success_count + 1)
        × (n.is_healthy ≡ true → (update_node cfg p n).0.is_healthy ≡ true)
  unfolding update_node
  pass_step p n e = ground arith

  fails_down :
      (ps : List Probe) (n : NodeHealth)
      → IsSound cfg n
      → AllAre false ps
      → cfg.fail_threshold ≤ n.fail_count + length ps
      → (probes cfg ps n).is_healthy ≡ false
  unfolding probes
  fails_down [] n v a h = ground (arith, v.up)
  fails_down (p ∷ ps) n v a h =
      fails_down ps (update_node cfg p n).0 (update_node-IsSound cfg p n hf hs v) a.1
        (omega (arith, fail_step p n a.0))

  passes_up :
      (ps : List Probe) (n : NodeHealth)
      → IsSound cfg n
      → AllAre true ps
      → cfg.success_threshold ≤ n.success_count + length ps
      → (probes cfg ps n).is_healthy ≡ true
  unfolding probes
  passes_up [] n v a h = ground (arith, v.down)
  passes_up (p ∷ ps) n v a h =
      passes_up ps (update_node cfg p n).0 (update_node-IsSound cfg p n hf hs v) a.1
        (omega (arith, pass_step p n a.0))

  -- With positive thresholds, `fail_threshold` or more failures in a row mark any sound node down.
  pub failures_mark_down :
      (ps : List Probe) (n : NodeHealth)
      → IsSound cfg n
      → AllAre false ps
      → cfg.fail_threshold ≤ length ps
      → (probes cfg ps n).is_healthy ≡ false
  failures_mark_down ps n v a h = fails_down ps n v a (omega arith)

  -- With positive thresholds, `success_threshold` or more passes in a row mark any sound node up.
  pub passes_mark_up :
      (ps : List Probe) (n : NodeHealth)
      → IsSound cfg n
      → AllAre true ps
      → cfg.success_threshold ≤ length ps
      → (probes cfg ps n).is_healthy ≡ true
  passes_mark_up ps n v a h = passes_up ps n v a (omega arith)
