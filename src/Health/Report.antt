-- ===== src/Health/Report.antt =====
-- internal/health/health.go, `GetAllHealth` and the page of `Handler`: what it encodes as JSON. The
-- texts of a time and of a duration are Go's, and parameters.
use edge_cdn.Base.{ℕ, ◌+◌, ◌≤◌, ◌≡◌, refl, Bool, List, [], ◌∷◌, ◌==◌, if◌then◌else◌, length, arith}
use edge_cdn.Base.Text.{Str, codes}
use edge_cdn.Health.{NodeHealth, Checker, healthy_in, healthy_nodes}

-- `GetAllHealth`, a copy of the map.
unfoldable pub get_all_health : Checker → List (Str × NodeHealth)
get_all_health c = c.nodes

-- The loop that counts the healthy nodes.
unfoldable pub count_healthy : List (Str × NodeHealth) → ℕ
count_healthy [] = 0
count_healthy ((a, nh) ∷ m) = (if nh.is_healthy then 1 else 0) + count_healthy m

pub record NodeInfo : Type 0 where
  pub address : Str
  pub region : Str
  pub healthy : Bool
  pub last_check : Str
  pub last_latency : Str
  pub fail_count : ℕ

pub record Report : Type 0 where
  pub total : ℕ
  pub healthy : ℕ
  pub nodes : List NodeInfo

module _ (time_text duration_text : ℕ → Str) where
  node_info : NodeHealth → NodeInfo
  node_info nh = record {
    address = nh.address;
    region = nh.region;
    healthy = nh.is_healthy;
    last_check = if nh.last_check == 0 then codes "never" else time_text nh.last_check;
    last_latency = duration_text nh.last_latency;
    fail_count = nh.fail_count;
  }

  node_infos : List (Str × NodeHealth) → List NodeInfo
  unfolding node_info
  node_infos [] = []
  node_infos ((a, nh) ∷ m) = node_info nh ∷ node_infos m

  unfoldable pub report : Checker → Report
  unfolding node_infos
  report c =
      let nodes = node_infos (get_all_health c) in
      record { total = length nodes; healthy = count_healthy (get_all_health c); nodes = nodes }

  -- `StatusHandler`
  unfoldable pub status_report : Checker → Report
  unfolding report
  status_report c = report c

  length-node_infos : (m : List (Str × NodeHealth)) → length (node_infos m) ≡ length m
  unfolding node_infos
  length-node_infos [] = refl
  length-node_infos ((a, nh) ∷ m) = omega (arith, length-node_infos m)

  pub report-total : (c : Checker) → (report c).total ≡ length c.nodes
  unfolding report get_all_health
  report-total c = length-node_infos c.nodes

pub count_healthy-length : (m : List (Str × NodeHealth)) → count_healthy m ≡ length (healthy_in m)
unfolding count_healthy healthy_in
count_healthy-length [] = refl
count_healthy-length ((a, nh) ∷ m) = ground (arith, count_healthy-length m)

pub report-healthy :
    (time_text duration_text : ℕ → Str) (c : Checker)
    → (report time_text duration_text c).healthy ≡ length (healthy_nodes c)
unfolding report get_all_health healthy_nodes
report-healthy time_text duration_text c = count_healthy-length c.nodes

healthy_in-le : (m : List (Str × NodeHealth)) → length (healthy_in m) ≤ length m
unfolding healthy_in
healthy_in-le [] = omega arith
healthy_in-le ((a, nh) ∷ m) = ground (arith, healthy_in-le m)

pub healthy_nodes-le : (c : Checker) → length (healthy_nodes c) ≤ length c.nodes
unfolding healthy_nodes
healthy_nodes-le c = healthy_in-le c.nodes
