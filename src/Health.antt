-- ===== src/Health.antt =====
-- internal/health/health.go: the health checker. The HTTP probe and the clock are outside: a probe
-- enters as its outcome, with the time after it and its latency. `OnTransition` enters as a flag
-- that says whether it is set, and its calls are the second result. The latency histogram and the
-- log are left out.
pub mod Streaks
pub mod Recovery
pub mod Pool
pub mod Target
pub mod Report
pub mod Loop
use edge_cdn.Base.{
  ℕ, suc, ◌+◌, Bool, true, false, ◌&&◌, not, Option, none, some, List, [], ◌∷◌, ◌++◌, ltb, leb,
  ◌==◌, if◌then◌else◌, ite, length,
}
use edge_cdn.Base.Text.{Str, str_dec, codes}
use edge_cdn.Base.Int.{ℤ, positive_or}
use edge_cdn.Base.Maps.{lookup, insert, delete}
use edge_cdn.Base.Bytes.{trim_prefix, index, take_bytes, to_lower, contains}

-- The configuration as `New` leaves it.
pub record Config : Type 0 where
  pub interval : ℕ
  pub timeout : ℕ
  pub fail_threshold : ℕ
  pub success_threshold : ℕ
  pub on_transition : Bool

-- A `last_check` of 0 is the zero time, "never".
pub record NodeHealth : Type 0 where
  pub address : Str
  pub region : Str
  pub is_healthy : Bool
  pub last_check : ℕ
  pub last_latency : ℕ
  pub fail_count : ℕ
  pub success_count : ℕ
  pub total_checks : ℕ
  pub total_fails : ℕ

-- `node_status` is the gauge; its labels are the node and its region, and a node has one region,
-- so the node is its key.
pub record Checker : Type 0 where
  pub nodes : List (Str × NodeHealth)
  pub config : Config
  pub node_status : List (Str × ℕ)
  pub failover_total : ℕ

-- A call of `OnTransition`: the address, the region and the new health.
pub record Transition : Type 0 where
  pub address : Str
  pub region : Str
  pub healthy : Bool

unfoldable pub new_checker : ℤ → ℤ → ℤ → ℤ → Bool → Checker
new_checker interval timeout fail_threshold success_threshold on_transition = record {
  nodes = [];
  config = record {
    interval = positive_or 5_000_000_000 interval;
    timeout = positive_or 2_000_000_000 timeout;
    fail_threshold = positive_or 3 fail_threshold;
    success_threshold = positive_or 2 success_threshold;
    on_transition = on_transition;
  };
  node_status = [];
  failover_total = 0;
}

unfoldable pub fresh_node : Str → Str → NodeHealth
fresh_node address region = record {
  address = address;
  region = region;
  is_healthy = true;
  last_check = 0;
  last_latency = 0;
  fail_count = 0;
  success_count = 0;
  total_checks = 0;
  total_fails = 0;
}

unfoldable pub register_node : Str → Str → Checker → Checker
unfolding fresh_node
register_node address region c = elim (lookup str_dec address c.nodes) [
  | some _ ↦ c
  | none ↦ record c {
    nodes = insert str_dec address (fresh_node address region) c.nodes;
    node_status = insert str_dec address 1 c.node_status;
  }
]

unfoldable pub unregister_node : Str → Checker → Checker
unregister_node address c = elim (lookup str_dec address c.nodes) [
  | some _ ↦ record c {
    nodes = delete str_dec address c.nodes;
    node_status = delete str_dec address c.node_status;
  }
  | none ↦ c
]

unfoldable pub is_healthy_node : Str → Checker → Bool
is_healthy_node address c = elim (lookup str_dec address c.nodes) [
  | some n ↦ n.is_healthy
  | none ↦ false
]

-- `GetNodeHealth`: `none` is its `false`.
unfoldable pub get_node_health : Str → Checker → Option NodeHealth
get_node_health address c = lookup str_dec address c.nodes

-- `HealthyNodes`, over one iteration of the map.
unfoldable pub healthy_in : List (Str × NodeHealth) → List Str
healthy_in [] = []
healthy_in ((a, n) ∷ m) = let rest = healthy_in m in if n.is_healthy then a ∷ rest else rest

unfoldable pub healthy_nodes : Checker → List Str
unfolding healthy_in
healthy_nodes c = healthy_in c.nodes

-- The outcome of a probe, the time at its end, and its latency.
pub record Probe : Type 0 where
  pub healthy : Bool
  pub now : ℕ
  pub latency : ℕ

-- What became of the HTTP request: it could not be made or failed, or it has a status.
pub data Reply : Type 0 where
  failed : Reply
  status : ℕ → Reply

unfoldable pub probe_result : Reply → Bool
probe_result failed = false
probe_result (status code) = code == 200

-- The node after a probe, and the new health where it changed.
unfoldable pub update_node : Config → Probe → NodeHealth → NodeHealth × Option Bool
update_node cfg p node =
    let checked = record node {
      last_check = p.now;
      last_latency = p.latency;
      total_checks = node.total_checks + 1;
    } in
    if p.healthy
    then (if not node.is_healthy && leb cfg.success_threshold (node.success_count + 1)
        then (
          record checked {
            fail_count = 0;
            success_count = node.success_count + 1;
            is_healthy = true;
          },
          some true,
        )
        else (record checked { fail_count = 0; success_count = node.success_count + 1 }, none))
    else (if node.is_healthy && leb cfg.fail_threshold (node.fail_count + 1)
        then (
          record checked {
            success_count = 0;
            fail_count = node.fail_count + 1;
            total_fails = node.total_fails + 1;
            is_healthy = false;
          },
          some false,
        )
        else (
          record checked {
            success_count = 0;
            fail_count = node.fail_count + 1;
            total_fails = node.total_fails + 1;
          },
          none,
        ))

-- What a change of health does to the checker, and the callback.
unfoldable pub report : NodeHealth → Option Bool → Checker → Checker × List Transition
report node none c = (c, [])
report node (some up) c = (
  record c {
    node_status = insert str_dec node.address (if up then 1 else 0) c.node_status;
    failover_total = if up then c.failover_total else c.failover_total + 1;
  },
  if c.config.on_transition
      then record { address = node.address; region = node.region; healthy = up } ∷ []
      else [],
)

-- `checkNode` after its probe.
unfoldable pub check_node : Str → Probe → Checker → Checker × List Transition
check_node address p c = elim (lookup str_dec address c.nodes) [
  | none ↦ (c, [])
  | some node ↦
      let (node', change) = update_node c.config p node in
      report node' change (record c { nodes = insert str_dec address node' c.nodes })
]

-- The loop of `checkAll` over the addresses that it copied; a probe that is missing stands for a
-- context that was cancelled before it.
unfoldable pub check_each : List Str → (Str → Option Probe) → Checker → Checker × List Transition
check_each [] probe c = (c, [])
check_each (a ∷ as_) probe c = elim (probe a) [
  | none ↦ (c, [])
  | some p ↦
      let (c', now) = check_node a p c in
      let (c'', later) = check_each as_ probe c' in (c'', now ++ later)
]

addresses : List (Str × NodeHealth) → List Str
addresses [] = []
addresses ((a, n) ∷ m) = a ∷ addresses m

unfoldable pub check_all : (Str → Option Probe) → Checker → Checker × List Transition
unfolding addresses check_each
check_all probe c = check_each (addresses c.nodes) probe c

-- The first of the known regions that the name contains.
unfoldable pub infer_region : Str → Str
infer_region node_name =
    let lower = to_lower node_name in
    if contains (codes "us-east") lower
    then codes "us-east"
    else if contains (codes "us-west") lower
    then codes "us-west"
    else if contains (codes "eu-west") lower
    then codes "eu-west"
    else if contains (codes "eu-central") lower
    then codes "eu-central"
    else if contains (codes "ap-south") lower
    then codes "ap-south"
    else codes "default"

-- `addr[:idx]` before the first `/`, unless it stands at the front.
unfoldable pub before_slash : Str → Str
before_slash addr = elim (index b'/' addr) [
  | none ↦ addr
  | some i ↦ if ltb 0 i then take_bytes i addr else addr
]

-- The address in a health URL: what stands before the first `/`, past the scheme.
unfoldable pub target_address : Str → Str
target_address url =
    before_slash (trim_prefix (codes "https://") (trim_prefix (codes "http://") url))

unfoldable pub add_target : Str → Str → Checker → Checker
add_target name health_url c = register_node (target_address health_url) (infer_region name) c
