-- ===== src/Gateway/Pages.antt =====
-- internal/gateway/gateway.go: the routes of `Handler` and the pages that they lead to, as what the
-- handlers encode as JSON. A path is one that the mux does not clean up; `/metrics` is the page of the
-- Prometheus library.
use edge_cdn.Base.{
  ℕ, ◌<◌, ◌≡◌, refl, ◌⊎◌, inl, inr, Option, List, ltb, leb, if◌then◌else◌, length, arith,
  Bool-cases,
}
use edge_cdn.Base.Text.{Str, codes}
use edge_cdn.Base.Floats.{Float}
use edge_cdn.Health.{Checker, healthy_nodes}
use edge_cdn.Health.Report.{
  Report, get_all_health, count_healthy, report, report-total, report-healthy, healthy_nodes-le,
  count_healthy-length,
}
use edge_cdn.Region.{Region, get_all_regions}
use edge_cdn.Gateway.{Gateway, Request, Answer, is_same, health_status, handle_proxy}

pub data Route : Type 0 where
  health_route nodes_route regions_route metrics_route stats_route proxy_route : Route

-- The patterns of the mux: all but `/` are whole paths.
unfoldable pub route : Str → Route
route path =
    if is_same path (codes "/health")
    then health_route
    else if is_same path (codes "/health/nodes")
    then nodes_route
    else if is_same path (codes "/regions")
    then regions_route
    else if is_same path (codes "/metrics")
    then metrics_route
    else if is_same path (codes "/stats")
    then stats_route
    else proxy_route

pub record HealthPage : Type 0 where
  pub http_status : ℕ
  pub status : Str
  pub node : Str
  pub role : Str
  pub healthy_nodes : ℕ
  pub total_nodes : ℕ
  pub timestamp : Str

pub record RegionsPage (Real : Type 0) : Type 0 where
  pub regions : List (Region Real)
  pub total : ℕ

pub record StatsPage (Real : Type 0) : Type 0 where
  pub gateway : Str
  pub total_requests : ℕ
  pub healthy_nodes : ℕ
  pub total_nodes : ℕ
  pub regions : List (Region Real)

-- What a request is answered with.
pub data Page (Real : Type 0) : Type 0 where
  health_page : HealthPage → Page Real
  nodes_page : Report → Page Real
  regions_page : RegionsPage Real → Page Real
  metrics_page : Page Real
  stats_page : StatsPage Real → Page Real
  proxied_page : Answer → Page Real

module _ {Real : Type 0} where
  unfoldable pub handle_health : Str → Gateway Real → HealthPage
  handle_health timestamp gw =
      let (http_status, status) = health_status gw.health_checker in
      record {
        http_status = http_status;
        status = status;
        node = gw.node_name;
        role = codes "gateway";
        healthy_nodes = length (healthy_nodes gw.health_checker);
        total_nodes = length (get_all_health gw.health_checker);
        timestamp = timestamp;
      }

  unfoldable pub handle_regions : Gateway Real → RegionsPage Real
  handle_regions gw =
      let regions = get_all_regions gw.region_router in
      record { regions = regions; total = length regions }

  unfoldable pub handle_stats : Gateway Real → StatsPage Real
  handle_stats gw =
      let all_health = get_all_health gw.health_checker in
      record {
        gateway = gw.node_name;
        total_requests = gw.total_requests;
        healthy_nodes = count_healthy all_health;
        total_nodes = length all_health;
        regions = get_all_regions gw.region_router;
      }

module _ (time_text duration_text : ℕ → Str) (now : ℕ) (reply : Str → Option ℕ) (F : Float)
    (hash : Str → ℕ) where
  -- `Handler`
  unfoldable pub handle : Request → Gateway F.Real → Gateway F.Real × Page F.Real
  handle q gw = elim (route q.path) [
    | health_route ↦ (gw, health_page (handle_health (time_text now) gw))
    | nodes_route ↦ (gw, nodes_page (report time_text duration_text gw.health_checker))
    | regions_route ↦ (gw, regions_page (handle_regions gw))
    | metrics_route ↦ (gw, metrics_page)
    | stats_route ↦ (gw, stats_page (handle_stats gw))
    | proxy_route ↦ let (gw', answer) = handle_proxy reply F hash q gw in (gw', proxied_page answer)
  ]

status_cases :
    (c : Checker)
    → let up = length (healthy_nodes c) in
      ((health_status c ≡ (503, codes "degraded")) × (up ≡ 0))
      ⊎ ((health_status c ≡ (200, codes "partial")) × (0 < up) × (up < length c.nodes))
      ⊎ ((health_status c ≡ (200, codes "healthy")) × (0 < up) × (up ≡ length c.nodes))
unfolding health_status
status_cases c = elim (Bool-cases (leb (length (healthy_nodes c)) 0)) [
  | inl y ↦ inl (rw y refl, ground arith)
  | inr n ↦ elim (Bool-cases (ltb (length (healthy_nodes c)) (length c.nodes))) [
    | inl y ↦ inr (inl (ground (arith, n, y), ground arith, ground arith))
    | inr n' ↦ inr (inr (ground (arith, n, n'), ground arith, ground (arith, healthy_nodes-le c)))
  ]
]

module _ {Real : Type 0} where
  -- The three pages that show the health of the nodes count the same nodes, and the gateway is
  -- degraded, with status 503, where none is healthy, healthy where all are, and else partial.
  pub pages_agree :
      (time_text duration_text : ℕ → Str) (timestamp : Str) (gw : Gateway Real)
      → let c = gw.health_checker in
        let up = length (healthy_nodes c) in
        let page = handle_health timestamp gw in
        let shown : ℕ × Str = (page.http_status, page.status) in
        (page.healthy_nodes ≡ up)
        × ((handle_stats gw).healthy_nodes ≡ up)
        × ((report time_text duration_text c).healthy ≡ up)
        × (page.total_nodes ≡ length c.nodes)
        × ((handle_stats gw).total_nodes ≡ length c.nodes)
        × ((report time_text duration_text c).total ≡ length c.nodes)
        × (((shown ≡ (503, codes "degraded")) × (up ≡ 0))
            ⊎ ((shown ≡ (200, codes "partial")) × (0 < up) × (up < length c.nodes))
            ⊎ ((shown ≡ (200, codes "healthy")) × (0 < up) × (up ≡ length c.nodes)))
  unfolding handle_health handle_stats get_all_health healthy_nodes
  pages_agree time_text duration_text timestamp gw =
      let c = gw.health_checker in
      (
        refl,
        count_healthy-length c.nodes,
        report-healthy time_text duration_text c,
        refl,
        refl,
        report-total time_text duration_text c,
        status_cases c,
      )
