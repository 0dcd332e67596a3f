-- ===== src/Gateway.antt =====
-- internal/gateway/gateway.go: the gateway's request handler, and the start of a gateway in
-- cmd/router/main.go. The edge nodes are outside: `reply` says with which status a node answers
-- the proxied request, `none` where it cannot be reached. The headers are in Gateway/Forward; the
-- bodies are passed through and left out.
pub mod Failover
pub mod Startup
pub mod Pages
pub mod Forward
pub mod Bypass
use edge_cdn.Base.{
  ℕ, zero, suc, ◌+◌, Bool, true, false, not, ◌&&◌, Option, none, some, List, [], ◌∷◌, ◌++◌, ltb,
  leb, if◌then◌else◌, ite, length,
}
use edge_cdn.Base.Text.{Str, str_dec, codes}
use edge_cdn.Base.Int.{ℤ, pos}
use edge_cdn.Health.{Checker, new_checker, is_healthy_node, healthy_nodes}
use edge_cdn.Base.Floats.{Float}
use edge_cdn.Region.{
  Region, Router, new_router, add_region_node, get_nearest_region, get_node_for_key,
  get_all_regions, is_empty,
}

pub record Gateway (Real : Type 0) : Type 0 where
  pub region_router : Router Real
  pub health_checker : Checker
  pub node_name : Str
  pub failover_count : ℕ
  pub total_requests : ℕ

-- What `handleProxy` reads of a request: the two region hints, `""` where missing, and the path.
pub record Request : Type 0 where
  pub x_region : Str
  pub query_region : Str
  pub path : Str

-- A proxied answer: the node, its region, the status and the failover mark; or an error status.
pub data Answer : Type 0 where
  proxied : Str → Str → ℕ → Bool → Answer
  refused : ℕ → Answer

abbrev pub is_same : Str → Str → Bool
is_same a b = ite (str_dec a b) true false

-- The client's region: the `X-Region` header, or the query parameter where it is empty.
abbrev pub hint : Request → Str
hint q = if is_empty q.x_region then q.query_region else q.x_region

module _ (reply : Str → Option ℕ) where
  -- `proxyTo`; `none` where the node is unreachable.
  unfoldable pub proxy_to : Str → Str → Bool → Option Answer
  proxy_to node region failed_over = elim (reply node) [
    | none ↦ none
    | some status ↦ some (proxied node region status failed_over)
  ]

  -- A loop over the nodes of a region that tries the healthy ones, `skip` left out.
  unfoldable pub try_nodes : Checker → Option Str → Str → List Str → Option Answer
  try_nodes c skip region [] = none
  try_nodes c skip region (node ∷ nodes) =
      let rest = try_nodes c skip region nodes in
      if (elim skip [ none ↦ false | some s ↦ is_same node s ])
      then rest
      else if is_healthy_node node c
      then elim (proxy_to node region true) [ none ↦ rest | some a ↦ some a ]
      else rest

  -- Attempt 2: the other nodes of the target region.
  unfoldable pub try_target :
      {Real : Type 0} → Checker → Str → Str → List (Region Real) → Option Answer
  try_target c primary target [] = none
  try_target c primary target (reg ∷ regs) =
      let rest = try_target c primary target regs in
      if is_same reg.name target
      then elim (try_nodes c (some primary) target reg.nodes) [ none ↦ rest | some a ↦ some a ]
      else rest

  -- Attempt 3: the nodes of the other healthy regions.
  unfoldable pub try_others : {Real : Type 0} → Checker → Str → List (Region Real) → Option Answer
  try_others c target [] = none
  try_others c target (reg ∷ regs) =
      let rest = try_others c target regs in
      if is_same reg.name target
      then rest
      else if reg.healthy
      then elim (try_nodes c none reg.name reg.nodes) [ none ↦ rest | some a ↦ some a ]
      else rest

  -- Attempts 2 and 3, and the error when all are exhausted.
  unfoldable pub fail_over : {Real : Type 0} → Checker → Str → Str → List (Region Real) → Answer
  fail_over c primary target regs = elim (try_target c primary target regs) [
    | some a ↦ a
    | none ↦ elim (try_others c target regs) [ some a ↦ a | none ↦ refused 502 ]
  ]

  -- Attempt 1: the primary node.
  unfoldable pub try_primary : Checker → Str → Str → Option Answer
  try_primary c primary target =
      if not (is_empty primary) && is_healthy_node primary c
      then proxy_to primary target false
      else none

  module _ (F : Float) (hash : Str → ℕ) where
    unfoldable pub handle_proxy : Request → Gateway F.Real → Gateway F.Real × Answer
    handle_proxy q gw =
        let (router, target) = get_nearest_region F (hint q) gw.region_router in
        let gw' = record gw { region_router = router; total_requests = gw.total_requests + 1 } in
        if is_empty target
        then (gw', refused 503)
        else let primary = get_node_for_key hash target q.path router in
          elim (try_primary gw.health_checker primary target) [
            | some a ↦ (gw', a)
            | none ↦ (
              record gw' { failover_count = gw.failover_count + 1 },
              fail_over gw.health_checker primary target (get_all_regions router),
            )
          ]

-- `handleHealth`: the HTTP status and the `status` text.
unfoldable pub health_status : Checker → ℕ × Str
health_status c =
    let up = length (healthy_nodes c) in
    if leb up 0
    then (503, codes "degraded")
    else if ltb up (length c.nodes)
    then (200, codes "partial")
    else (200, codes "healthy")

module _ (F : Float) where
  -- `NewFromConfig`
  unfoldable pub new_from_config : ℤ → ℤ → Gateway F.Real
  new_from_config interval timeout = record {
    region_router = new_router F;
    health_checker = new_checker interval timeout (pos 3) (pos 2) false;
    node_name = codes "gateway";
    failover_count = 0;
    total_requests = 0;
  }

  -- `Gateway.AddNode`; the coordinates are not used.
  unfoldable pub add_gateway_node :
      (Str → ℕ) → Str → Str → F.Real → F.Real → Gateway F.Real → Gateway F.Real
  add_gateway_node hash region addr lat lon gw = record gw {
    region_router = add_region_node F hash region addr gw.region_router;
  }
