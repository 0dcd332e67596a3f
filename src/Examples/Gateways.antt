-- ===== src/Examples/Gateways.antt =====
-- Regions and a gateway (internal/region, internal/gateway), with numbers for coordinates.
use edge_cdn.Base.{
  ℕ, ◌+◌, ◌-◌, ◌*◌, ◌/◌, ◌^◌, ◌<◌, ◌≡◌, ◌≢◌, refl, ◌⊎◌, true, false, Option, none, some, List, [],
  ◌∷◌, arith, ltb, leb, length, get_or,
}
use edge_cdn.Base.Text.{Str, str_dec, codes}
use edge_cdn.Base.Int.{ℤ, pos, negsuc}
use edge_cdn.Base.Maps.{insert}
use edge_cdn.Ring.{new_ring, remove_name}
use edge_cdn.Health.{Checker, NodeHealth, is_healthy_node}
use edge_cdn.Base.Floats.{Float}
use edge_cdn.Region.{
  Region, Router, routable_at, add_region_node, remove_region_node, round_robin, get_nearest_region,
}
use edge_cdn.Region.Rotation.{AreUp, turns, turns_in_order}
use edge_cdn.Region.Rings.{add_all, refill, emptied_stays_down}
use edge_cdn.Gateway.{Gateway, Request, refused, handle_proxy, new_from_config}
use edge_cdn.Gateway.Failover.{IsServed, handle_proxy-IsServed, handle_proxy_finds}
use edge_cdn.Gateway.Startup.{Event, request, sweep, run, add_nodes, started_gateway_refuses}
use edge_cdn.Gateway.Pages.{handle_health}
use edge_cdn.Examples.Rings.{toy_hash}

abbrev pub whole : ℤ → ℕ → ℕ
whole (pos n) e = n
whole (negsuc n) e = 0

abbrev pub numbers : Float
numbers = record {
  Real = ℕ;
  sub = λ a b. a - b;
  add = λ a b. a + b;
  mul = λ a b. a * b;
  div = λ a b. a / (b + 1);
  sin = λ a. a;
  cos = λ a. a;
  sqrt = λ a. a;
  atan2 = λ a b. a;
  lt = ltb;
  lit = whole;
  pi = 3;
  max_float = 2 ^ 63;
  le = leb;
  pow = λ a b. a ^ b;
  of_nat = λ n. n;
  truncate = pos;
}

abbrev region_at : Str → ℕ → List Str → Region ℕ
region_at name lat nodes = record {
  name = name;
  lat = lat;
  lng = lat;
  nodes = nodes;
  healthy = true;
  ring = new_ring (pos 2);
}

abbrev east : Region ℕ
east = region_at (codes "east") 1 []

abbrev west : Region ℕ
west = region_at (codes "west") 2 (codes "w1" ∷ codes "w2" ∷ [])

abbrev router : Router ℕ
router = record {
  regions = (codes "east", east) ∷ (codes "west", west) ∷ [];
  order = codes "east" ∷ codes "west" ∷ [];
  rr_index = 0;
  requests_by_region = [];
  region_health = [];
}

abbrev up_node : Str → NodeHealth
up_node a = record {
  address = a;
  region = codes "west";
  is_healthy = true;
  last_check = 0;
  last_latency = 0;
  fail_count = 0;
  success_count = 0;
  total_checks = 0;
  total_fails = 0;
}

abbrev checker : Checker
checker = record {
  nodes = (codes "w2", up_node (codes "w2")) ∷ [];
  config = record {
    interval = 5;
    timeout = 2;
    fail_threshold = 3;
    success_threshold = 2;
    on_transition = false;
  };
  node_status = (codes "w2", 1) ∷ [];
  failover_total = 0;
}

abbrev gateway : Gateway ℕ
gateway = record {
  region_router = router;
  health_checker = checker;
  node_name = codes "gateway";
  failover_count = 0;
  total_requests = 0;
}

abbrev ask : Request
ask = record { x_region = codes "east"; query_region = []; path = codes "/k" }

abbrev answers : Str → Option ℕ
answers n = some 200

abbrev with_e1 : Region ℕ
with_e1 = region_at (codes "east") 1 (codes "e1" ∷ [])

abbrev one_east : Router ℕ
one_east = record router { regions = (codes "east", with_e1) ∷ (codes "west", west) ∷ [] }

refilled_order :
    let r =
      refill numbers toy_hash
        (codes "east")
        (codes "e1")
        ((codes "east", codes "e2") ∷ [])
        one_east in
    (r.rr_index < length r.order)
    × (1 < length r.order)
    × (routable_at (get_or r.order 1 []) r.regions ≡ true)
unfolding str_dec remove_name add_all add_region_node remove_region_node insert
refilled_order = (omega arith, omega arith, refl)

emptied_stays_down_example :
    let r =
      refill numbers toy_hash
        (codes "east")
        (codes "e1")
        ((codes "east", codes "e2") ∷ [])
        one_east in
    (routable_at (codes "east") r.regions ≡ false)
    × ((get_nearest_region numbers (codes "east") r).1 ≢ codes "east")
unfolding str_dec remove_name
emptied_stays_down_example =
    emptied_stays_down numbers toy_hash (codes "east") (codes "e1") one_east with_e1
      ((codes "east", codes "e2") ∷ []) (codes "east") 1 refl refl refilled_order.0 refilled_order.1
      refilled_order.2

handle_proxy-IsServed_example :
    IsServed answers checker (handle_proxy answers numbers toy_hash ask gateway).1
    ⊎ ((handle_proxy answers numbers toy_hash ask gateway).1 ≡ refused 502)
    ⊎ ((handle_proxy answers numbers toy_hash ask gateway).1 ≡ refused 503)
handle_proxy-IsServed_example = handle_proxy-IsServed answers numbers toy_hash ask gateway

w2_up : is_healthy_node (codes "w2") checker ≡ true
unfolding is_healthy_node str_dec
w2_up = refl

handle_proxy_finds_example :
    IsServed answers checker (handle_proxy answers numbers toy_hash ask gateway).1
unfolding str_dec
handle_proxy_finds_example =
    handle_proxy_finds answers numbers toy_hash ask gateway 1 (codes "west") west (codes "w2") 200
      (omega arith) (omega arith) refl refl refl refl refl refl (ground arith) w2_up refl

abbrev two_nodes : List (Str × Str × ℕ × ℕ)
two_nodes = (codes "east", codes "e1", 1, 1) ∷ (codes "west", codes "w1", 2, 2) ∷ []

abbrev some_events : List (Event numbers toy_hash)
some_events = request answers ask ∷ sweep (λ a. none) ∷ []

started_gateway_refuses_example :
    let gw =
      run numbers toy_hash some_events
        (add_nodes numbers toy_hash two_nodes (new_from_config numbers (pos 5) (pos 2))) in
    ((handle_proxy answers numbers toy_hash ask gw).1 ≡ refused 502)
    ⊎ ((handle_proxy answers numbers toy_hash ask gw).1 ≡ refused 503)
started_gateway_refuses_example =
    started_gateway_refuses numbers toy_hash (pos 5) (pos 2) two_nodes some_events answers ask

abbrev no_text : ℕ → Str
no_text n = []

-- One of one node is up, and the pages say so.
abbrev shown : ℕ × Str
shown = (
  (handle_health (codes "now") gateway).http_status,
  (handle_health (codes "now") gateway).status,
)

abbrev both_up : Router ℕ
both_up = record router {
  regions =
      (codes "east", region_at (codes "east") 1 (codes "e1" ∷ [])) ∷ (codes "west", west) ∷ [];
}

both_up-AreUp : AreUp both_up
unfolding str_dec
both_up-AreUp = ((refl, (refl, tt)), omega arith)

turns_in_order_example : (round_robin (turns 3 both_up)).1 ≡ codes "west"
turns_in_order_example = turns_in_order 3 both_up both_up-AreUp
