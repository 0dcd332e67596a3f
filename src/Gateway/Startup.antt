-- ===== src/Gateway/Startup.antt =====
-- A gateway as cmd/router/main.go starts it: `NewFromConfig`, then `AddNode` for each node.
use edge_cdn.Base.{ℕ, ◌≡◌, refl, ap, ◌∙◌, ◌⊎◌, inl, inr, false, Option, List, [], ◌∷◌, arith}
use edge_cdn.Base.Text.{Str}
use edge_cdn.Base.Int.{ℤ}
use edge_cdn.Health.{Checker, Probe, new_checker, is_healthy_node, check_all}
use edge_cdn.Base.Floats.{Float}
use edge_cdn.Gateway.{
  Gateway, Request, Answer, proxied, refused, handle_proxy, new_from_config, add_gateway_node,
}
use edge_cdn.Gateway.Failover.{IsServed, handle_proxy-IsServed}

module _ (F : Float) (hash : Str → ℕ) where
  open F use {Real}

  -- The loop of `startGateway` over the parsed nodes.
  unfoldable pub add_nodes : List (Str × Str × Real × Real) → Gateway Real → Gateway Real
  add_nodes [] gw = gw
  add_nodes ((region, addr, lat, lon) ∷ l) gw =
      add_nodes l (add_gateway_node F hash region addr lat lon gw)

  -- What happens to the gateway after its start: requests, with the replies that the nodes would
  -- give, and sweeps of the health checker.
  pub data Event : Type 0 where
    request : (Str → Option ℕ) → Request → Event
    sweep : (Str → Option Probe) → Event

  unfoldable pub after : Event → Gateway Real → Gateway Real
  after (request reply q) gw = (handle_proxy reply F hash q gw).0
  after (sweep probe) gw = record gw { health_checker = (check_all probe gw.health_checker).0 }

  unfoldable pub run : List Event → Gateway Real → Gateway Real
  unfolding after
  run [] gw = gw
  run (e ∷ es) gw = run es (after e gw)

  add_nodes-checker :
      (l : List (Str × Str × Real × Real)) (gw : Gateway Real)
      → (add_nodes l gw).health_checker ≡ gw.health_checker
  unfolding add_nodes add_gateway_node
  add_nodes-checker [] gw = refl
  add_nodes-checker ((region, addr, lat, lon) ∷ l) gw =
      add_nodes-checker l (add_gateway_node F hash region addr lat lon gw)

  check_all-empty :
      (probe : Str → Option Probe) (c : Checker) → c.nodes ≡ [] → (check_all probe c).0.nodes ≡ []
  unfolding check_all
  check_all-empty probe c e = rw e refl

  after-empty :
      (e : Event) (gw : Gateway Real)
      → gw.health_checker.nodes ≡ []
      → (after e gw).health_checker.nodes ≡ []
  unfolding after handle_proxy
  after-empty (request reply q) gw e = ground arith
  after-empty (sweep probe) gw e = check_all-empty probe gw.health_checker e

  run-empty :
      (es : List Event) (gw : Gateway Real)
      → gw.health_checker.nodes ≡ []
      → (run es gw).health_checker.nodes ≡ []
  unfolding run
  run-empty [] gw e = e
  run-empty (x ∷ es) gw e = run-empty es (after x gw) (after-empty x gw e)

  not_healthy : (c : Checker) (n : Str) → c.nodes ≡ [] → is_healthy_node n c ≡ false
  unfolding is_healthy_node
  not_healthy c n e = ground (arith, e)

  not-IsServed :
      (reply : Str → Option ℕ) (c : Checker) (a : Answer) → c.nodes ≡ [] → ¬ IsServed reply c a
  not-IsServed reply c (proxied n r s f) e h = ground (arith, not_healthy c n e)
  not-IsServed reply c (refused s) e h = h

  fresh-empty :
      (interval timeout : ℤ) → (new_from_config F interval timeout).health_checker.nodes ≡ []
  unfolding new_from_config new_checker
  fresh-empty interval timeout = refl

  -- A gateway started from any configuration refuses every request, after any requests and health
  -- sweeps, however its nodes reply: its nodes are registered with the region router only, and the
  -- health checker knows none of them.
  pub started_gateway_refuses :
      (interval timeout : ℤ) (l : List (Str × Str × Real × Real)) (es : List Event)
      (reply : Str → Option ℕ) (q : Request)
      → let gw = run es (add_nodes l (new_from_config F interval timeout)) in
        ((handle_proxy reply F hash q gw).1 ≡ refused 502)
        ⊎ ((handle_proxy reply F hash q gw).1 ≡ refused 503)
  started_gateway_refuses interval timeout l es reply q =
      let gw₀ = add_nodes l (new_from_config F interval timeout) in
      let gw = run es gw₀ in
      let none_known : gw.health_checker.nodes ≡ [] = run-empty es gw₀ (
        ap (λ (c : Checker). c.nodes) (add_nodes-checker l (new_from_config F interval timeout))
        ∙ fresh-empty interval timeout) in
      elim (handle_proxy-IsServed reply F hash q gw) [
        | inl served ↦ absurd (not-IsServed reply gw.health_checker _ none_known served)
        | inr r ↦ r
      ]
