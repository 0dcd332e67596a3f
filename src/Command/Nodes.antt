-- ===== src/Command/Nodes.antt =====
-- cmd/router/main.go, `startGateway`: the nodes of EDGE_NODES, and the gateway. `none` is its exit
-- without any node.
use edge_cdn.Base.{ℕ, Option, none, some, List, [], ◌∷◌, ◌==◌, if◌then◌else◌, ite}
use edge_cdn.Base.Text.{Str, str_dec, codes}
use edge_cdn.Base.Int.{pos}
use edge_cdn.Base.Floats.{Float}
use edge_cdn.Region.{default_regions}
use edge_cdn.Gateway.{Gateway, new_from_config}
use edge_cdn.Gateway.Startup.{add_nodes}
use edge_cdn.Command.{split, trim_space, get_env, get_duration_env, in_seconds}

-- `strings.SplitN(s, "=", 2)` where it has two parts.
unfoldable pub cut_at : ℕ → Str → Option (Str × Str)
cut_at c [] = none
cut_at c (x ∷ s) =
    let rest = cut_at c s in
    if x == c then some ([], s) else elim rest [ none ↦ none | some (a, b) ↦ some (x ∷ a, b) ]

module _ (F : Float) where
  open F use {Real, lit}

  -- The loop over `allRegions`.
  unfoldable pub coordinates : Str → List (Str × Real × Real) → Real × Real
  coordinates reg [] = (lit (pos 0) 0, lit (pos 0) 0)
  coordinates reg ((name, lat, lon) ∷ m) = ite (str_dec name reg) (lat, lon) (coordinates reg m)

  unfoldable pub node_entry : Str → Str → Str × Str × Real × Real
  unfolding default_regions
  node_entry reg addr =
      let (lat, lon) = coordinates reg (default_regions F) in (reg, addr, lat, lon)

  unfoldable pub parse_pairs : List Str → List (Str × Str × Real × Real)
  parse_pairs [] = []
  parse_pairs (pair ∷ pairs) =
      let rest = parse_pairs pairs in
      elim (cut_at b'=' (trim_space pair)) [
        | none ↦ rest
        | some (reg, addr) ↦ node_entry reg addr ∷ rest
      ]

  unfoldable pub parse_nodes : Str → List (Str × Str × Real × Real)
  parse_nodes raw = parse_pairs (split b',' raw)

  unfoldable pub start_gateway : (Str → ℕ) → (Str → Str) → Option (Gateway Real)
  start_gateway hash env =
      let nodes = parse_nodes (get_env env (codes "EDGE_NODES") (codes "us-east=localhost:8080")) in
      let gw =
        new_from_config F
          (in_seconds (get_duration_env env (codes "HEALTH_CHECK_INTERVAL_SEC") (pos 5)))
          (in_seconds (get_duration_env env (codes "HEALTH_CHECK_TIMEOUT_SEC") (pos 2))) in
      elim nodes [ [] ↦ none | n ∷ ns ↦ some (add_nodes F hash (n ∷ ns) gw) ]
