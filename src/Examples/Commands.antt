-- ===== src/Examples/Commands.antt =====
-- The start of an edge node and of a gateway (cmd/router).
use edge_cdn.Base.{arith, ◌≡◌, refl, [], ◌∷◌, map, some, true, false}
use edge_cdn.Base.Text.{Str, str_dec, codes}
use edge_cdn.Base.Int.{pos, negsuc}
use edge_cdn.RateLimit.{Request}
use edge_cdn.Cache.Lru.Links.{IsLinked}
use edge_cdn.Cache.Redis.{answered, lost}
use edge_cdn.Command.{atoi, in_seconds, split, trim_left, trim_right, trim_space, start_edge_node}
use edge_cdn.Command.Served.{request, purge, warm, probe, clean, run_node, run_node-IsLinked}
use edge_cdn.Command.Nodes.{cut_at, coordinates, node_entry, parse_pairs, parse_nodes}
use edge_cdn.Base.{if◌then◌else◌}
use edge_cdn.Base.Bytes.{to_lower}
use edge_cdn.Origin.{is_text}
use edge_cdn.Command.{get_env}
use edge_cdn.Command.Launch.{debug, launch, level_of, mode_string}
use edge_cdn.Command.Pairs.{nodes_text, parse_nodes-nodes_text}
use edge_cdn.Examples.Rings.{toy_hash}
use edge_cdn.Examples.Gateways.{numbers}
use edge_cdn.Examples.Store.{toy_redis}
use edge_cdn.Examples.Edges.{sniff, get_page, at, served}

minus_twelve : atoi (codes "-12") ≡ some (negsuc 11)
unfolding atoi
minus_twelve = refl

-- 2^34 seconds are more than 2^63 nanoseconds, and wrap round.
wrapped : in_seconds (pos 17_179_869_184) ≡ negsuc 1_266_874_889_709_551_615
unfolding in_seconds
wrapped = refl

-- A pair without `=` is left out.
two_nodes :
    parse_nodes numbers (codes " us-east=h1:80, x ,m=h2")
    ≡ (codes "us-east", codes "h1:80", 390_438, 0) ∷ (codes "m", codes "h2", 0, 0) ∷ []
unfolding parse_nodes parse_pairs split trim_space trim_left trim_right cut_at node_entry
    coordinates str_dec
two_nodes = refl

abbrev no_env : Str → Str
no_env key = []

abbrev client : Request
client = record { x_forwarded_for = []; x_real_ip = []; remote_addr = codes "10.0.0.1:99" }

run_node-IsLinked_example :
    IsLinked
      (run_node toy_redis toy_hash sniff
        (request 3 client (at 10 served) get_page
          ∷ purge lost (codes "POST") (codes "/a.css")
          ∷ warm answered answered 40 (λ p. some p)
          ∷ probe 50 true
          ∷ clean 60
          ∷ [])
        (start_edge_node toy_hash no_env 0 false, [])).0.edge.cache.fallback
run_node-IsLinked_example = run_node-IsLinked toy_redis toy_hash sniff no_env 0 false [] (
    request 3 client (at 10 served) get_page
    ∷ purge lost (codes "POST") (codes "/a.css")
    ∷ warm answered answered 40 (λ p. some p)
    ∷ probe 50 true
    ∷ clean 60
    ∷ [])

parse_nodes-nodes_text_example :
    parse_nodes numbers (nodes_text (codes "e", codes "h") ((codes "w", codes "i") ∷ []))
    ≡ map
        (λ (q : Str × Str). node_entry numbers q.0 q.1)
        ((codes "e", codes "h") ∷ (codes "w", codes "i") ∷ [])
parse_nodes-nodes_text_example =
    parse_nodes-nodes_text numbers (codes "e", codes "h") ((codes "w", codes "i") ∷ [])
      (
        (((λ h. absurd (omega (arith, h))), ((λ h. absurd (omega (arith, h))), refl)), tt),
        (((λ h. absurd (omega (arith, h))), refl), tt),
      )
      (
        (
          (((λ h. absurd (omega (arith, h))), ((λ h. absurd (omega (arith, h))), refl)), tt),
          (((λ h. absurd (omega (arith, h))), refl), tt),
        ),
        tt,
      )

abbrev loud : Str → Str
loud key = if is_text key (codes "LOG_LEVEL") then codes "Debug" else []

-- The level is read in either case, and the port is 8080 by default.
launched :
    ((launch loud).log_level ≡ debug)
    × ((launch loud).addr ≡ codes ":8080")
    × (mode_string (launch loud).is_gateway ≡ codes "edge")
unfolding launch level_of to_lower get_env mode_string str_dec
launched = (refl, refl, refl)
