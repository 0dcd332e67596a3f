-- ===== src/Examples/Clients.antt =====
-- A node behind the gateway (internal/gateway), and its limiter (internal/ratelimit) with one request a
-- second and a burst of one.
use edge_cdn.Base.{◌≡◌, refl, List, [], ◌∷◌, arith}
use edge_cdn.Base.Text.{Str, codes}
use edge_cdn.Base.Int.{pos}
use edge_cdn.RateLimit.{Limiter, new_limiter}
use edge_cdn.RateLimit.Cleanup.{answers}
use edge_cdn.Gateway.Bypass.{from_ports, trues, ports_bypass}

abbrev strict : Limiter
strict = new_limiter (pos 1) (pos 1)

abbrev ports : List Str
ports = codes "5001" ∷ codes "5002" ∷ codes "5003" ∷ []

-- Three requests at one time, of a limiter that lets one through.
ports_bypass_example :
    answers
      (from_ports 0
        (codes "edge:80")
        (codes "/k")
        (codes "id")
        (codes "10.0.0.9:80")
        []
        (codes "10.0.0.1")
        ports)
      strict
    ≡ trues ports
unfolding new_limiter
ports_bypass_example =
    ports_bypass 0 (codes "edge:80") (codes "/k") (codes "id") (codes "10.0.0.9:80") []
      (codes "10.0.0.1") ports strict (omega arith) (ground arith) (ground arith) (ground arith)
      (refl, (refl, (refl, tt)))
