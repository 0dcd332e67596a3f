-- ===== src/Examples/Responses.antt =====
-- The response that the edge node (internal/router) writes for a page that its cache does not have.
use edge_cdn.Base.{◌≡◌, ◌⊎◌, none, [], length}
use edge_cdn.Base.Text.{codes, decimal}
use edge_cdn.Base.Int.{pos}
use edge_cdn.Base.Headers.{get_header}
use edge_cdn.Cache.Redis.{cache_get}
use edge_cdn.Edge.{build_cache_key, fetch_origin, handle_cdn}
use edge_cdn.Edge.Responses.{Names, Response, IsHit, IsMiss, IsError, written, written-handle_cdn}
use edge_cdn.Examples.Rings.{toy_hash}
use edge_cdn.Examples.Store.{toy_redis}
use edge_cdn.Examples.Edges.{sniff, get_page, bare, served, at}

abbrev names : Names
names = record {
  node_name = codes "edge-01";
  node_region = codes "us-east";
  request_id = codes "0a";
  response_time = codes "1ms";
}

abbrev response : Response
response =
    written names (pos 60)
      (handle_cdn toy_hash sniff toy_redis (at 10 served) get_page (bare, [])).1

written-handle_cdn_example :
    let cached =
      (cache_get toy_redis
        (at 10 served).get_net
        10
        (build_cache_key get_page.method get_page.path)
        bare.cache
        []).1 in
    let result = (fetch_origin (at 10 served) none).1 in
    (get_header (codes "Content-Length") response.headers ≡ decimal (length response.body))
    × (IsHit (pos 60) cached response
        ⊎ ((cached ≡ none) × IsMiss result response)
        ⊎ ((cached ≡ none) × IsError result response))
written-handle_cdn_example =
    written-handle_cdn names toy_hash sniff toy_redis (at 10 served) get_page bare []
