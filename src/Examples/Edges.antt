-- ===== src/Examples/Edges.antt =====
-- An edge node (internal/router) with a small ring, a small server and a toy content sniffer.
use edge_cdn.Base.{
  Bool, ℕ, ◌+◌, ◌≡◌, ◌≢◌, refl, Option, none, some, List, [], ◌∷◌, ◌++◌, true, false, arith,
  ℕ_discrete,
}
use edge_cdn.Base.Text.{Str, codes}
use edge_cdn.Base.Int.{pos}
use edge_cdn.Base.Bytes.{has_suffix, after_prefix, to_lower}
use edge_cdn.Ring.{get_node}
use edge_cdn.Breaker.{Breaker, State, closed, state_code, begin, complete}
use edge_cdn.Retry.{Round, ok, failed}
use edge_cdn.Cache.Lru.{new_lru_cache, lru_get, held}
use edge_cdn.Cache.Lru.Links.{IsLinked}
use edge_cdn.Cache.Lru.Refines.{run_ops, run_ops-IsLinked}
use edge_cdn.Cache.Redis.{RedisCache, answered, lost, new_redis_cache, cache_get}
use edge_cdn.Origin.{FetchResponse, generate_content}
use edge_cdn.Warming.{Warmer, PathAccess, new_warmer}
use edge_cdn.Edge.{
  Guard, Edge, Request, Env, hit, fetched, origin_error, build_cache_key, determine_ttl,
  detect_content_type, fetch_origin, respond, handle_cdn, handle_purge,
}
use edge_cdn.Edge.Hits.{probed, handle_cdn-handle_cdn, handle_cdn-handle_purge}
use edge_cdn.Edge.Failures.{handle_cdn_exhausted}
use edge_cdn.Edge.Types.{jpg_types}
use edge_cdn.Examples.Rings.{toy_hash, two}
use edge_cdn.Examples.Store.{Held, toy_redis, toy_redis-IsRedis}

abbrev pub sniff : Str → Str
sniff body = codes "text/plain"

abbrev pub page : Str
page = codes "/a.css"

abbrev pub get_page : Request
get_page = record { method = codes "GET"; path = page }

abbrev warmer : Warmer
warmer = new_warmer (pos 2) (pos 3) (pos 100)

abbrev empty_cache : RedisCache
empty_cache = new_redis_cache (pos 2) true

empty_cache-IsLinked : IsLinked empty_cache.fallback
unfolding new_redis_cache run_ops
empty_cache-IsLinked = run_ops-IsLinked (pos 2) []

abbrev pub bare : Edge
bare = record {
  default_ttl = pos 60;
  ring = two;
  cache = empty_cache;
  warmer = some warmer;
  guard = none;
  requests_total = [];
  fetches = 0;
}

abbrev pub style : FetchResponse
style = record {
  status_code = 200;
  content_type = codes "text/css; charset=utf-8";
  body = codes "p{}";
}

abbrev pub served : ℕ → Round (FetchResponse × Bool) Str
served i = record { before = none; call = ok (style, true); during_wait = none }

abbrev unserved : ℕ → Round (FetchResponse × Bool) Str
unserved i = record { before = none; call = failed (codes "reset"); during_wait = none }

abbrev pub at : ℕ → (ℕ → Round (FetchResponse × Bool) Str) → Env
at now attempts = record {
  get_net = answered;
  get_at = now;
  begun_at = now;
  ended_at = now + 1;
  attempts = attempts;
  set_net = lost;
  size_net = answered;
  set_at = now + 2;
}

fetched_page :
    (handle_cdn toy_hash sniff toy_redis (at 10 served) get_page (bare, [])).1
    ≡ fetched (get_node toy_hash two page) 200 (codes "text/css; charset=utf-8") (codes "p{}") true
unfolding handle_cdn respond fetch_origin cache_get new_redis_cache new_lru_cache lru_get held
fetched_page = refl

page_ttl : determine_ttl (pos 60) page ≡ pos 3_600_000_000_000
unfolding determine_ttl has_suffix after_prefix to_lower ℕ_discrete
page_ttl = refl

abbrev found_up : List (ℕ × Bool)
found_up = (100, true) ∷ []

handle_cdn-handle_cdn_example :
    (handle_cdn toy_hash sniff toy_redis (at 500 served) get_page (
      probed toy_redis found_up
        (handle_cdn toy_hash sniff toy_redis (at 10 served) get_page (bare, [])).0)).1
    ≡ hit (get_node toy_hash two page) (detect_content_type sniff page (codes "p{}")) (codes "p{}")
unfolding new_redis_cache
handle_cdn-handle_cdn_example =
    handle_cdn-handle_cdn toy_hash sniff toy_redis toy_redis-IsRedis (at 10 served) (at 500 served)
      get_page bare [] (get_node toy_hash two page) (codes "text/css; charset=utf-8") (codes "p{}")
      true found_up empty_cache-IsLinked refl refl refl fetched_page
      (λ h. absurd (ground (arith, page_ttl))) (omega arith) (rw page_ttl refl)

abbrev hot_page : PathAccess
hot_page = record { path = page; count = 7; last_seen = 5; ttl = pos 0 }

abbrev old_pages : List (Str × Held)
old_pages = (codes "cdn:GET:/a.css", (codes "old", none)) ∷ []

handle_cdn-handle_purge_example :
    (handle_cdn toy_hash sniff toy_redis
      (at 500 unserved)
      get_page
      (handle_purge toy_redis answered (codes "POST") page (bare, old_pages)).0).1
    ≢ hit (codes "a") (codes "text/css; charset=utf-8") (codes "old")
unfolding new_redis_cache
handle_cdn-handle_purge_example =
    handle_cdn-handle_purge toy_hash sniff toy_redis toy_redis-IsRedis (at 500 unserved) page bare
      old_pages (codes "a") (codes "text/css; charset=utf-8") (codes "old") empty_cache-IsLinked
      refl (λ h. cc)

abbrev breaker_in : State → Breaker
breaker_in s = record {
  state = s;
  failures = 0;
  successes = 0;
  last_state_change = 5;
  cfg = record {
    fail_threshold = 2;
    success_threshold = 2;
    open_timeout = 100;
    half_open_max_concurrent = 1;
    name = codes "origin";
  };
  half_open_in_flight = pos 0;
  state_gauge = state_code s;
  trips_total = 0;
  success_total = 0;
  failure_total = 0;
  rejected_total = 0;
}

abbrev guard_in : State → Guard
guard_in st = record {
  breaker = breaker_in st;
  retry_config = record {
    max_attempts = 3;
    initial_backoff = 1;
    max_backoff = 10;
    has_check = false;
  };
  retry_metrics = record {
    cancelled = 0;
    success = 0;
    failure = 0;
    retries_total = 0;
    exhausted_total = 0;
  };
}

abbrev guarded : State → Edge
guarded st = record bare { guard = some (guard_in st) }

abbrev page_get : ℕ → RedisCache × Option Str
page_get now = cache_get toy_redis answered now (build_cache_key (codes "GET") page) empty_cache []

page_missed : (page_get 50).1 ≡ none
unfolding cache_get new_redis_cache new_lru_cache lru_get held
page_missed = refl

handle_cdn_exhausted_example :
    let ((e', s'), answer) =
      handle_cdn toy_hash sniff toy_redis (at 50 unserved) get_page (guarded closed, []) in
    (answer ≡ origin_error (get_node toy_hash two page))
    × (e'.fetches ≡ 3)
    × (e'.cache ≡ (page_get 50).0)
    × (s' ≡ [])
    × ((g' : Guard) × (e'.guard ≡ some g')
        × (g'.breaker ≡ complete false 51 (begin 50 (breaker_in closed)).0))
unfolding begin
handle_cdn_exhausted_example =
    handle_cdn_exhausted toy_hash sniff toy_redis (at 50 unserved) get_page (guarded closed) []
      (guard_in closed) (λ i. codes "reset") page_missed refl refl (omega arith)
      (λ i h. (refl, refl, refl, refl))

jpg_types_example :
    ((generate_content (codes "e1") (codes "noon") (codes "/cat" ++ codes ".jpg")).0
      ≡ codes "image/png")
    × (detect_content_type sniff (codes "/cat" ++ codes ".jpg") [] ≡ codes "image/jpeg")
jpg_types_example = jpg_types (codes "e1") (codes "noon") (codes "/cat") [] sniff
