-- ===== src/Edge.antt =====
-- internal/router/router.go: the edge node's request handlers. Go's `http.DetectContentType` is the
-- parameter `sniff`, Redis the parameter `Redis`, and what the calls to them and to the origin's
-- shield come to enters with the request. The headers of the responses are in Edge/Responses; the logs
-- are left out. The retryer has no check, as cmd/router/main.go makes it. One request is handled at a
-- time.
pub mod Hits
pub mod Failures
pub mod Types
pub mod Responses
use edge_cdn.Base.{
  ℕ, ◌+◌, Bool, true, false, ◌&&◌, ◌||◌, Option, none, some, List, [], ◌∷◌, ◌++◌, ◌==◌,
  if◌then◌else◌, ite, length,
}
use edge_cdn.Base.Text.{Str, str_dec, codes, decimal}
use edge_cdn.Base.Int.{ℤ, pos}
use edge_cdn.Base.Bytes.{has_suffix, contains, to_lower}
use edge_cdn.Ring.{Ring, get_node}
use edge_cdn.Breaker.{Breaker, begin, complete}
use edge_cdn.Retry.{Config, Metrics, Result, Round, Outcome, ok, failed, returned, retry}
use edge_cdn.Cache.Redis.{Redis, Net, RedisCache, cache_get, cache_set, cache_delete}
use edge_cdn.Warming.{Warmer, record_access}
use edge_cdn.Origin.{FetchResponse, is_text}
use edge_cdn.Metrics.{Label, label_request}

-- The circuit breaker and the retryer, which the router uses if it has both.
pub record Guard : Type 0 where
  pub breaker : Breaker
  pub retry_config : Config
  pub retry_metrics : Metrics

-- `requests_total` holds the label of each increment of the counter. `fetches` counts the calls of
-- `fetchFn`, for the statements.
pub record Edge : Type 0 where
  pub default_ttl : ℤ
  pub ring : Ring
  pub cache : RedisCache
  pub warmer : Option Warmer
  pub guard : Option Guard
  pub requests_total : List Label
  pub fetches : ℕ

pub record Request : Type 0 where
  pub method : Str
  pub path : Str

-- What meets a request outside: the calls to Redis, the clock, and what `fetchFn` returns in each
-- attempt, which is the shield's answer, or the origin's where there is no shield.
pub record Env : Type 0 where
  pub get_net : Net
  pub get_at : ℕ
  pub begun_at : ℕ
  pub ended_at : ℕ
  pub attempts : ℕ → Round (FetchResponse × Bool) Str
  pub set_net : Net
  pub size_net : Net
  pub set_at : ℕ

-- A response by its `X-Cache`: the node, the status, the content type, the body and `X-Shield`.
pub data Answer : Type 0 where
  hit : Str → Str → Str → Answer
  fetched : Str → ℕ → Str → Str → Bool → Answer
  origin_error : Str → Answer

-- The answer to a purge.
pub data PurgeAnswer : Type 0 where
  not_allowed missing_path purged : PurgeAnswer

unfoldable pub build_cache_key : Str → Str → Str
build_cache_key method url_path = codes "cdn:" ++ (method ++ (codes ":" ++ url_path))

any_suffix : List Str → Str → Bool
any_suffix [] s = false
any_suffix (x ∷ xs) s = has_suffix x s || any_suffix xs s

unfoldable pub determine_ttl : ℤ → Str → ℤ
unfolding any_suffix
determine_ttl default_ttl url_path =
    let lower = to_lower url_path in
    if any_suffix
      (codes ".css"
        ∷ codes ".js"
        ∷ codes ".png"
        ∷ codes ".jpg"
        ∷ codes ".gif"
        ∷ codes ".webp"
        ∷ codes ".woff2"
        ∷ codes ".svg"
        ∷ [])
      lower
    then pos 3_600_000_000_000
    else if contains (codes "/api/") lower
    then pos 60_000_000_000
    else default_ttl

-- `detectContentType`
unfoldable pub detect_content_type : (Str → Str) → Str → Str → Str
detect_content_type sniff url_path body =
    let lower = to_lower url_path in
    if has_suffix (codes ".html") lower || has_suffix (codes ".htm") lower
    then codes "text/html; charset=utf-8"
    else if has_suffix (codes ".json") lower
    then codes "application/json"
    else if has_suffix (codes ".css") lower
    then codes "text/css; charset=utf-8"
    else if has_suffix (codes ".js") lower
    then codes "application/javascript; charset=utf-8"
    else if has_suffix (codes ".png") lower
    then codes "image/png"
    else if has_suffix (codes ".jpg") lower || has_suffix (codes ".jpeg") lower
    then codes "image/jpeg"
    else if has_suffix (codes ".gif") lower
    then codes "image/gif"
    else if has_suffix (codes ".svg") lower
    then codes "image/svg+xml"
    else if has_suffix (codes ".webp") lower
    then codes "image/webp"
    else if length (sniff body) == 0
    then codes "text/html; charset=utf-8"
    else sniff body

-- `rt.warmer.RecordAccess`, if there is a warmer.
unfoldable pub track : ℕ → Str → ℤ → Option Warmer → Option Warmer
track now path ttl none = none
track now path ttl (some w) = some (record_access now path ttl w)

-- The result of the attempts as the breaker and the router see it.
abbrev pub value_of : Outcome (FetchResponse × Bool) Str → Option (FetchResponse × Bool)
value_of (returned a) = some a
value_of _ = none

abbrev pub succeeded : Option (FetchResponse × Bool) → Bool
succeeded none = false
succeeded (some a) = true

-- The breaker around the retries around `fetchFn`: the guard afterwards, the result, and how often
-- `fetchFn` was called.
unfoldable pub fetch_guarded : Env → Guard → Guard × Option (FetchResponse × Bool) × ℕ
fetch_guarded env g =
    let (b, admitted) = begin env.begun_at g.breaker in
    if admitted
    then (let (outcome, m, calls) = retry g.retry_config (λ e. true) env.attempts g.retry_metrics in
        let result = value_of outcome in
        (
          record g { breaker = complete (succeeded result) env.ended_at b; retry_metrics = m },
          result,
          calls,
        ))
    else (record g { breaker = b }, none, 0)

abbrev direct : Result (FetchResponse × Bool) Str → Option (FetchResponse × Bool)
direct (ok a) = some a
direct (failed e) = none

unfoldable pub fetch_origin : Env → Option Guard → Option Guard × Option (FetchResponse × Bool) × ℕ
fetch_origin env none = (none, direct (env.attempts 0).call, 1)
fetch_origin env (some g) =
    let (g', result, calls) = fetch_guarded env g in (some g', result, calls)

module _ (hash : Str → ℕ) (sniff : Str → Str) (R : Redis) where
  -- The end of `handleCDN` for what was fetched.
  unfoldable pub respond :
      Env → Request → Option (FetchResponse × Bool) → Edge × R.Store → (Edge × R.Store) × Answer
  respond env q none (e, s) = (
    (
      record e {
        requests_total =
            label_request q.method q.path (codes "502") (codes "ERROR") ∷ e.requests_total;
      },
      s,
    ),
    origin_error (get_node hash e.ring q.path),
  )
  respond env q (some (resp, shielded)) (e, s) =
      let ttl = determine_ttl e.default_ttl q.path in
      let (cache, s') =
        if is_text q.method (codes "GET") && (resp.status_code == 200)
        then cache_set R env.set_net env.size_net env.set_at (build_cache_key q.method q.path)
            resp.body ttl e.cache s
        else (e.cache, s) in
      (
        (
          record e {
            cache = cache;
            warmer = track env.set_at q.path ttl e.warmer;
            requests_total =
                label_request q.method q.path (decimal resp.status_code) (codes "MISS")
                ∷ e.requests_total;
          },
          s',
        ),
        fetched (get_node hash e.ring q.path) resp.status_code resp.content_type resp.body shielded,
      )

  unfoldable pub handle_cdn : Env → Request → Edge × R.Store → (Edge × R.Store) × Answer
  handle_cdn env q (e, s) =
      let key = build_cache_key q.method q.path in
      let (cache, cached) = cache_get R env.get_net env.get_at key e.cache s in
      let e' = record e { cache = cache } in
      elim cached [
        | some body ↦ (
          (
            record e' {
              warmer = track env.get_at q.path (determine_ttl e.default_ttl q.path) e.warmer;
              requests_total =
                  label_request q.method q.path (codes "200") (codes "HIT") ∷ e.requests_total;
            },
            s,
          ),
          hit (get_node hash e.ring q.path) (detect_content_type sniff q.path body) body,
        )
        | none ↦
            let (guard, result, calls) = fetch_origin env e.guard in
            respond env q result (record e' { guard = guard; fetches = e.fetches + calls }, s)
      ]

module _ (R : Redis) where
  -- `handlePurge`, for a method and the query's path. `Delete` returns no error, so that the answer
  -- "purge failed" does not arise.
  unfoldable pub handle_purge : Net → Str → Str → Edge × R.Store → (Edge × R.Store) × PurgeAnswer
  handle_purge net method path (e, s) =
      if is_text method (codes "POST")
      then (if length path == 0
          then ((e, s), missing_path)
          else (let (cache, s') =
                cache_delete R net (build_cache_key (codes "GET") path) e.cache s in
              ((record e { cache = cache }, s'), purged)))
      else ((e, s), not_allowed)
