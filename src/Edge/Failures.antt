-- ===== src/Edge/Failures.antt =====
-- What the edge node does when the origin is not reached.
use edge_cdn.Base.{ℕ, ◌+◌, ◌≤◌, ◌<◌, ◌≡◌, none, some, [], true, false, arith}
use edge_cdn.Base.Text.{Str}
use edge_cdn.Ring.{get_node}
use edge_cdn.Breaker.{open_state, begin, complete}
use edge_cdn.Breaker.Machine.{run}
use edge_cdn.Breaker.Thresholds.{open_refuses}
use edge_cdn.Retry.Attempts.{IsRetried, retry_exhausts}
use edge_cdn.Cache.Redis.{Redis, cache_get}
use edge_cdn.Edge.{
  Guard, Edge, Request, Env, origin_error, build_cache_key, fetch_guarded, fetch_origin, respond,
  handle_cdn,
}

module _ (hash : Str → ℕ) (sniff : Str → Str) (R : Redis) (env : Env) (q : Request) (e : Edge)
    (s : R.Store) (g : Guard) where
  no_calls :
      (begin env.begun_at g.breaker).1 ≡ false
      → fetch_guarded env g ≡ (record g { breaker = (begin env.begun_at g.breaker).0 }, none, 0)
  unfolding fetch_guarded
  no_calls r = ground (arith, r)

  -- A request that misses the cache while the breaker is open, and its timeout not over, is answered
  -- with the error and does not reach the origin.
  pub handle_cdn_refused :
      (cache_get R env.get_net env.get_at (build_cache_key q.method q.path) e.cache s).1 ≡ none
      → e.guard ≡ some g
      → g.breaker.state ≡ open_state
      → env.begun_at ≤ g.breaker.last_state_change + g.breaker.cfg.open_timeout
      → let ((e', s'), answer) = handle_cdn hash sniff R env q (e, s) in
        (answer ≡ origin_error (get_node hash e.ring q.path))
        × (e'.fetches ≡ e.fetches)
        × (e'.cache
            ≡ (cache_get R env.get_net env.get_at (build_cache_key q.method q.path) e.cache s).0)
        × (s' ≡ s)
  unfolding handle_cdn respond fetch_origin run
  handle_cdn_refused missed guarded is_open early =
      let (refused, _) = open_refuses g.breaker [] env.begun_at is_open tt early in
      ground (arith, missed, guarded, no_calls refused)

  all_calls :
      (errors : ℕ → Str)
      → (begin env.begun_at g.breaker).1 ≡ true
      → 0 < g.retry_config.max_attempts
      → ((i : ℕ)
          → i < g.retry_config.max_attempts
          → IsRetried g.retry_config (λ e. true) env.attempts i (errors i))
      → let (g', result, calls) = fetch_guarded env g in
        (g'.breaker ≡ complete false env.ended_at (begin env.begun_at g.breaker).0)
        × (result ≡ none)
        × (calls ≡ g.retry_config.max_attempts)
  unfolding fetch_guarded
  all_calls errors r h all =
      let (o, n) =
        retry_exhausts g.retry_config (λ e. true) env.attempts g.retry_metrics errors h all in
      ground (arith, r, o, n)

  -- A request that misses the cache, is let through by the breaker, and whose attempts, of which there is one
  -- at least, all fail and are retried is answered with the error after `max_attempts` calls of `fetchFn`,
  -- the shield's Fetch in an edge node, which need not reach the origin each; the breaker counts them as
  -- one failure, and nothing is stored.
  pub handle_cdn_exhausted :
      (errors : ℕ → Str)
      → (cache_get R env.get_net env.get_at (build_cache_key q.method q.path) e.cache s).1 ≡ none
      → e.guard ≡ some g
      → (begin env.begun_at g.breaker).1 ≡ true
      → 0 < g.retry_config.max_attempts
      → ((i : ℕ)
          → i < g.retry_config.max_attempts
          → IsRetried g.retry_config (λ e. true) env.attempts i (errors i))
      → let ((e', s'), answer) = handle_cdn hash sniff R env q (e, s) in
        (answer ≡ origin_error (get_node hash e.ring q.path))
        × (e'.fetches ≡ e.fetches + g.retry_config.max_attempts)
        × (e'.cache
            ≡ (cache_get R env.get_net env.get_at (build_cache_key q.method q.path) e.cache s).0)
        × (s' ≡ s)
        × ((g' : Guard) × (e'.guard ≡ some g')
            × (g'.breaker ≡ complete false env.ended_at (begin env.begun_at g.breaker).0))
  unfolding handle_cdn respond fetch_origin
  handle_cdn_exhausted errors missed guarded r h all =
      let (b, n, c) = all_calls errors r h all in
      (
        ground (arith, missed, guarded, n),
        ground (arith, missed, guarded, n, c),
        ground (arith, missed, guarded, n),
        ground (arith, missed, guarded, n),
        ((fetch_guarded env g).0, ground (arith, missed, guarded, n), b),
      )
