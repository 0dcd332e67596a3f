-- ===== src/Command/Served.antt =====
-- What an edge node does after its start, and what it keeps.
use edge_cdn.Base.{
  ℕ, ◌+◌, ◌==◌, ◌&&◌, length, inl, inr, Bool, Option, none, some, List, [], ◌∷◌, arith,
  Option-cases, Bool-cases,
}
use edge_cdn.Base.Text.{Str, codes}
use edge_cdn.Base.Int.{ℤ}
use edge_cdn.RateLimit.{cleanup}
use edge_cdn.RateLimit.{Request as Client}
use edge_cdn.Health.{Probe, check_all}
use edge_cdn.Cache.Lru.{Lru, lru_set, lru_delete}
use edge_cdn.Cache.Lru.Links.{IsLinked}
use edge_cdn.Cache.Lru.Refines.{run_op, run_ops, set-Refines, delete-Refines, run_ops-IsLinked}
use edge_cdn.Cache.Redis.{
  Redis, Net, RedisCache, probe_redis, cache_get, cache_set, cache_delete, new_cache,
  new_redis_cache,
}
use edge_cdn.Cache.Redis.Tiers.{cache_get-IsLinked}
use edge_cdn.Warming.{
  PathAccess, Warmer, prune_old_entries, prefetch, prefetch_all, warm_cycle, get_hot_paths,
}
use edge_cdn.Origin.{FetchResponse, is_text}
use edge_cdn.Edge.{
  Edge, Env, Request, build_cache_key, determine_ttl, fetch_origin, respond, handle_cdn,
  handle_purge,
}
use edge_cdn.Command.{Node, start_edge_node, serve}

lru_set-IsLinked :
    (now : ℕ) (k v : Str) (ttl : ℤ) (l : Lru) → IsLinked l → IsLinked (lru_set now k v ttl l).0
unfolding run_op
lru_set-IsLinked now k v ttl l h = (set-Refines now k v ttl l h).0

lru_delete-IsLinked : (k : Str) (l : Lru) → IsLinked l → IsLinked (lru_delete k l)
unfolding run_op
lru_delete-IsLinked k l h = (delete-Refines k l h).0

module _ (R : Redis) where
  cache_set-IsLinked :
      (put sizing : Net) (now : ℕ) (k v : Str) (ttl : ℤ) (rc : RedisCache) (s : R.Store)
      → IsLinked rc.fallback
      → IsLinked (cache_set R put sizing now k v ttl rc s).0.fallback
  unfolding cache_set
  cache_set-IsLinked put sizing now k v ttl rc s h =
      ground (arith, lru_set-IsLinked now k v ttl rc.fallback h)

  cache_delete-IsLinked :
      (net : Net) (k : Str) (rc : RedisCache) (s : R.Store)
      → IsLinked rc.fallback
      → IsLinked (cache_delete R net k rc s).0.fallback
  unfolding cache_delete
  cache_delete-IsLinked net k rc s h = ground (arith, lru_delete-IsLinked k rc.fallback h)

  prefetch-IsLinked :
      (put sizing : Net) (now : ℕ) (body : Option Str) (pa : PathAccess) (w : Warmer)
      (rc : RedisCache) (s : R.Store)
      → IsLinked rc.fallback
      → IsLinked (prefetch R put sizing now body pa (w, rc, s)).1.fallback
  unfolding prefetch
  prefetch-IsLinked put sizing now none pa w rc s h = h
  prefetch-IsLinked put sizing now (some body) pa w rc s h =
      cache_set-IsLinked put sizing now _ body _ rc s h

  prefetch_all-IsLinked :
      (put sizing : Net) (now : ℕ) (origin : Str → Option Str) (pas : List PathAccess) (w : Warmer)
      (rc : RedisCache) (s : R.Store)
      → IsLinked rc.fallback
      → IsLinked (prefetch_all R put sizing now origin pas (w, rc, s)).1.fallback
  unfolding prefetch_all
  prefetch_all-IsLinked put sizing now origin [] w rc s h = h
  prefetch_all-IsLinked put sizing now origin (pa ∷ pas) w rc s h =
      let st = prefetch R put sizing now (origin pa.path) pa (w, rc, s) in
      prefetch_all-IsLinked put sizing now origin pas st.0 st.1 st.2
        (prefetch-IsLinked put sizing now (origin pa.path) pa w rc s h)

  warm_cycle-IsLinked :
      (put sizing : Net) (now : ℕ) (origin : Str → Option Str) (w : Warmer) (rc : RedisCache)
      (s : R.Store)
      → IsLinked rc.fallback
      → IsLinked (warm_cycle R put sizing now origin (w, rc, s)).1.fallback
  unfolding warm_cycle
  warm_cycle-IsLinked put sizing now origin w rc s h =
      let w' = prune_old_entries now (record w { warm_cycles = w.warm_cycles + 1 }) in
      elim (Bool-cases (length (get_hot_paths w') == 0)) [
        | inl y ↦ rw y h
        | inr n ↦ rw n (prefetch_all-IsLinked put sizing now origin (get_hot_paths w') w' rc s h)
      ]

  module _ (hash : Str → ℕ) (sniff : Str → Str) where
    respond-IsLinked :
        (meets : Env) (q : Request) (result : Option (FetchResponse × Bool)) (e : Edge)
        (s : R.Store)
        → IsLinked e.cache.fallback
        → IsLinked (respond hash sniff R meets q result (e, s)).0.0.cache.fallback
    unfolding respond
    respond-IsLinked meets q none e s h = h
    respond-IsLinked meets q (some (r, shielded)) e s h =
        let ttl = determine_ttl e.default_ttl q.path in
        let key = build_cache_key q.method q.path in
        elim (Bool-cases (is_text q.method (codes "GET") && (r.status_code == 200))) [
          | inl y ↦ rw y (
              cache_set-IsLinked meets.set_net meets.size_net meets.set_at key r.body ttl e.cache s
                h)
          | inr n ↦ rw n h
        ]

    handle_cdn-IsLinked :
        (meets : Env) (q : Request) (e : Edge) (s : R.Store)
        → IsLinked e.cache.fallback
        → IsLinked (handle_cdn hash sniff R meets q (e, s)).0.0.cache.fallback
    unfolding handle_cdn
    handle_cdn-IsLinked meets q e s h =
        let key = build_cache_key q.method q.path in
        let c = (cache_get R meets.get_net meets.get_at key e.cache s).0 in
        let kept = cache_get-IsLinked R meets.get_net meets.get_at key e.cache s h in
        elim (Option-cases (cache_get R meets.get_net meets.get_at key e.cache s).1) [
          | inr (b, y) ↦ rw (handle_cdn, y) kept
          | inl y ↦
              let (guard, result, calls) = fetch_origin meets e.guard in
              rw (handle_cdn, y)
                (respond-IsLinked meets q result
                  (record e { cache = c; guard = guard; fetches = e.fetches + calls }) s kept)
        ]

    handle_purge-IsLinked :
        (net : Net) (method path : Str) (e : Edge) (s : R.Store)
        → IsLinked e.cache.fallback
        → IsLinked (handle_purge R net method path (e, s)).0.0.cache.fallback
    unfolding handle_purge
    handle_purge-IsLinked net method path e s h =
        ground (arith, cache_delete-IsLinked net (build_cache_key (codes "GET") path) e.cache s h)

    -- What happens to a node: requests, purges, cycles of the warmer, with what the origin answers,
    -- probes of Redis, cleanups of the limiter and sweeps of the health checker.
    pub data Event : Type 0 where
      request : ℕ → Client → Env → Request → Event
      purge : Net → Str → Str → Event
      warm : Net → Net → ℕ → (Str → Option Str) → Event
      probe : ℕ → Bool → Event
      clean : ℕ → Event
      sweep : (Str → Option Probe) → Event

    unfoldable pub after : Event → Node × R.Store → Node × R.Store
    after (request now client meets q) st = (serve hash sniff R now client meets q st).0
    after (purge net method path) (n, s) =
        let (e, s') = (handle_purge R net method path (n.edge, s)).0 in (record n { edge = e }, s')
    after (warm put sizing now origin) (n, s) = elim n.edge.warmer [
      | none ↦ (n, s)
      | some w ↦
          let (w', c, s') = warm_cycle R put sizing now origin (w, n.edge.cache, s) in
          (record n { edge = record n.edge { warmer = some w'; cache = c } }, s')
    ]
    after (probe now ping) (n, s) =
        (record n { edge = record n.edge { cache = probe_redis now ping n.edge.cache } }, s)
    after (clean now) (n, s) = (record n { limiter = cleanup now n.limiter }, s)
    after (sweep probes) (n, s) = (record n { checker = (check_all probes n.checker).0 }, s)

    unfoldable pub run_node : List Event → Node × R.Store → Node × R.Store
    unfolding after
    run_node [] st = st
    run_node (x ∷ xs) st = run_node xs (after x st)

    after-IsLinked :
        (x : Event) (n : Node) (s : R.Store)
        → IsLinked n.edge.cache.fallback
        → IsLinked (after x (n, s)).0.edge.cache.fallback
    unfolding after serve probe_redis
    after-IsLinked (request now client meets q) n s h =
        ground (arith, h, handle_cdn-IsLinked meets q n.edge s h)
    after-IsLinked (purge net method path) n s h = handle_purge-IsLinked net method path n.edge s h
    after-IsLinked (warm put sizing now origin) n s h = elim (Option-cases n.edge.warmer) [
      | inl y ↦ rw (after, y) h
      | inr (w, y) ↦ rw (after, y) (warm_cycle-IsLinked put sizing now origin w n.edge.cache s h)
    ]
    after-IsLinked (probe now ping) n s h = ground (arith, h)
    after-IsLinked (clean now) n s h = h
    after-IsLinked (sweep probes) n s h = h

    run_node-IsLinked_from :
        (xs : List Event) (n : Node) (s : R.Store)
        → IsLinked n.edge.cache.fallback
        → IsLinked (run_node xs (n, s)).0.edge.cache.fallback
    unfolding run_node
    run_node-IsLinked_from [] n s h = h
    run_node-IsLinked_from (x ∷ xs) n s h =
        let st = after x (n, s) in run_node-IsLinked_from xs st.0 st.1 (after-IsLinked x n s h)

    start-IsLinked :
        (env : Str → Str) (now : ℕ) (ping : Bool)
        → IsLinked (start_edge_node hash env now ping).edge.cache.fallback
    unfolding start_edge_node new_cache new_redis_cache run_ops
    start-IsLinked env now ping = run_ops-IsLinked _ []

    -- After any requests, purges, cycles of the warmer, probes, cleanups and sweeps, the map and the list
    -- of the LRU map of a node that was started from any environment agree, within its capacity.
    pub run_node-IsLinked :
        (env : Str → Str) (now : ℕ) (ping : Bool) (s : R.Store) (xs : List Event)
        → IsLinked (run_node xs (start_edge_node hash env now ping, s)).0.edge.cache.fallback
    run_node-IsLinked env now ping s xs =
        run_node-IsLinked_from xs (start_edge_node hash env now ping) s
          (start-IsLinked env now ping)
