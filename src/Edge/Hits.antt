-- ===== src/Edge/Hits.antt =====
-- What the edge node serves from its cache.
use edge_cdn.Base.{
  ℕ, ◌≡◌, ◌≤◌, List, refl, ap, ◌∙◌, ◌≢◌, inl, inr, none, some, [], ◌∷◌, ◌++◌, Bool, true, false,
  arith, Option-cases,
}
use edge_cdn.Base.Text.{Str, codes}
use edge_cdn.Ring.{get_node}
use edge_cdn.Cache.Recency.{expired, expiry}
use edge_cdn.Cache.Lru.Links.{IsLinked}
use edge_cdn.Cache.Redis.{
  Redis, IsRedis, keep_ttl, Net, answered, cache_get, cache_set, cache_delete,
}
use edge_cdn.Cache.Redis.Tiers.{
  probes, cache_get-absent, cache_get-probes-cache_set, cache_get-IsLinked, cache_get-cache_set,
  cache_get-cache_delete,
}
use edge_cdn.Warming.{PathAccess, Warmer, prefetch, prefetch_ttl}
use edge_cdn.Edge.{
  Edge, Request, Env, hit, fetched, build_cache_key, determine_ttl, detect_content_type,
  fetch_origin, respond, handle_cdn, handle_purge,
}

module _ (R : Redis) where
  -- Some probes of the edge node's cache.
  unfoldable pub probed : List (ℕ × Bool) → Edge × R.Store → Edge × R.Store
  probed ps (e, s) = (record e { cache = probes ps e.cache }, s)

module _ (hash : Str → ℕ) (sniff : Str → Str) (R : Redis) where
  -- A cached body is served.
  pub handle_cdn-hit :
      (env : Env) (q : Request) (e : Edge) (s : R.Store) (body : Str)
      → (cache_get R env.get_net env.get_at (build_cache_key q.method q.path) e.cache s).1
        ≡ some body
      → (handle_cdn hash sniff R env q (e, s)).1
        ≡ hit (get_node hash e.ring q.path) (detect_content_type sniff q.path body) body
  unfolding handle_cdn
  handle_cdn-hit env q e s body c = ground (arith, c)

  -- What a `GET` request leaves that was answered by the origin with status 200.
  fetched_state :
      (env : Env) (q : Request) (e : Edge) (s : R.Store) (node ct body : Str) (shielded : Bool)
      → q.method ≡ codes "GET"
      → (handle_cdn hash sniff R env q (e, s)).1 ≡ fetched node 200 ct body shielded
      → let key = build_cache_key q.method q.path in
        let (e', s') = (handle_cdn hash sniff R env q (e, s)).0 in
        let c = (cache_get R env.get_net env.get_at key e.cache s).0 in
        let put =
          cache_set R env.set_net env.size_net env.set_at key body
            (determine_ttl e.default_ttl q.path)
            c
            s in
        (e'.cache ≡ put.0) × (s' ≡ put.1) × (e'.ring ≡ e.ring)
  unfolding handle_cdn respond
  fetched_state env q e s node ct body shielded get a =
      let key = build_cache_key q.method q.path in
      elim (Option-cases (cache_get R env.get_net env.get_at key e.cache s).1) [
        | inr (b, c) ↦ absurd (ground (arith, c))
        | inl c ↦ elim (Option-cases (fetch_origin env e.guard).1) [
          | inl n ↦ absurd (ground (arith, c, n))
          | inr (r, n) ↦ ground (arith, c, n, get)
        ]
      ]

  fetched-missed :
      (env : Env) (q : Request) (e : Edge) (s : R.Store) (node ct body : Str) (shielded : Bool)
      → (handle_cdn hash sniff R env q (e, s)).1 ≡ fetched node 200 ct body shielded
      → (cache_get R env.get_net env.get_at (build_cache_key q.method q.path) e.cache s).1 ≡ none
  unfolding handle_cdn
  fetched-missed env q e s node ct body shielded a =
      let key = build_cache_key q.method q.path in
      elim (Option-cases (cache_get R env.get_net env.get_at key e.cache s).1) [
        | inl c ↦ c
        | inr (b, c) ↦ absurd (ground (arith, c))
      ]

  handle_cdn-miss :
      (env : Env) (q : Request) (e : Edge) (s : R.Store) (node ct body : Str)
      → (cache_get R env.get_net env.get_at (build_cache_key q.method q.path) e.cache s).1 ≡ none
      → (handle_cdn hash sniff R env q (e, s)).1 ≢ hit node ct body
  unfolding handle_cdn respond
  handle_cdn-miss env q e s node ct body c a = elim (Option-cases (fetch_origin env e.guard).1) [
    | inl n ↦ ground (arith, c, n)
    | inr (r, n) ↦ ground (arith, c, n)
  ]

  purged_state :
      (net : Net) (path : Str) (e : Edge) (s : R.Store)
      → path ≢ []
      → let st = (handle_purge R net (codes "POST") path (e, s)).0 in
        let gone = cache_delete R net (build_cache_key (codes "GET") path) e.cache s in
        (st.0.cache ≡ gone.0) × (st.1 ≡ gone.1)
  unfolding handle_purge
  purged_state net [] e s named = absurd (named refl)
  purged_state net (x ∷ xs) e s named = ground arith

  module _ (law : IsRedis R) where
    -- A `GET` request that the origin answered with status 200, after a look into the cache that Redis was
    -- up for and answered, is answered from the cache the next time, with the same body, until its time to
    -- live, not -1 ns, is over, whatever becomes of the later calls to Redis and of the probes between the
    -- two requests.
    pub handle_cdn-handle_cdn :
        (env env' : Env) (q : Request) (e : Edge) (s : R.Store) (node ct body : Str)
        (shielded : Bool) (ps : List (ℕ × Bool))
        → IsLinked e.cache.fallback
        → e.cache.redis_ok ≡ true
        → env.get_net ≡ answered
        → q.method ≡ codes "GET"
        → (handle_cdn hash sniff R env q (e, s)).1 ≡ fetched node 200 ct body shielded
        → determine_ttl e.default_ttl q.path ≢ keep_ttl
        → env.get_at ≤ env'.get_at
        → expired env'.get_at (expiry env.set_at (determine_ttl e.default_ttl q.path)) ≡ false
        → (handle_cdn hash sniff R env' q (probed R ps (handle_cdn hash sniff R env q (e, s)).0)).1
          ≡ hit (get_node hash e.ring q.path) (detect_content_type sniff q.path body) body
    unfolding probed
    handle_cdn-handle_cdn env env' q e s node ct body shielded ps linked up yes_net get a lives
          later alive =
        let key = build_cache_key q.method q.path in
        let c = (cache_get R env.get_net env.get_at key e.cache s).0 in
        let st = (handle_cdn hash sniff R env q (e, s)).0 in
        let (same, kept, ring) = fetched_state env q e s node ct body shielded get a in
        let missed = fetched-missed env q e s node ct body shielded a in
        let absent : R.read env'.get_at key s ≡ none =
          law.read_absent env.get_at env'.get_at key s later
            (cache_get-absent R env.get_net env.get_at key e.cache s up yes_net missed) in
        let found : (cache_get R env'.get_net env'.get_at key (probes ps st.0.cache) st.1).1
            ≡ some body =
          rw (same, kept)
            (cache_get-probes-cache_set R law env.set_net env.size_net env'.get_net env.set_at
              env'.get_at key body (determine_ttl e.default_ttl q.path) ps c s
              (cache_get-IsLinked R env.get_net env.get_at key e.cache s linked) lives alive
              absent) in
        handle_cdn-hit env' q (probed R ps st).0 st.1 body found
        ∙ ap (λ r. hit (get_node hash r q.path) (detect_content_type sniff q.path body) body) ring

    -- A path that the warmer prefetched is answered from the cache, until its time to live is over, where
    -- no probe comes in between.
    pub handle_cdn-prefetch :
        (env : Env) (put sizing : Net) (now : ℕ) (body : Str) (pa : PathAccess) (w : Warmer)
        (e : Edge) (s : R.Store)
        → IsLinked e.cache.fallback
        → expired env.get_at (expiry now (prefetch_ttl pa.ttl)) ≡ false
        → let (_, cache, s') = prefetch R put sizing now (some body) pa (w, e.cache, s) in
          (handle_cdn hash sniff R env
            (record { method = codes "GET"; path = pa.path })
            (record e { cache = cache }, s')).1
          ≡ hit (get_node hash e.ring pa.path) (detect_content_type sniff pa.path body) body
    unfolding prefetch build_cache_key
    handle_cdn-prefetch env put sizing now body pa w e s linked alive =
        let c =
          cache_set R put sizing now (codes "cdn:GET:" ++ pa.path) body (prefetch_ttl pa.ttl)
            e.cache s in
        handle_cdn-hit env (record { method = codes "GET"; path = pa.path })
          (record e { cache = c.0 }) c.1 body
          (cache_get-cache_set R law put sizing env.get_net now env.get_at
            (codes "cdn:GET:" ++ pa.path) body (prefetch_ttl pa.ttl) e.cache s linked (λ h. cc)
            alive)

    -- A path that was purged while Redis answered is not answered from the cache.
    pub handle_cdn-handle_purge :
        (env : Env) (path : Str) (e : Edge) (s : R.Store) (node ct body : Str)
        → IsLinked e.cache.fallback
        → e.cache.redis_ok ≡ true
        → path ≢ []
        → (handle_cdn hash sniff R env
            (record { method = codes "GET"; path = path })
            (handle_purge R answered (codes "POST") path (e, s)).0).1
          ≢ hit node ct body
    handle_cdn-handle_purge env path e s node ct body linked up named =
        let key = build_cache_key (codes "GET") path in
        let q : Request = record { method = codes "GET"; path = path } in
        let st = (handle_purge R answered (codes "POST") path (e, s)).0 in
        let (same, kept) = purged_state answered path e s named in
        let gone : (cache_get R env.get_net env.get_at key st.0.cache st.1).1 ≡ none =
          rw (same, kept)
            (cache_get-cache_delete R law env.get_net env.get_at key e.cache s linked up) in
        handle_cdn-miss env q st.0 st.1 node ct body gone
