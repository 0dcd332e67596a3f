-- ===== src/Cache/Redis/Outage.antt =====
-- What an outage of Redis does to the cache.
use edge_cdn.Base.{ℕ, ◌≡◌, refl, none, some, List, [], ◌∷◌, true, false, arith, Option-cases}
use edge_cdn.Base.Text.{Str}
use edge_cdn.Base.Int.{ℤ}
use edge_cdn.Cache.Recency.{Op, get, set, delete}
use edge_cdn.Cache.Lru.{Lru, lru_get}
use edge_cdn.Cache.Lru.Refines.{run_op, run_ops}
use edge_cdn.Cache.Redis.{
  Redis, Net, answered, refused, RedisCache, probe_redis, cache_get, cache_set, cache_delete,
}

module _ (R : Redis) where
  -- A `Delete` that does not reach Redis reports no error, and the next `Get` that reaches Redis
  -- returns the deleted value.
  pub refused_delete_serves :
      (now : ℕ) (k old : Str) (rc : RedisCache) (s : R.Store)
      → rc.redis_ok ≡ true
      → R.read now k s ≡ some old
      → let (rc', s') = cache_delete R refused k rc s in
        (cache_get R answered now k rc' s').1 ≡ some old
  unfolding cache_delete cache_get
  refused_delete_serves now k old rc s up e = ground (arith, e)

  -- A `Set` that does not reach Redis keeps the old value there, and it is returned again, in place of
  -- the new one, once a probe finds Redis up.
  pub refused_set_serves_old :
      (now later : ℕ) (k old value : Str) (ttl : ℤ) (sizing : Net) (rc : RedisCache) (s : R.Store)
      → rc.redis_ok ≡ true
      → rc.last_probe ≡ none
      → R.read later k s ≡ some old
      → let (rc', s') = cache_set R refused sizing now k value ttl rc s in
        (cache_get R answered later k (probe_redis later true rc') s').1 ≡ some old
  unfolding cache_set cache_get probe_redis
  refused_set_serves_old now later k old value ttl sizing rc s up never e = ground (arith, e)

  -- An operation on the cache; `net` is what becomes of its calls to Redis.
  cache_op : Net → Op → RedisCache × R.Store → RedisCache × R.Store
  cache_op net (get now k) (rc, s) = ((cache_get R net now k rc s).0, s)
  cache_op net (set now k v ttl) (rc, s) = cache_set R net net now k v ttl rc s
  cache_op net (delete k) (rc, s) = cache_delete R net k rc s

  pub cache_ops : Net → List Op → RedisCache × R.Store → RedisCache × R.Store
  cache_ops net [] c = c
  cache_ops net (o ∷ os) c = cache_ops net os (cache_op net o c)

  IsCut : Lru → R.Store → RedisCache × R.Store → Type 0
  IsCut l s c = (c.0.fallback ≡ l) × (c.1 ≡ s) × (c.0.redis_ok ≡ false)

  cache_op-IsCut :
      (net : Net) (o : Op) (l : Lru) (s : R.Store) (c : RedisCache × R.Store)
      → IsCut l s c
      → IsCut (run_op o l).0 s (cache_op net o c)
  unfolding IsCut cache_op run_op cache_get cache_set cache_delete
  cache_op-IsCut net (get now k) l s c cut = ground (arith, cut, Option-cases (lru_get now k l).1)
  cache_op-IsCut net (set now k v ttl) l s c cut = ground (arith, cut)
  cache_op-IsCut net (delete k) l s c cut = ground (arith, cut)

  cache_ops-IsCut :
      (net : Net) (os : List Op) (l : Lru) (s : R.Store) (c : RedisCache × R.Store)
      → IsCut l s c
      → IsCut (run_ops os l) s (cache_ops net os c)
  unfolding cache_ops run_ops
  cache_ops-IsCut net [] l s c cut = cut
  cache_ops-IsCut net (o ∷ os) l s c cut =
      cache_ops-IsCut net os (run_op o l).0 s (cache_op net o c) (cache_op-IsCut net o l s c cut)

  -- While Redis is thought to be down and no probe succeeds, the cache returns what its LRU map
  -- alone would return, and leaves Redis as it is.
  pub cache_get-run_ops :
      (net : Net) (os : List Op) (later : ℕ) (k : Str) (rc : RedisCache) (s : R.Store)
      → rc.redis_ok ≡ false
      → let c = cache_ops net os (rc, s) in
        ((cache_get R net later k c.0 c.1).1 ≡ (lru_get later k (run_ops os rc.fallback)).1)
        × (c.1 ≡ s)
  unfolding IsCut cache_get
  cache_get-run_ops net os later k rc s down =
      let (same, kept, still) = cache_ops-IsCut net os rc.fallback s (rc, s) (refl, refl, down) in
      ground (arith, same, kept, still, Option-cases (lru_get later k (run_ops os rc.fallback)).1)
