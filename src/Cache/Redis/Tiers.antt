-- ===== src/Cache/Redis/Tiers.antt =====
-- The two tiers together: what was set is returned, and what was deleted is not.
use edge_cdn.Base.{
  ℕ, ◌≡◌, ◌≢◌, refl, ◌⊎◌, Bool, List, [], ◌∷◌, none, some, true, false, arith, Option-cases,
}
use edge_cdn.Base.Text.{Str}
use edge_cdn.Base.Int.{ℤ}
use edge_cdn.Cache.Recency.{expired, expiry}
use edge_cdn.Cache.Lru.{Lru, lru_get}
use edge_cdn.Cache.Lru.Links.{IsLinked}
use edge_cdn.Cache.Lru.Refines.{run_op, get-Refines}
use edge_cdn.Cache.Lru.Retains.{lru_get-lru_set_self, lru_get-lru_delete}
use edge_cdn.Cache.Redis.{
  Redis, IsRedis, keep_ttl, Net, answered, RedisCache, probe_redis, cache_get, cache_set,
  cache_delete,
}

lru_get-IsLinked : (now : ℕ) (k : Str) (l : Lru) → IsLinked l → IsLinked (lru_get now k l).0
unfolding run_op
lru_get-IsLinked now k l v = (get-Refines now k l v).0

-- A `Get` keeps the map and the list of the LRU map in agreement.
pub cache_get-IsLinked :
    (R : Redis) (look : Net) (now : ℕ) (k : Str) (rc : RedisCache) (s : R.Store)
    → IsLinked rc.fallback
    → IsLinked (cache_get R look now k rc s).0.fallback
unfolding cache_get
cache_get-IsLinked R look now k rc s v = ground (
  arith,
  lru_get-IsLinked now k rc.fallback v,
  Option-cases (lru_get now k rc.fallback).1,
  Option-cases (R.read now k s),
)

-- Some probes, each with its time and whether the server answered.
unfoldable pub probes : List (ℕ × Bool) → RedisCache → RedisCache
probes [] rc = rc
probes ((now, ping) ∷ ps) rc = probes ps (probe_redis now ping rc)

probes-fallback : (ps : List (ℕ × Bool)) (rc : RedisCache) → (probes ps rc).fallback ≡ rc.fallback
unfolding probes probe_redis
probes-fallback [] rc = refl
probes-fallback ((now, ping) ∷ ps) rc = ground (arith, probes-fallback ps (probe_redis now ping rc))

-- A `Get` that Redis answered found nothing there if it missed.
pub cache_get-absent :
    (R : Redis) (look : Net) (now : ℕ) (k : Str) (rc : RedisCache) (s : R.Store)
    → rc.redis_ok ≡ true
    → look ≡ answered
    → (cache_get R look now k rc s).1 ≡ none
    → R.read now k s ≡ none
unfolding cache_get
cache_get-absent R look now k rc s up yes_net e =
    ground (arith, up, yes_net, e, Option-cases (R.read now k s))

module _ (R : Redis) (law : IsRedis R) where
  -- A value that was set, with any time to live but -1 ns, is returned until it expires, whatever
  -- becomes of the calls to Redis.
  pub cache_get-cache_set :
      (put sizing look : Net) (now later : ℕ) (k v : Str) (ttl : ℤ) (rc : RedisCache) (s : R.Store)
      → IsLinked rc.fallback
      → ttl ≢ keep_ttl
      → expired later (expiry now ttl) ≡ false
      → let (rc', s') = cache_set R put sizing now k v ttl rc s in
        (cache_get R look later k rc' s').1 ≡ some v
  unfolding cache_set cache_get
  cache_get-cache_set put sizing look now later k v ttl rc s linked kept alive = ground (
    arith,
    law.read_write now later k v ttl s kept alive,
    lru_get-lru_set_self k v ttl now later rc.fallback linked alive,
  )

  -- A value that the LRU map has is returned where Redis has no other.
  cache_get-agreed :
      (look : Net) (later : ℕ) (k v : Str) (rc : RedisCache) (s : R.Store)
      → (lru_get later k rc.fallback).1 ≡ some v
      → (R.read later k s ≡ none) ⊎ (R.read later k s ≡ some v)
      → (cache_get R look later k rc s).1 ≡ some v
  unfolding cache_get
  cache_get-agreed look later k v rc s e agreed = ground (arith, e, agreed)

  cache_set-agreed :
      (put sizing : Net) (now later : ℕ) (k v : Str) (ttl : ℤ) (rc : RedisCache) (s : R.Store)
      → ttl ≢ keep_ttl
      → expired later (expiry now ttl) ≡ false
      → R.read later k s ≡ none
      → let s' = (cache_set R put sizing now k v ttl rc s).1 in
        (R.read later k s' ≡ none) ⊎ (R.read later k s' ≡ some v)
  unfolding cache_set
  cache_set-agreed put sizing now later k v ttl rc s kept alive absent =
      ground (arith, absent, law.read_write now later k v ttl s kept alive)

  cache_set-lru_get :
      (put sizing : Net) (now later : ℕ) (k v : Str) (ttl : ℤ) (rc : RedisCache) (s : R.Store)
      → IsLinked rc.fallback
      → expired later (expiry now ttl) ≡ false
      → (lru_get later k (cache_set R put sizing now k v ttl rc s).0.fallback).1 ≡ some v
  unfolding cache_set
  cache_set-lru_get put sizing now later k v ttl rc s linked alive =
      ground (arith, lru_get-lru_set_self k v ttl now later rc.fallback linked alive)

  -- A value that was set under a key that Redis had no value of is returned until it expires, whatever
  -- becomes of the calls to Redis and of the probes in between.
  pub cache_get-probes-cache_set :
      (put sizing look : Net) (now later : ℕ) (k v : Str) (ttl : ℤ) (ps : List (ℕ × Bool))
      (rc : RedisCache) (s : R.Store)
      → IsLinked rc.fallback
      → ttl ≢ keep_ttl
      → expired later (expiry now ttl) ≡ false
      → R.read later k s ≡ none
      → let (rc', s') = cache_set R put sizing now k v ttl rc s in
        (cache_get R look later k (probes ps rc') s').1 ≡ some v
  cache_get-probes-cache_set put sizing look now later k v ttl ps rc s linked kept alive absent =
      let (rc', s') = cache_set R put sizing now k v ttl rc s in
      let held : (lru_get later k (probes ps rc').fallback).1 ≡ some v =
        rw (probes-fallback ps rc')
          (cache_set-lru_get put sizing now later k v ttl rc s linked alive) in
      cache_get-agreed look later k v (probes ps rc') s' held
        (cache_set-agreed put sizing now later k v ttl rc s kept alive absent)

  -- A key that was deleted while Redis answered is missing, whatever becomes of the next call to Redis.
  pub cache_get-cache_delete :
      (look : Net) (now : ℕ) (k : Str) (rc : RedisCache) (s : R.Store)
      → IsLinked rc.fallback
      → rc.redis_ok ≡ true
      → let (rc', s') = cache_delete R answered k rc s in (cache_get R look now k rc' s').1 ≡ none
  unfolding cache_delete cache_get
  cache_get-cache_delete look now k rc s linked up =
      ground (arith, law.read_remove now k s, lru_get-lru_delete k now rc.fallback linked)
