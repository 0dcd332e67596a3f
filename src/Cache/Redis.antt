-- ===== src/Cache/Redis.antt =====
-- `RedisCache` of internal/cache/cache.go: Redis in front of the LRU map. The Redis server is the
-- parameter `Redis`; what becomes of each call to it is an argument. The logs are left out, and so
-- are the errors that the methods return, which are always nil but for the miss. Each method is one
-- step, and the probe that `Get` starts in the background is a step of its own.
pub mod Tiers
pub mod Outage
pub mod Counts
use edge_cdn.Base.{
  ℕ, ◌+◌, ◌-◌, Bool, true, false, Option, none, some, ◌≡◌, ◌≢◌, ◌≤◌, ltb, if◌then◌else◌,
}
use edge_cdn.Base.Text.{Str}
use edge_cdn.Base.Int.{ℤ, pos, negsuc, positive_or}
use edge_cdn.Cache.Recency.{expired, expiry}
use edge_cdn.Cache.Lru.{Lru, new_lru_cache, lru_get, lru_set, lru_delete, lru_len}

-- What the program uses of a Redis server: GET, SET with a time to live, DEL and DBSIZE.
pub record Redis : Type 1 where
  pub Store : Type 0
  pub read : ℕ → Str → Store → Option Str
  pub write : ℕ → Str → Str → ℤ → Store → Store
  pub remove : Str → Store → Store
  pub size : Store → ℕ

-- `KeepTTL` of the client, -1 ns, which leaves the time to live that the key had.
abbrev pub keep_ttl : ℤ
keep_ttl = negsuc 0

-- What Redis promises of them: a value that was set is read until it expires, a key that was
-- deleted is not, and a key that is not there does not come back by itself.
pub record IsRedis (R : Redis) : Type 0 where
  pub read_write :
      (now later : ℕ) (k v : Str) (ttl : ℤ) (s : R.Store)
      → ttl ≢ keep_ttl
      → expired later (expiry now ttl) ≡ false
      → R.read later k (R.write now k v ttl s) ≡ some v
  pub read_remove : (now : ℕ) (k : Str) (s : R.Store) → R.read now k (R.remove k s) ≡ none
  pub read_absent :
      (now later : ℕ) (k : Str) (s : R.Store)
      → now ≤ later
      → R.read now k s ≡ none
      → R.read later k s ≡ none

-- A call to the server: it was answered, it did not reach the server, or its answer was lost.
pub data Net : Type 0 where
  answered refused lost : Net

pub record Stats : Type 0 where
  pub hits : ℕ
  pub misses : ℕ
  pub sets : ℕ
  pub deletes : ℕ
  pub evictions : ℕ
  pub errors : ℕ
  pub entry_count : ℕ

-- A `last_probe` of `none` is the zero time. `probing` counts the probes started and not yet run.
pub record RedisCache : Type 0 where
  pub fallback : Lru
  pub stats : Stats
  pub redis_ok : Bool
  pub last_probe : Option ℕ
  pub probing : ℕ

abbrev no_stats : Stats
no_stats = record {
  hits = 0;
  misses = 0;
  sets = 0;
  deletes = 0;
  evictions = 0;
  errors = 0;
  entry_count = 0;
}

-- `NewRedisCache`, with whether the server answered its ping.
unfoldable pub new_redis_cache : ℤ → Bool → RedisCache
new_redis_cache fallback_size ping = record {
  fallback = new_lru_cache fallback_size;
  stats = no_stats;
  redis_ok = ping;
  last_probe = none;
  probing = 0;
}

-- `New`, for the size of the LRU map.
unfoldable pub new_cache : ℤ → Bool → RedisCache
unfolding new_redis_cache
new_cache lru_size ping = new_redis_cache (pos (positive_or 10_000 lru_size)) ping

abbrev pub five_seconds : ℕ
five_seconds = 5_000_000_000

-- `time.Since(rc.lastProbe) < 5*time.Second`
abbrev probed_lately : ℕ → Option ℕ → Bool
probed_lately now none = false
probed_lately now (some t) = ltb (now - t) five_seconds

-- `probeRedis`, with whether the server answers its ping.
unfoldable pub probe_redis : ℕ → Bool → RedisCache → RedisCache
probe_redis now ping rc =
    let rc' = record rc { probing = rc.probing - 1 } in
    if probed_lately now rc.last_probe
    then rc'
    else record rc' { last_probe = some now; redis_ok = if ping then true else rc.redis_ok }

hit : RedisCache → RedisCache
hit rc = record rc { stats = record rc.stats { hits = rc.stats.hits + 1 } }

miss : RedisCache → RedisCache
miss rc = record rc { stats = record rc.stats { misses = rc.stats.misses + 1 } }

fault : RedisCache → RedisCache
fault rc = record rc { stats = record rc.stats { errors = rc.stats.errors + 1 } }

-- `redisOK.Store(false)` and the error's count.
disconnect : RedisCache → RedisCache
unfolding fault
disconnect rc = record (fault rc) { redis_ok = false }

-- `Get` from the LRU map on; `none` is `ErrCacheMiss`.
get_fallback : ℕ → Str → RedisCache → RedisCache × Option Str
unfolding hit miss
get_fallback now key rc =
    let rc' = record rc { fallback = (lru_get now key rc.fallback).0 } in
    elim ((lru_get now key rc.fallback).1) [ some v ↦ (hit rc', some v) | none ↦ (miss rc', none) ]

module _ (R : Redis) where
  open R use {Store, read, write, remove, size}

  -- `Get` where Redis is thought to be up.
  get_redis : Net → ℕ → Str → RedisCache → Store → RedisCache × Option Str
  unfolding disconnect hit get_fallback
  get_redis answered now key rc s = elim (read now key s) [
    | some v ↦ (hit rc, some v)
    | none ↦ get_fallback now key rc
  ]
  get_redis refused now key rc s = get_fallback now key (disconnect rc)
  get_redis lost now key rc s = get_fallback now key (disconnect rc)

  unfoldable pub cache_get : Net → ℕ → Str → RedisCache → Store → RedisCache × Option Str
  unfolding get_redis get_fallback
  cache_get net now key rc s =
      if rc.redis_ok
      then get_redis net now key rc s
      else get_fallback now key (record rc { probing = rc.probing + 1 })

  -- The answer of DBSIZE.
  count_entries : Net → Store → RedisCache → RedisCache
  count_entries answered s rc = record rc { stats = record rc.stats { entry_count = size s } }
  count_entries _ s rc = rc

  -- `Set` at the server.
  set_redis : Net → Net → ℕ → Str → Str → ℤ → RedisCache → Store → RedisCache × Store
  unfolding disconnect count_entries
  set_redis answered sizing now key value ttl rc s =
      let s' = write now key value ttl s in (count_entries sizing s' rc, s')
  set_redis refused sizing now key value ttl rc s = (disconnect rc, s)
  set_redis lost sizing now key value ttl rc s = (disconnect rc, write now key value ttl s)

  -- `Set`, with what becomes of SET and of DBSIZE.
  unfoldable pub cache_set : Net → Net → ℕ → Str → Str → ℤ → RedisCache → Store → RedisCache × Store
  unfolding set_redis
  cache_set net sizing now key value ttl rc s =
      let (fallback, evicted) = lru_set now key value ttl rc.fallback in
      let rc' = record rc {
        fallback = fallback;
        stats = record rc.stats {
          sets = rc.stats.sets + 1;
          evictions = if evicted then rc.stats.evictions + 1 else rc.stats.evictions;
          entry_count = lru_len fallback;
        };
      } in
      if rc.redis_ok then set_redis net sizing now key value ttl rc' s else (rc', s)

  -- `Delete` at the server.
  delete_redis : Net → Str → RedisCache → Store → RedisCache × Store
  unfolding fault
  delete_redis answered key rc s = (rc, remove key s)
  delete_redis refused key rc s = (fault rc, s)
  delete_redis lost key rc s = (fault rc, remove key s)

  unfoldable pub cache_delete : Net → Str → RedisCache → Store → RedisCache × Store
  unfolding delete_redis
  cache_delete net key rc s =
      let rc' = record rc {
        fallback = lru_delete key rc.fallback;
        stats = record rc.stats { deletes = rc.stats.deletes + 1 };
      } in
      if rc.redis_ok then delete_redis net key rc' s else (rc', s)
