-- ===== src/Cache/Redis/Counts.antt =====
-- internal/cache/cache.go: the counters of the cache, and the snapshot that `GetStats` takes of them, over
-- the floats `F`. Also the options of the client with their defaults.
use edge_cdn.Base.{
  ℕ, ◌+◌, ◌^◌, ◌≤◌, ◌<◌, ◌≡◌, Bool, true, false, List, [], ◌∷◌, length, ltb, if◌then◌else◌, arith,
  Bool-cases, Option-cases, inl, inr,
}
use edge_cdn.Base.Text.{Str, codes}
use edge_cdn.Base.Int.{ℤ}
use edge_cdn.Base.Floats.{Float, IsFloat}
use edge_cdn.Cache.Lru.{lru_get}
use edge_cdn.Cache.Redis.{
  Redis, Net, answered, refused, lost, Stats, RedisCache, new_redis_cache, probe_redis, cache_get,
  cache_set, cache_delete,
}

pub record StatsSnapshot (Real : Type 0) : Type 0 where
  pub hits : ℕ
  pub misses : ℕ
  pub sets : ℕ
  pub deletes : ℕ
  pub evictions : ℕ
  pub errors : ℕ
  pub hit_ratio : Real
  pub entry_count : ℕ

-- `Snapshot`, while no other method runs.
unfoldable pub snapshot : (F : Float) → Stats → StatsSnapshot F.Real
snapshot F s =
    let total = s.hits + s.misses in
    record {
      hits = s.hits;
      misses = s.misses;
      sets = s.sets;
      deletes = s.deletes;
      evictions = s.evictions;
      errors = s.errors;
      hit_ratio = if ltb 0 total then F.div (F.of_nat s.hits) (F.of_nat total) else F.of_nat 0;
      entry_count = s.entry_count;
    }

unfoldable pub get_stats : (F : Float) → RedisCache → StatsSnapshot F.Real
unfolding snapshot
get_stats F rc = snapshot F rc.stats

-- The times are nanoseconds.
pub record RedisConfig : Type 0 where
  pub url : Str
  pub max_retries : ℕ
  pub pool_size : ℕ
  pub min_idle_conns : ℕ
  pub dial_timeout : ℕ
  pub read_timeout : ℕ
  pub write_timeout : ℕ

unfoldable pub default_redis_config : RedisConfig
default_redis_config = record {
  url = codes "localhost:6379";
  max_retries = 3;
  pool_size = 50;
  min_idle_conns = 10;
  dial_timeout = 5_000_000_000;
  read_timeout = 3_000_000_000;
  write_timeout = 3_000_000_000;
}

-- The options that `New` asks for.
unfoldable pub new_cache_config : Str → RedisConfig
unfolding default_redis_config
new_cache_config redis_url =
    if ltb 0 (length redis_url)
    then record default_redis_config { url = redis_url }
    else default_redis_config

-- A call of a method, with what becomes of its calls to Redis, or a probe.
pub data Call : Type 0 where
  gets : Net → ℕ → Str → Call
  puts : Net → Net → ℕ → Str → Str → ℤ → Call
  drops : Net → Str → Call
  probes : ℕ → Bool → Call

abbrev pub one_if : Bool → ℕ
one_if b = if b then 1 else 0

abbrev pub is_get : Call → Bool
is_get (gets net now k) = true
is_get (puts net sizing now k v ttl) = false
is_get (drops net k) = false
is_get (probes now ping) = false

abbrev pub is_put : Call → Bool
is_put (gets net now k) = false
is_put (puts net sizing now k v ttl) = true
is_put (drops net k) = false
is_put (probes now ping) = false

abbrev pub is_drop : Call → Bool
is_drop (gets net now k) = false
is_drop (puts net sizing now k v ttl) = false
is_drop (drops net k) = true
is_drop (probes now ping) = false

unfoldable pub count : (Call → Bool) → List Call → ℕ
count t [] = 0
count t (c ∷ cs) = one_if (t c) + count t cs

count-le-length : (t : Call → Bool) (cs : List Call) → count t cs ≤ length cs
unfolding count
count-le-length t [] = omega arith
count-le-length t (c ∷ cs) = ground (arith, count-le-length t cs)

module _ (R : Redis) where
  unfoldable pub call : Call → RedisCache × R.Store → RedisCache × R.Store
  call (gets net now k) (rc, s) = ((cache_get R net now k rc s).0, s)
  call (puts net sizing now k v ttl) (rc, s) = cache_set R net sizing now k v ttl rc s
  call (drops net k) (rc, s) = cache_delete R net k rc s
  call (probes now ping) (rc, s) = (probe_redis now ping rc, s)

  unfoldable pub calls : List Call → RedisCache × R.Store → RedisCache × R.Store
  unfolding call
  calls [] c = c
  calls (o ∷ os) c = calls os (call o c)

  -- What a call adds to the counters.
  call_counts :
      (o : Call) (rc : RedisCache) (s : R.Store)
      → let t = (call o (rc, s)).0.stats in
        (t.hits + t.misses ≡ one_if (is_get o) + (rc.stats.hits + rc.stats.misses))
        × (t.sets ≡ one_if (is_put o) + rc.stats.sets)
        × (t.deletes ≡ one_if (is_drop o) + rc.stats.deletes)
        × (t.evictions ≤ one_if (is_put o) + rc.stats.evictions)
        × (t.errors ≤ 1 + rc.stats.errors)
  unfolding call cache_get cache_set cache_delete probe_redis
  call_counts (gets answered now k) rc s =
      ground (arith, Option-cases (R.read now k s), Option-cases (lru_get now k rc.fallback).1)
  call_counts (gets refused now k) rc s = ground (arith, Option-cases (lru_get now k rc.fallback).1)
  call_counts (gets lost now k) rc s = ground (arith, Option-cases (lru_get now k rc.fallback).1)
  call_counts (puts answered answered now k v ttl) rc s = ground arith
  call_counts (puts answered refused now k v ttl) rc s = ground arith
  call_counts (puts answered lost now k v ttl) rc s = ground arith
  call_counts (puts refused sizing now k v ttl) rc s = ground arith
  call_counts (puts lost sizing now k v ttl) rc s = ground arith
  call_counts (drops answered k) rc s = ground arith
  call_counts (drops refused k) rc s = ground arith
  call_counts (drops lost k) rc s = ground arith
  call_counts (probes now ping) rc s = ground arith

  calls_counts :
      (os : List Call) (rc : RedisCache) (s : R.Store)
      → let t = (calls os (rc, s)).0.stats in
        (t.hits + t.misses ≡ count is_get os + (rc.stats.hits + rc.stats.misses))
        × (t.sets ≡ count is_put os + rc.stats.sets)
        × (t.deletes ≡ count is_drop os + rc.stats.deletes)
        × (t.evictions ≤ count is_put os + rc.stats.evictions)
        × (t.errors ≤ length os + rc.stats.errors)
  unfolding calls count
  calls_counts [] rc s = ground arith
  calls_counts (o ∷ os) rc s =
      let (rc', s') = call o (rc, s) in
      let (a, b, c, d, e) = call_counts o rc s in
      let (a', b', c', d', e') = calls_counts os rc' s' in
      (
        omega (arith, a, a'),
        omega (arith, b, b'),
        omega (arith, c, c'),
        omega (arith, d, d'),
        omega (arith, e, e'),
      )

  module _ (F : Float) (law : IsFloat F) where
    open F use {le, of_nat}

    hit_ratio_bounds :
        (t : Stats)
        → t.hits + t.misses < 2 ^ 63
        → (le (of_nat 0) (snapshot F t).hit_ratio ≡ true)
          × (le (snapshot F t).hit_ratio (of_nat 1) ≡ true)
    unfolding snapshot
    hit_ratio_bounds t small = elim (Bool-cases (ltb 0 (t.hits + t.misses))) [
      | inl y ↦
          rw y (law.div_bounds t.hits (t.hits + t.misses) (omega arith) (ground (arith, y)) small)
      | inr n ↦ rw n (law.of_nat_le 0 0 (omega arith), law.of_nat_le 0 1 (omega arith))
    ]

    -- After any calls and probes, whatever becomes of the calls to Redis, the counters of a new cache
    -- show how many calls there were: each `Get` is a hit or a miss. There are at most as many evictions
    -- as calls of `Set`, and at most as many errors as calls. With fewer than 2^63 calls, the ratio of the
    -- hits lies from 0 to 1.
    pub get_stats-calls :
        (fallback_size : ℤ) (ping : Bool) (os : List Call) (s : R.Store)
        → length os < 2 ^ 63
        → let shown = get_stats F (calls os (new_redis_cache fallback_size ping, s)).0 in
          (shown.hits + shown.misses ≡ count is_get os)
          × (shown.sets ≡ count is_put os)
          × (shown.deletes ≡ count is_drop os)
          × (shown.evictions ≤ shown.sets)
          × (shown.errors ≤ length os)
          × (le (of_nat 0) shown.hit_ratio ≡ true)
          × (le shown.hit_ratio (of_nat 1) ≡ true)
    unfolding get_stats new_redis_cache
    get_stats-calls fallback_size ping os s small =
        let (a, b, c, d, e) = calls_counts os (new_redis_cache fallback_size ping) s in
        let t = (calls os (new_redis_cache fallback_size ping, s)).0.stats in
        let (low, high) = hit_ratio_bounds t (omega (arith, a, count-le-length is_get os, small)) in
        (
          omega (arith, a),
          omega (arith, b),
          omega (arith, c),
          omega (arith, b, d),
          omega (arith, e),
          low,
          high,
        )
