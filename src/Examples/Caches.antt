-- ===== src/Examples/Caches.antt =====
-- The cache (internal/cache) with two places and a small server.
use edge_cdn.Base.{◌≡◌, ◌≢◌, refl, none, some, List, [], ◌∷◌, true, false, arith}
use edge_cdn.Base.Text.{Str, str_dec, codes}
use edge_cdn.Base.Int.{pos}
use edge_cdn.Cache.Recency.{Op, get, set, got, was_set, replies, step, find, drop, init}
use edge_cdn.Cache.Lru.{Lru, new_lru_cache}
use edge_cdn.Cache.Lru.Links.{IsLinked}
use edge_cdn.Cache.Lru.Refines.{run_ops, run_replies, run_ops-IsLinked, run_replies-replies}
use edge_cdn.Cache.Redis.{RedisCache, answered, refused, new_redis_cache}
use edge_cdn.Base.{◌+◌, ◌≤◌, leb, List, arith, true}
use edge_cdn.Cache.Redis.Counts.{Call, gets, puts, drops, count, calls, get_stats, get_stats-calls}
use edge_cdn.Examples.Gateways.{numbers}
use edge_cdn.Examples.Retries.{numbers-IsFloat}
use edge_cdn.Examples.Store.{Held, toy_redis}

abbrev a : Str
a = codes "a"

abbrev b : Str
b = codes "b"

abbrev c : Str
c = codes "c"

-- Three keys in two places: the one that was used is kept, and the other goes.
abbrev three_sets : List Op
three_sets =
    set 0 a (codes "1") (pos 50)
    ∷ set 1 b (codes "2") (pos 50)
    ∷ get 2 a
    ∷ set 3 c (codes "3") (pos 50)
    ∷ get 4 b
    ∷ get 5 a
    ∷ get 90 a
    ∷ []

replies_of_sets :
    replies 2 three_sets []
    ≡ was_set false
      ∷ was_set false
      ∷ got (some (codes "1"))
      ∷ was_set true
      ∷ got none
      ∷ got (some (codes "1"))
      ∷ got none
      ∷ []
unfolding replies step find drop init str_dec
replies_of_sets = refl

run_replies-replies_example :
    run_replies three_sets (new_lru_cache (pos 2)) ≡ replies 2 three_sets []
run_replies-replies_example = run_replies-replies (pos 2) three_sets

abbrev two_places : Lru
two_places = run_ops three_sets (new_lru_cache (pos 2))

two_places-IsLinked : IsLinked two_places
two_places-IsLinked = run_ops-IsLinked (pos 2) three_sets

a_is_not_b : a ≢ b
a_is_not_b h = absurd (ground arith)

abbrev full : RedisCache
full = record (new_redis_cache (pos 2) true) {
  fallback = two_places;
  redis_ok = true;
  last_probe = none;
}

abbrev stored : List (Str × Held)
stored = (a, (codes "old", none)) ∷ []

old_is_stored : toy_redis.read 100 a stored ≡ some (codes "old")
unfolding str_dec
old_is_stored = refl

abbrev cut : RedisCache
cut = record full { redis_ok = false }

-- A miss, a Set, a hit in the LRU map while Redis refuses the call, and a Delete.
abbrev some_calls : List Call
some_calls =
    gets answered 1 (codes "k")
    ∷ puts answered answered 2 (codes "k") (codes "v") (pos 0)
    ∷ gets refused 3 (codes "k")
    ∷ drops answered (codes "k")
    ∷ []

get_stats-calls_example :
    let shown =
      get_stats numbers (calls toy_redis some_calls (new_redis_cache (pos 2) true, [])).0 in
    (shown.hits + shown.misses ≡ 2)
    × (shown.sets ≡ 1)
    × (shown.deletes ≡ 1)
    × (shown.evictions ≤ shown.sets)
    × (shown.errors ≤ 4)
    × (leb 0 shown.hit_ratio ≡ true)
    × (leb shown.hit_ratio 1 ≡ true)
unfolding count
get_stats-calls_example =
    get_stats-calls toy_redis numbers numbers-IsFloat (pos 2) true some_calls [] (omega arith)
