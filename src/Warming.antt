-- ===== src/Warming.antt =====
-- internal/warming/warming.go: the cache warmer. What the origin answers to a prefetch, the clock and
-- what becomes of the calls to Redis are arguments. The prefetches of a cycle are made one after the
-- other, in the order of the hot paths; the code runs a few of them at a time. The order in which
-- `sort.Slice` leaves paths of the same count follows from the order of the map, which Go leaves open.
pub mod Hot
pub mod Loop
use edge_cdn.Base.{
  ℕ, ◌+◌, ◌-◌, Bool, true, false, Option, none, some, List, [], ◌∷◌, ◌++◌, ltb, leb, ◌==◌,
  if◌then◌else◌, length, zero, suc,
}
use edge_cdn.Base.Text.{Str, str_dec, codes}
use edge_cdn.Base.Int.{ℤ, pos, negsuc, positive_or}
use edge_cdn.Base.Maps.{lookup, insert}
use edge_cdn.Cache.Redis.{Redis, Net, RedisCache, cache_set}

-- The configuration as `New` leaves it; the times of the ticker and of a prefetch are left out, and the
-- number of prefetches at a time too.
pub record Config : Type 0 where
  pub max_prefetch_paths : ℕ
  pub prefetch_threshold : ℕ
  pub tracking_window : ℕ

-- `DefaultConfig`
unfoldable pub default_config : Config
default_config = record {
  max_prefetch_paths = 100;
  prefetch_threshold = 3;
  tracking_window = 300_000_000_000;
}

pub record PathAccess : Type 0 where
  pub path : Str
  pub count : ℕ
  pub last_seen : ℕ
  pub ttl : ℤ

-- The last four fields are the Prometheus counters and the gauge.
pub record Warmer : Type 0 where
  pub cfg : Config
  pub accesses : List (Str × PathAccess)
  pub is_running : Bool
  pub stopped : Bool
  pub prefetch_total : ℕ
  pub prefetch_errors : ℕ
  pub tracked_paths : ℕ
  pub warm_cycles : ℕ

unfoldable pub new_warmer : ℤ → ℤ → ℤ → Warmer
new_warmer max_prefetch_paths prefetch_threshold tracking_window = record {
  cfg = record {
    max_prefetch_paths = positive_or 100 max_prefetch_paths;
    prefetch_threshold = positive_or 3 prefetch_threshold;
    tracking_window = positive_or 300_000_000_000 tracking_window;
  };
  accesses = [];
  is_running = false;
  stopped = false;
  prefetch_total = 0;
  prefetch_errors = 0;
  tracked_paths = 0;
  warm_cycles = 0;
}

-- The access of a path after one more.
abbrev seen : ℕ → Str → ℤ → Option PathAccess → PathAccess
seen now path ttl none = record { path = path; count = 1; last_seen = now; ttl = ttl }
seen now path ttl (some acc) = record acc { count = acc.count + 1; last_seen = now; ttl = ttl }

unfoldable pub record_access : ℕ → Str → ℤ → Warmer → Warmer
record_access now path ttl w = record w {
  accesses = insert str_dec path (seen now path ttl (lookup str_dec path w.accesses)) w.accesses;
}

-- `Start` and `Stop`, but for the goroutine, which is in Warming/Loop.
unfoldable pub start : Warmer → Warmer
start w = record w { is_running = true }

unfoldable pub stop : Warmer → Warmer
stop w = if w.stopped then w else record w { stopped = true; is_running = false }

-- The loop of `getHotPaths` over the map.
unfoldable pub over_threshold : ℕ → List (Str × PathAccess) → List PathAccess
over_threshold threshold [] = []
over_threshold threshold ((k, acc) ∷ m) =
    let rest = over_threshold threshold m in if leb threshold acc.count then acc ∷ rest else rest

-- `sort.Slice` by count, the largest first.
unfoldable pub place : PathAccess → List PathAccess → List PathAccess
place a [] = a ∷ []
place a (b ∷ bs) = if leb b.count a.count then a ∷ b ∷ bs else b ∷ place a bs

unfoldable pub by_count : List PathAccess → List PathAccess
by_count [] = []
by_count (a ∷ as_) = place a (by_count as_)

-- `hot[:n]`, where `hot` may be shorter.
unfoldable pub take : ℕ → List PathAccess → List PathAccess
take zero as_ = []
take (suc n) [] = []
take (suc n) (a ∷ as_) = a ∷ take n as_

unfoldable pub get_hot_paths : Warmer → List PathAccess
get_hot_paths w =
    let hot = by_count (over_threshold w.cfg.prefetch_threshold w.accesses) in
    if ltb w.cfg.max_prefetch_paths (length hot) then take w.cfg.max_prefetch_paths hot else hot

unfoldable pub get_hot_paths_list : List PathAccess → List Str
get_hot_paths_list [] = []
get_hot_paths_list (h ∷ hs) = h.path ∷ get_hot_paths_list hs

-- The loop of `pruneOldEntries`.
unfoldable pub recent : ℕ → ℕ → List (Str × PathAccess) → List (Str × PathAccess)
recent now window [] = []
recent now window ((k, acc) ∷ m) =
    let rest = recent now window m in
    if ltb (acc.last_seen + window) now then rest else (k, acc) ∷ rest

unfoldable pub prune_old_entries : ℕ → Warmer → Warmer
prune_old_entries now w = record w { accesses = recent now w.cfg.tracking_window w.accesses }

unfoldable pub path_count : Warmer → ℕ
path_count w = length w.accesses

-- `if ttl <= 0 { ttl = 5 * time.Minute }`
abbrev pub prefetch_ttl : ℤ → ℤ
prefetch_ttl ttl = pos (positive_or 300_000_000_000 ttl)

module _ (R : Redis) where
  -- `prefetch`; `fetched` is the body that the origin returns, or `none` for its error. `Set` of the
  -- cache returns no error.
  unfoldable pub prefetch :
      Net
      → Net
      → ℕ
      → Option Str
      → PathAccess
      → Warmer × RedisCache × R.Store
      → Warmer × RedisCache × R.Store
  prefetch net sizing now fetched pa (w, c, s) =
      let w' = record w { prefetch_total = w.prefetch_total + 1 } in
      elim fetched [
        | none ↦ (record w' { prefetch_errors = w.prefetch_errors + 1 }, c, s)
        | some body ↦
            let (c', s') =
              cache_set R net sizing now (codes "cdn:GET:" ++ pa.path) body (prefetch_ttl pa.ttl) c
                s in
            (w', c', s')
      ]

  -- The loop of `warmCycle`.
  unfoldable pub prefetch_all :
      Net
      → Net
      → ℕ
      → (Str → Option Str)
      → List PathAccess
      → Warmer × RedisCache × R.Store
      → Warmer × RedisCache × R.Store
  prefetch_all net sizing now origin [] st = st
  prefetch_all net sizing now origin (pa ∷ pas) st =
      prefetch_all net sizing now origin pas (prefetch net sizing now (origin pa.path) pa st)

  unfoldable pub warm_cycle :
      Net
      → Net
      → ℕ
      → (Str → Option Str)
      → Warmer × RedisCache × R.Store
      → Warmer × RedisCache × R.Store
  warm_cycle net sizing now origin (w, c, s) =
      let w' = prune_old_entries now (record w { warm_cycles = w.warm_cycles + 1 }) in
      let hot = get_hot_paths w' in
      if length hot == 0
      then (w', c, s)
      else let (w'', c', s') = prefetch_all net sizing now origin hot (w', c, s) in
        (record w'' { tracked_paths = path_count w'' }, c', s')
