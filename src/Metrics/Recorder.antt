-- ===== src/Metrics/Recorder.antt =====
-- internal/metrics/metrics.go: what `RecordRequest` records, the page of `StatsHandler`, and the stop function
-- of `StartGaugeUpdater`, whose goroutine does nothing at its ticks. A duration is nanoseconds. The texts
-- and the seconds of the uptime are parameters.
use edge_cdn.Base.{
  ℕ, zero, suc, ◌+◌, ◌-◌, ◌≡◌, refl, Bool, true, false, List, [], ◌∷◌, ite, if◌then◌else◌, arith,
}
use edge_cdn.Base.Text.{Str, str_dec, codes}
use edge_cdn.Metrics.{Label, label_request}

-- The gauges of the metrics are never set but for the active connections.
pub record Metrics : Type 0 where
  pub requests_total : List Label
  pub request_duration : List (Str × Str × ℕ)
  pub origin_requests : ℕ
  pub node_name : Str
  pub start_time : ℕ

unfoldable pub new_metrics : Str → ℕ → Metrics
new_metrics node_name now = record {
  requests_total = [];
  request_duration = [];
  origin_requests = 0;
  node_name = node_name;
  start_time = now;
}

-- `cacheStatus == "MISS"`
abbrev pub is_miss : Str → Bool
is_miss cache_status = ite (str_dec cache_status (codes "MISS")) true false

unfoldable pub record_request : Str → Str → Str → Str → ℕ → Metrics → Metrics
unfolding label_request
record_request method path status cache_status duration m = record m {
  requests_total = label_request method path status cache_status ∷ m.requests_total;
  request_duration = (method, cache_status, duration) ∷ m.request_duration;
  origin_requests = if is_miss cache_status then m.origin_requests + 1 else m.origin_requests;
}

pub record StatsPage (Real : Type 0) : Type 0 where
  pub uptime : Str
  pub uptime_seconds : Real
  pub node : Str

unfoldable pub stats_page : {Real : Type 0} → (ℕ → Str) → (ℕ → Real) → ℕ → Metrics → StatsPage Real
stats_page duration_text seconds now m = record {
  uptime = duration_text (now - m.start_time);
  uptime_seconds = seconds (now - m.start_time);
  node = m.node_name;
}

-- Whether `stopCh` is closed, how often it was, and whether the goroutine runs.
pub record Updater : Type 0 where
  pub once_done : Bool
  pub closes : ℕ
  pub running : Bool

unfoldable pub start_gauge_updater : Updater
start_gauge_updater = record { once_done = false; closes = 0; running = true }

unfoldable pub stop_updater : Updater → Updater
stop_updater u = if u.once_done then u else record u { once_done = true; closes = u.closes + 1 }

-- The labels with `MISS`.
unfoldable pub misses : List Label → ℕ
misses [] = 0
misses (l ∷ ls) = (if is_miss l.cache_status then 1 else 0) + misses ls

-- Some requests, each with its method, path, status, cache status and duration.
unfoldable pub records : List (Str × Str × Str × Str × ℕ) → Metrics → Metrics
records [] m = m
records ((method, path, status, cache_status, duration) ∷ qs) m =
    records qs (record_request method path status cache_status duration m)

records-counted :
    (qs : List (Str × Str × Str × Str × ℕ)) (m : Metrics)
    → m.origin_requests ≡ misses m.requests_total
    → (records qs m).origin_requests ≡ misses (records qs m).requests_total
unfolding records record_request label_request misses
records-counted [] m e = e
records-counted ((method, path, status, cache_status, duration) ∷ qs) m e =
    records-counted qs (record_request method path status cache_status duration m)
      (ground (arith, e))

-- The counter of the requests to the origin is the number of requests counted with `MISS`.
pub origin_requests-misses :
    (qs : List (Str × Str × Str × Str × ℕ)) (node_name : Str) (now : ℕ)
    → let m = records qs (new_metrics node_name now) in m.origin_requests ≡ misses m.requests_total
unfolding new_metrics misses
origin_requests-misses qs node_name now = records-counted qs (new_metrics node_name now) refl

stops : ℕ → Updater → Updater
stops zero u = u
stops (suc n) u = stops n (stop_updater u)

stops_done : (n : ℕ) (u : Updater) → u.once_done ≡ true → (stops n u).closes ≡ u.closes
unfolding stops stop_updater
stops_done zero u e = refl
stops_done (suc n) u e = ground (arith, e, stops_done n u e)

-- The stop function closes the channel once, however often it is called.
stops_once : (n : ℕ) → (stops (suc n) start_gauge_updater).closes ≡ 1
unfolding stops stop_updater start_gauge_updater
stops_once n = stops_done n _ refl
