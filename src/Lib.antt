-- ===== src/Lib.antt =====
-- Verification of edge-cdn, a content delivery network in Go.
--
-- A client's request reaches the gateway (internal/gateway), which asks the region router
-- (internal/region) for the region that serves it, the region's hash ring (internal/hashing) for
-- the node of the path, and the health checker (internal/health) whether the node may be used; it
-- proxies the request there, or to another node. An edge node puts a rate limiter
-- (internal/ratelimit) before its handlers (internal/router), which answer from the cache
-- (internal/cache), an LRU map behind Redis, or else fetch from the origin (internal/origin) through a
-- circuit breaker (internal/circuitbreaker), retries (internal/retry) and the shield
-- (internal/shield), which makes one fetch of requests for one path. The warmer (internal/warming)
-- fetches the most used paths into the cache.
--
-- Ring: internal/hashing/consistent.go. `add_node`, `remove_node`, `get_node` are AddNode,
--   RemoveNode, GetNode; xxhash is the parameter `hash`. Ring/Search: sort.Search. Ring/Points: the
--   sort of the points. Ring/Lookup, Ring/Moves and Ring/Removal: which node a key has.
--   Ring/Changes: the rings that nodes joining and leaving make. Ring/Distinct, Ring/Made and
--   Ring/History: rings by their members, whatever the order of the changes.
-- Breaker: internal/circuitbreaker/circuitbreaker.go. `begin` and `complete` are Execute before and
--   after the call that it makes without the lock. Breaker/Machine: runs of its steps and their
--   invariant. Breaker/Thresholds and Breaker/Probes: when it opens, closes and lets calls through.
--   Breaker/Graph: its states as a machine of three states.
-- RateLimit: internal/ratelimit/ratelimit.go. `allow` is the token bucket's, `allow_key` is Allow of
--   the limiter. RateLimit/Bucket, RateLimit/Clients: how much they let through.
--   RateLimit/Rounding: the bucket and Allow with floats that round. RateLimit/Idle,
--   RateLimit/Cleanup: what a cleanup changes. RateLimit/Texts: addresses and digits.
-- Health: internal/health/health.go. `check_node` and `check_all` are the sweep, whose probes enter by
--   their outcome. Health/Pool: the invariant of the pool. Health/Streaks and Health/Recovery: when a
--   node's health changes. Health/Target: AddTarget. Health/Report: the page of its
--   nodes. Health/Loop: `Start` and `Stop`.
-- Region: internal/region/region.go, `get_nearest_region` and `round_robin` with the other methods.
--   The `float64` operations are the parameter `Float` of Base/Floats. Region/Choice: the region
--   chosen. Region/Rings: the nodes of a region. Region/Rotation: whose turn it is.
-- Gateway: internal/gateway/gateway.go, `handle_proxy` with its three attempts, over the replies of
--   the nodes. The checker and the nodes' replies stay as they are during one request.
--   Gateway/Failover: who answers. Gateway/Startup: the start in cmd/router/main.go. Gateway/Pages: the
--   routes and the pages. Gateway/Forward: what a node receives and what the client gets back.
--   Gateway/Bypass: the clients behind the gateway in a node's rate limiter.
-- Retry: internal/retry/retry.go, `retry` is Do, over what the context, the operation and the wait do
--   in each attempt. Retry/Attempts: its calls and its result. Retry/Backoff: calculateBackoff, whose
--   random fraction is an argument. Retry/Waits: how long a wait is.
-- Metrics: internal/metrics/metrics.go, `normalize_path`, `split_path`, and the labels
--   of a request. Metrics/Paths: the labels of paths. Metrics/Recorder: what is recorded.
-- Cache/Recency, Cache/Lru: `LRUCache` of internal/cache/cache.go, what it promises, as a list of
--   entries, and the map of pointers into a linked list that the code has. Cache/Lru/Elements,
--   Cache/Lru/Links: elements and their list. Cache/Lru/Refines: the code against the promise.
--   Cache/Lru/Retains: what stays in it. Cache/Redis: `RedisCache`; the server is the parameter
--   `Redis`, with its promises `IsRedis`, and each call to it is answered, refused, or its answer is lost.
--   Cache/Redis/Tiers: both tiers together. Cache/Redis/Outage: the cache without its server.
--   Cache/Redis/Counts: its counters and their snapshot.
-- Shield: internal/shield/shield.go. Requests take the steps `arrive`, `finish`, `clear`, `deliver` and
--   `cancel`, which are Fetch between its waits, in any order. Shield/Steps, Shield/Invariant and
--   Shield/Reached: the steps, and what every state that they reach keeps.
--   Shield/Waiters: who fetches and who waits. Shield/Progress: how requests come to an end.
--   Shield/Agreement: the results of a call. Shield/Cancelled: requests that give up.
--   Shield/Totals, Shield/Keys, Shield/Counters: the gauge and the counters. Shield/Peak: `peakInFlight`.
-- Origin: internal/origin/origin.go. `generate_content` and `random_latency`; what is drawn and the
--   clock are arguments. Origin/Content: its latency.
-- Warming: internal/warming/warming.go. `record_access`, `get_hot_paths`, `warm_cycle`. Warming/Hot: the
--   hot paths. Warming/Loop: `Start` and `Stop`.
-- Edge: internal/router/router.go. `handle_cdn` and `handle_purge` over the ring, the cache, the breaker,
--   the retries and the warmer; the shield's answers enter by each attempt. Edge/Hits: what the cache
--   answers. Edge/Failures: when the origin is not reached. Edge/Types: content types.
--   Edge/Responses: the routes, and the responses that are written.
-- Command: cmd/router/main.go. `start_edge_node` puts an edge node together from the environment, and
--   `serve` is its handler. Command/Served: what happens to a node, and what it keeps. Command/Nodes:
--   EDGE_NODES and the start of the gateway. Command/Pairs: its pairs, written and read.
--   Command/Launch: the settings that `main` reads.
-- Base: shared names, tests, lists, maps as association lists, texts as lists of bytes, integers,
--   headers as pairs of a name and a value, and floats as operations with the laws of IEEE 754 that
--   the statements use.
-- Examples: runs on concrete inputs.
--
-- Numbers are natural numbers, or integers where the code's can be negative. The counters and sizes
-- count events and list elements, far below 2^63, so no wrap-around is modelled; a
-- time in seconds from the environment wraps round at 2^64 as it is made a duration. Times are
-- nanoseconds of a clock that does not run back. Tokens, float64 in the code,
-- are counted exactly in nano-tokens, but in RateLimit/Rounding. Each method holds its lock throughout, and is one step.
--
-- Bounds: the binary search takes as many rounds as the ring has points, and the interval halves in
-- each; `itoa` and `uitoa` have the 20 places of their buffers, enough for 64 bits; the loop of Do has its
-- `max_attempts` rounds; `decimal` has one round more than the number, and each takes a digit off.
--
-- Not modelled: the HTTP servers, the bodies that the gateway copies, the draw of request ids, and the
-- signals of cmd/router; the times of the tickers; concurrency but for the steps of the shield and for the
-- starts and stops; logs, the
-- encoding of pages as JSON, the registration of Prometheus metrics and their histograms; and the
-- deployment files.
pub mod Base
pub mod Ring
pub mod Breaker
pub mod RateLimit
pub mod Health
pub mod Region
pub mod Gateway
pub mod Retry
pub mod Metrics
pub mod Cache
pub mod Shield
pub mod Origin
pub mod Warming
pub mod Edge
pub mod Command
pub mod Examples
