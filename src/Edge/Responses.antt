-- ===== src/Edge/Responses.antt =====
-- internal/router/router.go: the routes of `Handler`, and the status, the headers and the body that are
-- written for an answer of `handleCDN`, of `handleHealth` and of `handlePurge`. The headers that only name the node, the request or its time
-- come from the parameter `names`. The seconds of a time to live are exact, where the code goes through
-- float64.
use edge_cdn.Base.{
  ℕ, zero, suc, ◌/◌, ◌≡◌, refl, ◌⊎◌, inl, inr, Bool, true, false, Option, none, some, List, [], ◌∷◌,
  ◌++◌, if◌then◌else◌, length, arith, Option-cases,
}
use edge_cdn.Base.Bytes.{hex}
use edge_cdn.Base.Text.{Str, str_dec, codes, decimal}
use edge_cdn.Base.Int.{ℤ, pos, negsuc}
use edge_cdn.Base.Headers.{get_header, drop_header, set_header}
use edge_cdn.Origin.{FetchResponse, is_text}
use edge_cdn.Ring.{get_node}
use edge_cdn.Cache.Redis.{Redis, cache_get}
use edge_cdn.Edge.Hits.{handle_cdn-hit}
use edge_cdn.Edge.{
  Edge, Request, Env, Answer, PurgeAnswer, not_allowed, missing_path, purged, hit, fetched,
  origin_error, build_cache_key, detect_content_type, fetch_origin, respond, handle_cdn,
}

pub data Route : Type 0 where
  health_route nodes_route metrics_route stats_route purge_route cdn_route : Route

-- The patterns of the mux, where `/health/nodes` is one only if there is a health handler.
unfoldable pub route : Bool → Str → Route
route has_health_handler path =
    if is_text path (codes "/health")
    then health_route
    else if is_text path (codes "/health/nodes")
    then (if has_health_handler then nodes_route else cdn_route)
    else if is_text path (codes "/metrics")
    then metrics_route
    else if is_text path (codes "/stats")
    then stats_route
    else if is_text path (codes "/purge")
    then purge_route
    else cdn_route

pub record Names : Type 0 where
  pub node_name : Str
  pub node_region : Str
  pub request_id : Str
  pub response_time : Str

pub record Response : Type 0 where
  pub status : ℕ
  pub headers : List (Str × Str)
  pub body : Str

-- `int(d.Seconds())`, printed.
unfoldable pub seconds_text : ℤ → Str
seconds_text (pos n) = decimal (n / 1_000_000_000)
seconds_text (negsuc n) =
    let s = suc n / 1_000_000_000 in elim s [ zero ↦ codes "0" | suc m ↦ b'-' ∷ decimal (suc m) ]

set_headers : List (Str × Str) → List (Str × Str) → List (Str × Str)
set_headers [] hs = hs
set_headers ((k, v) ∷ kvs) hs = set_headers kvs (set_header k v hs)

-- `writeResponse`
unfoldable pub write_response : ℕ → Str → Str → List (Str × Str) → Response
unfolding set_headers
write_response status content_type body headers = record {
  status = status;
  headers = set_header (codes "Server") (codes "EdgeCDN/2.0") (
      set_header (codes "Content-Length") (decimal (length body))
        (set_header (codes "Content-Type") content_type (set_headers headers [])));
  body = body;
}

module _ (names : Names) where
  -- The headers that all answers have.
  unfoldable pub common : Str → Str → List (Str × Str)
  common x_cache node =
      (codes "X-Cache", x_cache)
      ∷ (codes "X-Cache-Node", node)
      ∷ (codes "X-Primary-Node", node)
      ∷ (codes "X-Serving-Node", node)
      ∷ (codes "X-Request-Id", names.request_id)
      ∷ (codes "X-Node-Name", names.node_name)
      ∷ (codes "X-Node-Region", names.node_region)
      ∷ []

  unfoldable pub hit_headers : ℤ → Str → List (Str × Str)
  unfolding common
  hit_headers default_ttl node =
      (codes "X-Response-Time", names.response_time)
      ∷ (codes "Cache-Control", codes "public, max-age=" ++ seconds_text default_ttl)
      ∷ common (codes "HIT") node

  unfoldable pub fetched_headers : Bool → Str → List (Str × Str)
  unfolding common
  fetched_headers shielded node =
      let hs = (codes "X-Response-Time", names.response_time) ∷ common (codes "MISS") node in
      if shielded then (codes "X-Shield", codes "coalesced") ∷ hs else hs

  -- What `handleCDN` writes.
  unfoldable pub written : ℤ → Answer → Response
  unfolding write_response hit_headers fetched_headers common
  written default_ttl (hit node content_type body) =
      write_response 200 content_type body (hit_headers default_ttl node)
  written default_ttl (fetched node status content_type body shielded) =
      write_response status content_type body (fetched_headers shielded node)
  written default_ttl (origin_error node) =
      write_response 502 (codes "text/plain") (codes "origin server error")
        (common (codes "ERROR") node)

  hit_shows :
      (default_ttl : ℤ) (node content_type body : Str)
      → let w = written default_ttl (hit node content_type body) in
        (get_header (codes "X-Cache") w.headers ≡ codes "HIT")
        × (get_header (codes "Content-Type") w.headers ≡ content_type)
        × (get_header (codes "Content-Length") w.headers ≡ decimal (length body))
        × (get_header (codes "Cache-Control") w.headers
            ≡ codes "public, max-age=" ++ seconds_text default_ttl)
  unfolding written get_header drop_header set_header set_headers str_dec
  hit_shows default_ttl node content_type body = (refl, refl, refl, refl)

  fetched_shows :
      (default_ttl : ℤ) (node : Str) (status : ℕ) (content_type body : Str) (shielded : Bool)
      → let w = written default_ttl (fetched node status content_type body shielded) in
        (get_header (codes "X-Cache") w.headers ≡ codes "MISS")
        × (get_header (codes "Content-Type") w.headers ≡ content_type)
        × (get_header (codes "Content-Length") w.headers ≡ decimal (length body))
        × (get_header (codes "X-Shield") w.headers ≡ (if shielded then codes "coalesced" else []))
  unfolding written get_header drop_header set_header set_headers str_dec
  fetched_shows default_ttl node status content_type body true = (refl, refl, refl, refl)
  fetched_shows default_ttl node status content_type body false = (refl, refl, refl, refl)

  error_shows :
      (default_ttl : ℤ) (node : Str)
      → let w = written default_ttl (origin_error node) in
        (get_header (codes "X-Cache") w.headers ≡ codes "ERROR")
        × (get_header (codes "Content-Length") w.headers ≡ decimal (length w.body))
  unfolding written get_header drop_header set_header set_headers str_dec
  error_shows default_ttl node = (refl, refl)

-- `generateRequestID` of eight random bytes.
unfoldable pub generate_request_id : Str → Str
generate_request_id bytes = hex bytes

-- The body that `handleHealth` writes with status 200, at the time `timestamp`.
unfoldable pub health_body : Names → Str → Str
health_body names timestamp =
    codes "{\"status\":\"healthy\",\"node\":\""
    ++ (names.node_name
        ++ (codes "\",\"region\":\""
            ++ (names.node_region
                ++ (codes "\",\"role\":\"edge\",\"timestamp\":\"" ++ (timestamp ++ codes "\"}")))))

-- What `handlePurge` writes: the status and the body, which `http.Error` ends with a newline.
unfoldable pub purge_written : Str → PurgeAnswer → ℕ × Str
purge_written path not_allowed = (405, codes "method not allowed\n")
purge_written path missing_path = (400, codes "missing path parameter\n")
purge_written path purged = (200, codes "{\"purged\":\"" ++ (path ++ codes "\",\"status\":\"ok\"}"))

-- A response from the cache, with the default time to live.
abbrev pub IsHit : ℤ → Option Str → Response → Type 0
IsHit default_ttl cached w =
    (get_header (codes "X-Cache") w.headers ≡ codes "HIT")
    × (cached ≡ some w.body)
    × (w.status ≡ 200)
    × (get_header (codes "Cache-Control") w.headers
        ≡ codes "public, max-age=" ++ seconds_text default_ttl)

-- A response of the origin.
abbrev pub IsMiss : Option (FetchResponse × Bool) → Response → Type 0
IsMiss result w =
    (get_header (codes "X-Cache") w.headers ≡ codes "MISS")
    × (resp : FetchResponse) × (shielded : Bool) × (result ≡ some (resp, shielded))
    × (w.status ≡ resp.status_code)
    × (w.body ≡ resp.body)
    × (get_header (codes "Content-Type") w.headers ≡ resp.content_type)
    × (get_header (codes "X-Shield") w.headers ≡ (if shielded then codes "coalesced" else []))

abbrev pub IsError : Option (FetchResponse × Bool) → Response → Type 0
IsError result w =
    (get_header (codes "X-Cache") w.headers ≡ codes "ERROR") × (result ≡ none) × (w.status ≡ 502)

module _ (names : Names) (hash : Str → ℕ) (sniff : Str → Str) (R : Redis) where
  fetched_answer :
      (env : Env) (q : Request) (e : Edge) (s : R.Store) (resp : FetchResponse) (shielded : Bool)
      → (cache_get R env.get_net env.get_at (build_cache_key q.method q.path) e.cache s).1 ≡ none
      → (fetch_origin env e.guard).1 ≡ some (resp, shielded)
      → (handle_cdn hash sniff R env q (e, s)).1
        ≡ fetched
            (get_node hash e.ring q.path)
            resp.status_code
            resp.content_type
            resp.body
            shielded
  unfolding handle_cdn respond
  fetched_answer env q e s resp shielded c r = ground (arith, c, r)

  error_answer :
      (env : Env) (q : Request) (e : Edge) (s : R.Store)
      → (cache_get R env.get_net env.get_at (build_cache_key q.method q.path) e.cache s).1 ≡ none
      → (fetch_origin env e.guard).1 ≡ none
      → (handle_cdn hash sniff R env q (e, s)).1 ≡ origin_error (get_node hash e.ring q.path)
  unfolding handle_cdn respond
  error_answer env q e s c r = ground (arith, c, r)

  -- What `handleCDN` writes has the length of its body and says whence it comes: from the cache, with
  -- status 200 and the default time to live whatever the path is; from the origin, with its status, type
  -- and body, and whether a waiter shared it; or an error, with status 502.
  pub written-handle_cdn :
      (env : Env) (q : Request) (e : Edge) (s : R.Store)
      → let w = written names e.default_ttl (handle_cdn hash sniff R env q (e, s)).1 in
        let cached =
          (cache_get R env.get_net env.get_at (build_cache_key q.method q.path) e.cache s).1 in
        let result = (fetch_origin env e.guard).1 in
        (get_header (codes "Content-Length") w.headers ≡ decimal (length w.body))
        × (IsHit e.default_ttl cached w
            ⊎ ((cached ≡ none) × IsMiss result w)
            ⊎ ((cached ≡ none) × IsError result w))
  unfolding written
  written-handle_cdn env q e s =
      let node = get_node hash e.ring q.path in
      elim (Option-cases
        (cache_get R env.get_net env.get_at (build_cache_key q.method q.path) e.cache s).1) [
          | inr (body, c) ↦
              let (tag, _, size, age) =
                hit_shows names e.default_ttl node (detect_content_type sniff q.path body) body in
              rw (handle_cdn-hit hash sniff R env q e s body c) (size, inl (tag, c, refl, age))
          | inl c ↦ elim (Option-cases (fetch_origin env e.guard).1) [
            | inr ((resp, shielded), r) ↦
                let (tag, type, size, shared) =
                  fetched_shows names e.default_ttl node resp.status_code resp.content_type
                    resp.body shielded in
                rw (fetched_answer env q e s resp shielded c r)
                  (size, inr (inl (c, (tag, resp, shielded, r, refl, refl, type, shared))))
            | inl r ↦
                let (tag, size) = error_shows names e.default_ttl node in
                rw (error_answer env q e s c r) (size, inr (inr (c, (tag, r, refl))))
          ]
        ]
