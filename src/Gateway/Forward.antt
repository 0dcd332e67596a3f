-- ===== src/Gateway/Forward.antt =====
-- internal/gateway/gateway.go, `proxyTo`: the request that goes to the node and the headers that come
-- back, and how a node's rate limiter (internal/ratelimit) sees it.
use edge_cdn.Base.{ℕ, [], ◌==◌, Bool, List, ◌++◌, if◌then◌else◌}
use edge_cdn.Base.Headers.{get_header, set_header}
use edge_cdn.Base.Bytes.{hex}
use edge_cdn.Base.Text.{Str, codes}
use edge_cdn.RateLimit.{Request as Client}

pub record ProxyRequest : Type 0 where
  pub url : Str
  pub headers : List (Str × Str)

-- The request to the node: the request's URI, its headers, and two that the gateway sets.
unfoldable pub proxy_request : Str → Str → Str → Str → List (Str × Str) → ProxyRequest
unfolding set_header
proxy_request node_addr request_uri remote_addr request_id headers = record {
  url = codes "http://" ++ (node_addr ++ request_uri);
  headers =
      set_header (codes "X-Request-Id") request_id
        (set_header (codes "X-Forwarded-For") remote_addr headers);
}

-- The headers of the answer: the node's, and those of the gateway.
unfoldable pub proxied_headers : Str → Str → Str → Str → Bool → List (Str × Str) → List (Str × Str)
unfolding set_header
proxied_headers node_name region_name request_id latency failed_over headers =
    let hs = set_header (codes "X-Gateway-Latency") latency (
      set_header (codes "X-Request-Id") request_id (
        set_header (codes "X-Gateway-Region") region_name
          (set_header (codes "X-Gateway") node_name headers))) in
    if failed_over then set_header (codes "X-Failover") (codes "true") hs else hs

-- What the node's limiter reads of the request that the gateway at `peer` sends.
unfoldable pub client_of : Str → List (Str × Str) → Client
client_of peer headers = record {
  x_forwarded_for = get_header (codes "X-Forwarded-For") headers;
  x_real_ip = get_header (codes "X-Real-Ip") headers;
  remote_addr = peer;
}

-- What `writeError` writes: the status, the headers, and the fields of the JSON object.
pub record ErrorPage : Type 0 where
  pub status : ℕ
  pub headers : List (Str × Str)
  pub error : Str
  pub request_id : Str

unfoldable pub write_error : Str → ℕ → Str → Str → ErrorPage
unfolding set_header
write_error node_name status message request_id = record {
  status = status;
  headers = set_header (codes "X-Request-Id") request_id (
      set_header (codes "X-Gateway") node_name
        (set_header (codes "Content-Type") (codes "application/json") []));
  error = message;
  request_id = request_id;
}

-- The messages of `handleProxy` for the statuses that it refuses with.
unfoldable pub refusal : ℕ → Str
refusal status =
    if status == 503
    then codes "no healthy regions available"
    else codes "all edge nodes unavailable"

-- The page of a refused request.
unfoldable pub refused_page : Str → Str → ℕ → ErrorPage
unfolding write_error refusal
refused_page node_name request_id status = write_error node_name status (refusal status) request_id

-- `generateID` of eight random bytes.
unfoldable pub generate_id : Str → Str
generate_id bytes = hex bytes
