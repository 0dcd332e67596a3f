-- ===== src/Origin.antt =====
-- internal/origin/origin.go: the simulated origin. The random numbers, an entity tag and a draw for
-- the latency, and the formatted clock enter as arguments; the response headers are left out.
pub mod Content
use edge_cdn.Base.{
  ℕ, ◌+◌, ◌-◌, ◌*◌, ◌/◌, Bool, true, false, ◌||◌, Option, none, some, List, [], ◌∷◌, ◌++◌, leb,
  ◌==◌, if◌then◌else◌, ite, length,
}
use edge_cdn.Base.Text.{Str, str_dec, codes}
use edge_cdn.Base.Int.{ℤ, pos, negsuc, positive_or}
use edge_cdn.Base.Bytes.{trim_prefix, contains, to_lower}

pub record Server : Type 0 where
  pub request_count : ℕ
  pub min_latency_ms : ℕ
  pub max_latency_ms : ℕ

-- `if maxLatencyMs <= minLatencyMs { maxLatencyMs = minLatencyMs + 150 }`
abbrev above : ℕ → ℤ → ℕ
above m (pos n) = if leb n m then m + 150 else n
above m (negsuc n) = m + 150

unfoldable pub new_server : ℤ → ℤ → Server
new_server min_latency_ms max_latency_ms =
    let m = positive_or 50 min_latency_ms in
    record { request_count = 0; min_latency_ms = m; max_latency_ms = above m max_latency_ms }

-- `New`, which does not read its configuration.
unfoldable pub new_origin : Server
unfolding new_server
new_origin = new_server (pos 50) (pos 200)

pub record FetchResponse : Type 0 where
  pub status_code : ℕ
  pub content_type : Str
  pub body : Str

-- `path.Ext`: from the last dot behind the last slash on, from left to right.
unfoldable pub ext_from : Str → Str → Str
ext_from current [] = current
ext_from current (c ∷ s) =
    ext_from
      (if c == b'/'
        then []
        else if c == b'.'
        then b'.' ∷ []
        else if length current == 0
        then []
        else current ++ (c ∷ []))
      s

unfoldable pub ext : Str → Str
unfolding ext_from
ext = ext_from []

abbrev pub is_text : Str → Str → Bool
is_text a b = ite (str_dec a b) true false

module _ (etag clock : Str) where
  unfoldable pub generate_html : Str → Str
  generate_html page_path =
      codes "<!DOCTYPE html><html><head><title>"
      ++ (page_path
          ++ (codes "</title></head><body><h1>"
              ++ (page_path
                  ++ (codes "</h1><p>Origin "
                      ++ (clock ++ (codes " ETag:" ++ (etag ++ codes "</p></body></html>")))))))

  unfoldable pub generate_json : Str → Str
  generate_json api_path =
      codes "{\"path\":\""
      ++ (api_path
          ++ (codes "\",\"status\":\"ok\",\"server\":\"origin-v2\",\"timestamp\":\""
              ++ (clock
                  ++ (codes "\",\"etag\":\""
                      ++ (etag
                          ++ codes
                              "\",\"data\":{\"items\":[{\"id\":1,\"name\":\"Alpha\",\"value\":42.5}],\"total\":1}}")))))

unfoldable pub generate_css : Str → Str
generate_css css_path =
    codes "/* " ++ (css_path ++ codes " */ * { margin:0; padding:0; box-sizing:border-box; }")

unfoldable pub generate_js : Str → Str
generate_js js_path =
    codes "(function(){'use strict';console.log('" ++ (js_path ++ codes "');})();")

abbrev pub fake_image : Str
fake_image = 0x89 ∷ 0x50 ∷ 0x4E ∷ 0x47 ∷ 0x0D ∷ 0x0A ∷ 0x1A ∷ 0x0A ∷ []

unfoldable pub clean_path : Str → Str
clean_path url_path =
    let clean = trim_prefix (codes "/") url_path in
    if length clean == 0 then codes "index" else clean

-- `generateContent`, with the tag that `generateETag` draws: the content type and the body.
unfoldable pub generate_content : Str → Str → Str → Str × Str
generate_content etag clock url_path =
    let e = to_lower (ext url_path) in
    let clean = clean_path url_path in
    let html : Str × Str = (codes "text/html; charset=utf-8", generate_html etag clock clean) in
    if is_text e (codes ".json") || is_text e []
    then (if contains (codes "/api/") url_path || is_text e (codes ".json")
        then (codes "application/json", generate_json etag clock clean)
        else html)
    else if is_text e (codes ".css")
    then (codes "text/css; charset=utf-8", generate_css clean)
    else if is_text e (codes ".js")
    then (codes "application/javascript; charset=utf-8", generate_js clean)
    else if is_text e (codes ".png")
        || (is_text e (codes ".jpg") || (is_text e (codes ".gif") || is_text e (codes ".webp")))
    then (codes "image/png", fake_image)
    else html

-- `Fetch`, which does not fail.
unfoldable pub fetch : Str → Str → Str → Server → Server × FetchResponse
fetch etag clock url_path s = (
  record s { request_count = s.request_count + 1 },
  record {
    status_code = 200;
    content_type = (generate_content etag clock url_path).0;
    body = (generate_content etag clock url_path).1;
  },
)

-- `randomLatency` in milliseconds, with the draw below `spread`, or `none` where drawing fails.
unfoldable pub random_latency : Option ℕ → Server → ℕ
random_latency draw s =
    let spread = s.max_latency_ms - s.min_latency_ms in
    if leb spread 0
    then s.min_latency_ms
    else elim draw [ none ↦ s.min_latency_ms + spread / 2 | some n ↦ s.min_latency_ms + n ]
