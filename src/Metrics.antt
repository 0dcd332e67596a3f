-- ===== src/Metrics.antt =====
-- internal/metrics/metrics.go: the label that a request's path is counted under.
-- A path is a list of its runes, as the code's `range` reads it, for a path that is valid UTF-8.
-- What a request counts is in Metrics/Recorder.
pub mod Paths
pub mod Recorder
use edge_cdn.Base.{
  ℕ, zero, suc, ◌+◌, Bool, true, false, List, [], ◌∷◌, ◌++◌, leb, ◌==◌, ◌||◌, if◌then◌else◌, ite,
  length,
}
use edge_cdn.Base.Text.{Str, str_dec, codes}
use edge_cdn.Base.Maps.{lookup_or, insert}

-- One round of the loop of `splitPath`: `current` and `segments` after the rune.
abbrev split_step : ℕ → Str → List Str → Str × List Str
split_step c current segments =
    if c == b'/'
    then (if length current == 0 then (current, segments) else ([], segments ++ (current ∷ [])))
    else (current ++ (c ∷ []), segments)

unfoldable pub split_loop : Str → Str → List Str → List Str
split_loop [] current segments =
    if length current == 0 then segments else segments ++ (current ∷ [])
split_loop (c ∷ p) current segments =
    split_loop p (split_step c current segments).0 (split_step c current segments).1

unfoldable pub split_path : Str → List Str
split_path p = split_loop p [] []

-- The loop of `normalizePath` from index `i`.
unfoldable pub label_loop : ℕ → List Str → Str → Str
label_loop i [] result = result
label_loop i (seg ∷ segs) result =
    let more = label_loop (suc i) segs (result ++ (codes "/" ++ seg)) in
    if leb 2 i then result ++ codes "/*" else more

unfoldable pub normalize_path : Str → Str
normalize_path p =
    if ite (str_dec p (codes "/")) true false || (length p == 0)
    then codes "/"
    else if leb (length (split_path p)) 2
    then p
    else label_loop 0 (split_path p) []

-- The labels of `requests_total`: method, path, status and cache status.
pub record Label : Type 0 where
  pub method : Str
  pub path : Str
  pub status : Str
  pub cache_status : Str

-- What `RecordRequest` counts a request under. `origin_requests_total` counts those with `MISS`.
unfoldable pub label_request : Str → Str → Str → Str → Label
label_request method path status cache_status = record {
  method = method;
  path = normalize_path path;
  status = status;
  cache_status = cache_status;
}
