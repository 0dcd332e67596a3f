-- ===== src/RateLimit.antt =====
-- internal/ratelimit/ratelimit.go: the token bucket of each client, the limiter, and the client's
-- address. Tokens are `float64` in the source, counted here exactly in units of 10^-9 token
-- ("nano-tokens"): a refill of `elapsed` nanoseconds at `rate` tokens a second is
-- `elapsed * rate` of them, without the rounding of the code's floats, which RateLimit/Rounding models. The double of the rate, where it is
-- the burst, is taken to fit an `int`: the rate is below 2^62. Times are nanoseconds of the monotonic
-- clock, which does not run back.
pub mod Bucket
pub mod Clients
pub mod Texts
pub mod Idle
pub mod Cleanup
pub mod Rounding
use edge_cdn.Base.{
  ℕ, zero, suc, ◌+◌, ◌-◌, ◌*◌, ◌/◌, ◌%◌, Bool, true, false, Option, none, some, List, [], ◌∷◌, ltb,
  leb, ◌==◌, if◌then◌else◌, length,
}
use edge_cdn.Base.Text.{Str, str_dec, codes}
use edge_cdn.Base.Int.{ℤ, positive_or}
use edge_cdn.Base.Maps.{lookup, insert}

-- One token, in nano-tokens.
abbrev pub token : ℕ
token = 1_000_000_000

pub record TokenBucket : Type 0 where
  pub tokens : ℕ
  pub max_tokens : ℕ
  pub refill_rate : ℕ
  pub last_refill : ℕ

abbrev refilled : ℕ → TokenBucket → ℕ
refilled now b = b.tokens + (now - b.last_refill) * b.refill_rate

abbrev capped : ℕ → ℕ → ℕ
capped n m = if ltb m n then m else n

-- `tokenBucket.allow`
unfoldable pub allow : ℕ → TokenBucket → TokenBucket × Bool
allow now b =
    let full = capped (refilled now b) b.max_tokens in
    if leb token full
    then (record b { tokens = full - token; last_refill = now }, true)
    else (record b { tokens = full; last_refill = now }, false)

-- The last four fields are `stopCh` with its `once`, and the Prometheus metrics.
pub record Limiter : Type 0 where
  pub buckets : List (Str × TokenBucket)
  pub rps : ℕ
  pub burst : ℕ
  pub stopped : Bool
  pub allowed_total : ℕ
  pub blocked_total : ℕ
  pub active_ips : ℕ

unfoldable pub new_limiter : ℤ → ℤ → Limiter
new_limiter rps burst =
    let rate = positive_or 100 rps in
    record {
      buckets = [];
      rps = rate;
      burst = positive_or (rate * 2) burst;
      stopped = false;
      allowed_total = 0;
      blocked_total = 0;
      active_ips = 0;
    }

-- The bucket of a client seen for the first time.
unfoldable pub fresh_bucket : ℕ → Limiter → TokenBucket
fresh_bucket now l = record {
  tokens = l.burst * token;
  max_tokens = l.burst * token;
  refill_rate = l.rps;
  last_refill = now;
}

-- `Allow` up to the bucket: the limiter with the client's bucket in its map, and the bucket.
unfoldable pub track : ℕ → Str → Limiter → Limiter × TokenBucket
unfolding fresh_bucket
track now key l = elim (lookup str_dec key l.buckets) [
  | some b ↦ (l, b)
  | none ↦
      let m = insert str_dec key (fresh_bucket now l) l.buckets in
      (record l { buckets = m; active_ips = length m }, fresh_bucket now l)
]

count : Bool → Limiter → Limiter
count true l = record l { allowed_total = l.allowed_total + 1 }
count false l = record l { blocked_total = l.blocked_total + 1 }

-- `Limiter.Allow`; the bucket is shared with the map, so the new bucket is written back.
unfoldable pub allow_key : ℕ → Str → Limiter → Limiter × Bool
unfolding track count
allow_key now key l =
    let (l', b) = track now key l in
    let (b', ok) = allow now b in
    (count ok (record l' { buckets = insert str_dec key b' l'.buckets }), ok)

abbrev pub five_minutes : ℕ
five_minutes = 300_000_000_000

-- The loop of `cleanup` over the map.
unfoldable pub drop_idle : ℕ → List (Str × TokenBucket) → List (Str × TokenBucket)
drop_idle now [] = []
drop_idle now ((k, b) ∷ m) =
    let rest = drop_idle now m in
    if ltb five_minutes (now - b.last_refill) then rest else (k, b) ∷ rest

-- One tick of `cleanup`.
unfoldable pub cleanup : ℕ → Limiter → Limiter
unfolding drop_idle
cleanup now l = let m = drop_idle now l.buckets in record l { buckets = m; active_ips = length m }

unfoldable pub stop : Limiter → Limiter
stop l = record l { stopped = true }

-- What `extractIP` reads of a request: two headers, with `""` where they are missing, and the
-- peer's address.
pub record Request : Type 0 where
  pub x_forwarded_for : Str
  pub x_real_ip : Str
  pub remote_addr : Str

-- `s[:i]` for the first `i` with `s[i] == c`, and `s` where there is none.
unfoldable pub until_first : ℕ → Str → Str
until_first c [] = []
until_first c (x ∷ xs) = let rest = until_first c xs in if x == c then [] else x ∷ rest

contains : ℕ → Str → Bool
contains c [] = false
contains c (x ∷ xs) = if x == c then true else contains c xs

-- `s[:i]` for the last `i` with `s[i] == c`, and `s` where there is none.
unfoldable pub until_last : ℕ → Str → Str
unfolding contains
until_last c [] = []
until_last c (x ∷ xs) =
    let rest = until_last c xs in
    if contains c xs then x ∷ rest else if x == c then [] else x ∷ rest

unfoldable pub extract_ip : Request → Str
extract_ip r =
    if ltb 0 (length r.x_forwarded_for)
    then until_first b',' r.x_forwarded_for
    else if ltb 0 (length r.x_real_ip)
    then r.x_real_ip
    else until_last b':' r.remote_addr

-- `itoa`: the digits are written from the end of a buffer of 20 bytes, `buf` holds those written
-- so far, and `room` is the index `i`; each round takes one place. A 64-bit number has at most 20
-- digits.
unfoldable pub itoa_loop : ℕ → ℕ → Str → Str
itoa_loop zero n buf = buf
itoa_loop (suc room) n buf =
    let rest = itoa_loop room (n / 10) ((48 + n % 10) ∷ buf) in if n == 0 then buf else rest

unfoldable pub itoa : ℕ → Str
itoa n = if n == 0 then codes "0" else itoa_loop 20 n []

-- What the middleware answers: it passes the request on, or refuses with status 429 and the two
-- headers `Retry-After` and `X-RateLimit-Limit`.
pub data Answer : Type 0 where
  pass : Answer
  too_many : Str → Str → Answer

unfoldable pub middleware : ℕ → Request → Limiter → Limiter × Answer
middleware now r l =
    let (l', ok) = allow_key now (extract_ip r) l in
    (l', if ok then pass else too_many (codes "1") (itoa l.rps))
