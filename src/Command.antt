-- ===== src/Command.antt =====
-- cmd/router/main.go: what the environment says, and the edge node that it starts. The environment is
-- the parameter `env`, with `""` for a missing variable. Signals, the HTTP server and the
-- logs are left out, and so are the routes of the handler but for the CDN and the purge.
pub mod Served
pub mod Nodes
pub mod Pairs
pub mod Launch
use mathlib.Core.Option
use edge_cdn.Base.{
  ℕ, zero, suc, ◌+◌, ◌-◌, ◌*◌, ◌%◌, Bool, true, false, ◌&&◌, ◌||◌, Option, none, some, List, [],
  ◌∷◌, ◌++◌, ◌==◌, ltb, leb, if◌then◌else◌, length,
}
use edge_cdn.Base.Text.{Str, codes}
use edge_cdn.Base.Int.{ℤ, pos, negsuc}
use edge_cdn.Ring.{Ring, new_ring, add_node}
use edge_cdn.RateLimit.{Limiter, new_limiter, middleware, pass, too_many}
use edge_cdn.RateLimit.{Request as Client}
use edge_cdn.Breaker.{new_breaker}
use edge_cdn.Retry.{new_config}
use edge_cdn.Health.{Checker, new_checker, add_target}
use edge_cdn.Cache.Redis.{Redis, new_cache}
use edge_cdn.Warming.{new_warmer, start}
use edge_cdn.Edge.{Edge, Env, Request, Answer, handle_cdn}

-- 2^63 and 2^64.
abbrev int_limit : ℕ
int_limit = 9_223_372_036_854_775_808

abbrev word : ℕ
word = 18_446_744_073_709_551_616

-- `strconv.Atoi`: a sign or none, then digits, in the range of `int`.
abbrev digits : ℕ → Str → Option ℕ
digits n [] = some n
digits n (c ∷ s) =
    let rest = digits (n * 10 + (c - b'0')) s in if leb b'0' c && leb c b'9' then rest else none

abbrev positive : Option ℕ → Option ℤ
positive none = none
positive (some n) = if ltb n int_limit then some (pos n) else none

abbrev negative : Option ℕ → Option ℤ
negative none = none
negative (some zero) = some (pos 0)
negative (some (suc n)) = if ltb n int_limit then some (negsuc n) else none

abbrev number : Str → Option ℕ
number [] = none
number (c ∷ s) = digits 0 (c ∷ s)

unfoldable pub atoi : Str → Option ℤ
atoi [] = none
atoi (c ∷ s) =
    if c == b'-'
    then negative (number s)
    else if c == b'+'
    then positive (number s)
    else positive (number (c ∷ s))

-- `strings.Split` at one byte.
abbrev pub put_first : ℕ → List Str → List Str
put_first x [] = (x ∷ []) ∷ []
put_first x (p ∷ ps) = (x ∷ p) ∷ ps

unfoldable pub split : ℕ → Str → List Str
split c [] = [] ∷ []
split c (x ∷ s) = let rest = split c s in if x == c then [] ∷ rest else put_first x rest

-- `strings.TrimSpace`, on ASCII.
abbrev pub is_space : ℕ → Bool
is_space c = (c == 32) || (leb 9 c && leb c 13)

unfoldable pub trim_left : Str → Str
trim_left [] = []
trim_left (c ∷ s) = let rest = trim_left s in if is_space c then rest else c ∷ s

unfoldable pub trim_right : Str → Str
trim_right [] = []
trim_right (c ∷ s) =
    let rest = trim_right s in if is_space c && (length rest == 0) then [] else c ∷ rest

unfoldable pub trim_space : Str → Str
unfolding trim_left trim_right
trim_space s = trim_right (trim_left s)

-- `time.Duration(n) * time.Second`, which wraps round.
abbrev signed : ℕ → ℤ
signed n = if ltb n int_limit then pos n else negsuc (word - 1 - n)

unfoldable pub in_seconds : ℤ → ℤ
in_seconds (pos n) = signed ((n * 1_000_000_000) % word)
in_seconds (negsuc n) = signed ((word - ((n + 1) * 1_000_000_000) % word) % word)

module _ (env : Str → Str) where
  unfoldable pub get_env : Str → Str → Str
  get_env key fallback = if length (env key) == 0 then fallback else env key

  unfoldable pub get_int_env : Str → ℤ → ℤ
  unfolding atoi
  get_int_env key fallback =
      if length (env key) == 0 then fallback else Option.get_or (atoi (env key)) fallback

  -- The number of seconds.
  unfoldable pub get_duration_env : Str → ℤ → ℤ
  unfolding atoi
  get_duration_env key fallback_sec =
      if length (env key) == 0 then fallback_sec else Option.get_or (atoi (env key)) fallback_sec

-- An edge node: its rate limiter, its router with what that uses, and its checker of the other nodes.
pub record Node : Type 0 where
  pub limiter : Limiter
  pub edge : Edge
  pub checker : Checker

module _ (hash : Str → ℕ) where
  -- The two loops of `startEdgeNode` over `cacheNodes`.
  unfoldable pub add_cache_nodes : List Str → Ring → Ring
  add_cache_nodes [] r = r
  add_cache_nodes (node ∷ nodes) r = add_cache_nodes nodes (add_node hash (trim_space node) r).0

unfoldable pub add_targets : List Str → Checker → Checker
add_targets [] c = c
add_targets (node ∷ nodes) c =
    let n = trim_space node in
    add_targets nodes (add_target n (codes "http://" ++ (n ++ codes ":8080/health")) c)

-- `startEdgeNode`, at a time, with whether Redis answered the ping.
unfoldable pub start_edge_node : (Str → ℕ) → (Str → Str) → ℕ → Bool → Node
unfolding add_cache_nodes add_targets get_env get_int_env get_duration_env in_seconds split
start_edge_node hash env now ping =
    let cache_nodes =
      split b',' (get_env env (codes "CACHE_NODES") (codes "node-1,node-2,node-3")) in
    record {
      limiter =
          new_limiter (get_int_env env (codes "RATE_LIMIT_RPS") (pos 100))
            (get_int_env env (codes "RATE_LIMIT_BURST") (pos 200));
      edge = record {
        default_ttl = in_seconds (get_duration_env env (codes "DEFAULT_TTL_SECONDS") (pos 300));
        ring =
            add_cache_nodes hash cache_nodes
              (new_ring (get_int_env env (codes "VNODE_COUNT") (pos 150)));
        cache = new_cache (get_int_env env (codes "LRU_FALLBACK_SIZE") (pos 10_000)) ping;
        warmer = some (start (new_warmer (pos 100) (pos 3) (pos 300_000_000_000)));
        guard = some (record {
          breaker =
              new_breaker
                (record {
                  fail_threshold = get_int_env env (codes "CB_FAIL_THRESHOLD") (pos 5);
                  success_threshold = pos 2;
                  open_timeout =
                      in_seconds (get_duration_env env (codes "CB_OPEN_TIMEOUT_SEC") (pos 30));
                  half_open_max_concurrent = pos 2;
                  name = codes "origin";
                })
                now;
          retry_config = new_config (pos 3) (pos 100_000_000) (pos 5_000_000_000) false;
          retry_metrics = record {
            cancelled = 0;
            success = 0;
            failure = 0;
            retries_total = 0;
            exhausted_total = 0;
          };
        });
        requests_total = [];
        fetches = 0;
      };
      checker =
          add_targets cache_nodes
            (new_checker (pos 5_000_000_000) (pos 2_000_000_000) (pos 3) (pos 2) false);
    }

module _ (hash : Str → ℕ) (sniff : Str → Str) (R : Redis) where
  -- The handler that `startEdgeNode` returns, on the route of the CDN; `none` is the limiter's refusal.
  unfoldable pub serve :
      ℕ → Client → Env → Request → Node × R.Store → (Node × R.Store) × Option Answer
  serve now client meets q (n, s) =
      let (limiter, let_in) = middleware now client n.limiter in
      elim let_in [
        | too_many after limit ↦ ((record n { limiter = limiter }, s), none)
        | pass ↦
            let ((e, s'), answer) = handle_cdn hash sniff R meets q (n.edge, s) in
            ((record n { limiter = limiter; edge = e }, s'), some answer)
      ]
