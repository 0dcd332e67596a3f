-- ===== src/RateLimit/Clients.antt =====
-- The limiter over a sequence of requests of many clients.
use edge_cdn.Base.{
  ℕ, ◌+◌, ◌-◌, ◌*◌, ◌≤◌, ◌≡◌, refl, sym, ◌∙◌, ite, Option, none, some, List, [], ◌∷◌, arith,
  Option-cases,
}
use mathlib.Core.Path.{subst₂}
use edge_cdn.Base.Text.{Str, str_dec}
use edge_cdn.Base.Maps.{lookup, insert, lookup-insert}
use edge_cdn.RateLimit.{TokenBucket, Limiter, token, allow, fresh_bucket, allow_key}
use edge_cdn.RateLimit.Bucket.{elapsed_split, tally, level, level-le-max, level-grows, allow-level}

-- The bucket that a request of the client would draw on.
abbrev pub bucket_in : ℕ → Limiter → Option TokenBucket → TokenBucket
bucket_in now l none = fresh_bucket now l
bucket_in now l (some b) = b

abbrev pub bucket_for : ℕ → Str → Limiter → TokenBucket
bucket_for now k l = bucket_in now l (lookup str_dec k l.buckets)

-- A request changes the bucket of its own client only, and is answered by that bucket.
pub allow_key-buckets :
    (now : ℕ) (k j : Str) (l : Limiter)
    → let b = bucket_for now k l in
      (lookup str_dec j (allow_key now k l).0.buckets
        ≡ ite (str_dec j k) (some (allow now b).0) (lookup str_dec j l.buckets))
      × ((allow_key now k l).1 ≡ (allow now b).1)
      × ((allow_key now k l).0.burst ≡ l.burst)
      × ((allow_key now k l).0.rps ≡ l.rps)
unfolding allow_key
allow_key-buckets now k j l = ground (
  arith,
  Option-cases (lookup str_dec k l.buckets),
  lookup-insert str_dec j k (fresh_bucket now l) l.buckets,
  lookup-insert str_dec j k (allow now (fresh_bucket now l)).0
      (insert str_dec k (fresh_bucket now l) l.buckets),
  lookup-insert str_dec j k (allow now (bucket_for now k l)).0 l.buckets,
)

-- The number of requests of client `k` that are allowed.
pub allowed_for : Str → List (ℕ × Str) → Limiter → ℕ
allowed_for k [] l = 0
allowed_for k ((t, j) ∷ rs) l =
    let (l', ok) = allow_key t j l in ite (str_dec k j) (tally ok) 0 + allowed_for k rs l'

-- The times of a sequence of requests do not fall, start at `t₀` or later and end by `t₁`.
abbrev pub Within : ℕ → ℕ → List (ℕ × Str) → Type 0
Within t₀ t₁ [] = t₀ ≤ t₁
Within t₀ t₁ ((t, j) ∷ rs) = (t₀ ≤ t) × Within t t₁ rs

pub Within-le : (rs : List (ℕ × Str)) (t₀ t₁ : ℕ) → Within t₀ t₁ rs → t₀ ≤ t₁
Within-le [] t₀ t₁ w = w
Within-le ((t, j) ∷ rs) t₀ t₁ w = omega (arith, Within-le rs t t₁ w.1)

-- A client's bucket, if it has one, is that of a limiter of the given burst and rate, and was last
-- filled by `t`.
abbrev pub IsFor : ℕ → ℕ → ℕ → Option TokenBucket → Type 0
IsFor t burst rps none = Unit {0}
IsFor t burst rps (some b) =
    (b.max_tokens ≡ burst * token) × (b.refill_rate ≡ rps) × (b.last_refill ≤ t)

-- What the client can draw at a time.
unfoldable pub credit : ℕ → ℕ → Option TokenBucket → ℕ
credit t burst none = burst * token
credit t burst (some b) = level t b

module _ (burst rps : ℕ) where
  pub credit-grows :
      (t t' : ℕ) (o : Option TokenBucket)
      → IsFor t burst rps o
      → t ≤ t'
      → credit t' burst o ≤ credit t burst o + (t' - t) * rps
  unfolding credit
  credit-grows t t' none f h = omega arith
  credit-grows t t' (some b) f h = ground (arith, level-grows t t' b f.2 h)

  IsFor-later :
      (t t' : ℕ) (o : Option TokenBucket) → t ≤ t' → IsFor t burst rps o → IsFor t' burst rps o
  IsFor-later t t' none h f = tt
  IsFor-later t t' (some b) h f = (f.0, f.1, omega arith)

  pub credit-le-burst :
      (t : ℕ) (o : Option TokenBucket) → IsFor t burst rps o → credit t burst o ≤ burst * token
  unfolding credit
  credit-le-burst t none f = omega arith
  credit-le-burst t (some b) f = omega (arith, level-le-max t b)

  credit-allow :
      (t : ℕ) (b : TokenBucket)
      → b.max_tokens ≡ burst * token
      → b.refill_rate ≡ rps
      → IsFor t burst rps (some (allow t b).0)
        × (level t (allow t b).0 + tally (allow t b).1 * token ≤ level t b)
  credit-allow t b m r = ground (arith, allow-level t b)

abbrev Paid : ℕ → ℕ → ℕ → Option TokenBucket → Option TokenBucket → ℕ → Type 0
Paid t burst rps o o' n = IsFor t burst rps o' × (credit t burst o' + n * token ≤ credit t burst o)

Paid-along :
    (t burst rps : ℕ) (o o₁ o₂ : Option TokenBucket) (n₁ n₂ : ℕ)
    → Paid t burst rps o o₁ n₁
    → o₂ ≡ o₁
    → n₂ ≡ n₁
    → Paid t burst rps o o₂ n₂
Paid-along t burst rps o o₁ o₂ n₁ n₂ p e e' = subst₂ (Paid t burst rps o) (sym e) (sym e') p

-- The bucket that serves a request, and what it leaves of the client's credit.
served :
    (t : ℕ) (l : Limiter) (o : Option TokenBucket)
    → IsFor t l.burst l.rps o
    → let r = allow t (bucket_in t l o) in Paid t l.burst l.rps o (some r.0) (tally r.1)
unfolding credit fresh_bucket
served t l none f = ground (
  arith,
  credit-allow l.burst l.rps t (fresh_bucket t l) refl refl,
  level-le-max t (fresh_bucket t l),
)
served t l (some b) f = credit-allow l.burst l.rps t b f.0 f.1

-- One request leaves every client's bucket in order, and is paid for from its own.
allow_key-Paid :
    (k : Str) (t : ℕ) (j : Str) (l : Limiter)
    → IsFor t l.burst l.rps (lookup str_dec k l.buckets)
    → Paid t l.burst l.rps
        (lookup str_dec k l.buckets)
        (lookup str_dec k (allow_key t j l).0.buckets)
        (ite (str_dec k j) (tally (allow_key t j l).1) 0)
allow_key-Paid k t j l f = elim (str_dec k j) [
  | yes p ↦
      let r = allow t (bucket_in t l o) in
      Paid-along t l.burst l.rps o (some r.0) _ (tally r.1) _ (served t l o f)
        (ground (arith, buckets)) (ground (arith, buckets))
  | no p ↦
      Paid-along t l.burst l.rps o o _ 0 _ (f, omega arith) (ground (arith, buckets)) (ground arith)
]
  where
    o : Option TokenBucket
    o = lookup str_dec k l.buckets

    buckets :
        let b = bucket_for t j l in
        (lookup str_dec k (allow_key t j l).0.buckets ≡ ite (str_dec k j) (some (allow t b).0) o)
        × ((allow_key t j l).1 ≡ (allow t b).1)
    buckets = let (e, e', _, _) = allow_key-buckets t j k l in (e, e')

allowed_for-credit :
    (k : Str) (rs : List (ℕ × Str)) (t₀ t₁ burst rps : ℕ) (l : Limiter)
    → l.burst ≡ burst
    → l.rps ≡ rps
    → Within t₀ t₁ rs
    → IsFor t₀ burst rps (lookup str_dec k l.buckets)
    → allowed_for k rs l * token ≤ credit t₀ burst (lookup str_dec k l.buckets) + (t₁ - t₀) * rps
unfolding allowed_for
allowed_for-credit k [] t₀ t₁ burst rps l eb er w f = omega arith
allowed_for-credit k ((t, j) ∷ rs) t₀ t₁ burst rps l eb er w f =
    let o = lookup str_dec k l.buckets in
    let (_, _, eb', er') = allow_key-buckets t j k l in
    let f' = IsFor-later burst rps t₀ t o w.0 f in
    let o' = lookup str_dec k (allow_key t j l).0.buckets in
    let n = ite (str_dec k j) (tally (allow_key t j l).1) 0 in
    let paid : Paid t burst rps o o' n =
      subst₂ (λ b r. Paid t b r o o' n) eb er
        (allow_key-Paid k t j l (subst₂ (λ b r. IsFor t b r o) (sym eb) (sym er) f')) in
    omega (
      arith,
      credit-grows burst rps t₀ t o f w.0,
      paid.1,
      allowed_for-credit k rs t t₁ burst rps (allow_key t j l).0 (eb' ∙ eb) (er' ∙ er) w.1 paid.0,
      elapsed_split t₀ t t₁ rps w.0 (Within-le rs t t₁ w.1),
    )

-- With tokens counted exactly, without the rounding of the code's `float64`:
-- for requests in the order of their times, between `t₀` and `t₁`, a client whose bucket, if it has
-- one, is one of the limiter and was last filled by `t₀` is allowed at most `burst` requests and
-- `rps` more for each second, whatever the other clients send.
pub allowed_for-bounded :
    (k : Str) (rs : List (ℕ × Str)) (t₀ t₁ : ℕ) (l : Limiter)
    → Within t₀ t₁ rs
    → IsFor t₀ l.burst l.rps (lookup str_dec k l.buckets)
    → allowed_for k rs l * token ≤ l.burst * token + (t₁ - t₀) * l.rps
allowed_for-bounded k rs t₀ t₁ l w f = omega (
  arith,
  allowed_for-credit k rs t₀ t₁ l.burst l.rps l refl refl w f,
  credit-le-burst l.burst l.rps t₀ (lookup str_dec k l.buckets) f,
)
