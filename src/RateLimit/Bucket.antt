-- ===== src/RateLimit/Bucket.antt =====
-- The token bucket: what it holds over time, and what a request takes.
use edge_cdn.Base.{ℕ, ◌+◌, ◌-◌, ◌*◌, ◌≤◌, ◌≡◌, ap, Bool, true, false, arith}
use edge_cdn.RateLimit.{TokenBucket, token, capped, refilled, allow}

abbrev pub tally : Bool → ℕ
tally true = 1
tally false = 0

-- What the bucket holds at a time, in nano-tokens.
unfoldable pub level : ℕ → TokenBucket → ℕ
level now b = capped (refilled now b) b.max_tokens

pub elapsed_split : (a t b r : ℕ) → a ≤ t → t ≤ b → (t - a) * r + (b - t) * r ≡ (b - a) * r
elapsed_split a t b r h k =
    let e : (t - a) + (b - t) ≡ b - a = omega arith in omega (arith, ap (λ (w : ℕ). w * r) e)

pub level-le-max : (t : ℕ) (b : TokenBucket) → level t b ≤ b.max_tokens
unfolding level
level-le-max t b = ground arith

-- A bucket fills at its rate at most.
pub level-grows :
    (t t' : ℕ) (b : TokenBucket)
    → b.last_refill ≤ t
    → t ≤ t'
    → level t' b ≤ level t b + (t' - t) * b.refill_rate
unfolding level
level-grows t t' b h k = ground (arith, elapsed_split b.last_refill t t' b.refill_rate h k)

pub zero_elapsed : (t r : ℕ) → (t - t) * r ≡ 0
zero_elapsed t r = let e : t - t ≡ 0 = omega arith in rw e (omega arith)

-- An allowed request costs one token, at its time.
pub allow-level :
    (t : ℕ) (b : TokenBucket)
    → (level t (allow t b).0 + tally (allow t b).1 * token ≤ level t b)
      × ((allow t b).0.last_refill ≡ t)
      × ((allow t b).0.refill_rate ≡ b.refill_rate)
      × ((allow t b).0.max_tokens ≡ b.max_tokens)
unfolding allow level
allow-level t b = ground (arith, zero_elapsed t b.refill_rate)
