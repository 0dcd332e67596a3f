-- ===== src/RateLimit/Rounding.antt =====
-- internal/ratelimit/ratelimit.go, the token bucket and `Allow` with the source's floats, which round.
use mathlib.Core.Path.{subst}
use edge_cdn.Base.{
  ℕ, ◌+◌, ◌-◌, ◌*◌, ◌/◌, ◌%◌, ◌≤◌, ◌≡◌, ◌≢◌, refl, sym, inl, inr, ite, Bool, true, false, Option,
  none, some, List, [], ◌∷◌, arith, if◌then◌else◌, Bool-cases,
}
use edge_cdn.Base.Text.{Str, str_dec}
use edge_cdn.Base.Maps.{lookup, insert, lookup-insert}
use edge_cdn.Base.Floats.{Float}
use edge_cdn.RateLimit.{TokenBucket, token}
use edge_cdn.RateLimit.Bucket.{tally, level, level-le-max, elapsed_split, zero_elapsed}
use edge_cdn.RateLimit.Clients.{IsFor, Within, Within-le, credit, credit-grows, credit-le-burst}

pub record FloatBucket (Real : Type 0) : Type 0 where
  pub tokens : Real
  pub max_tokens : Real
  pub refill_rate : Real
  pub last_refill : ℕ

-- How many requests a client makes.
unfoldable pub asked_by : Str → List (ℕ × Str) → ℕ
asked_by k [] = 0
asked_by k ((t, j) ∷ rs) = ite (str_dec k j) 1 0 + asked_by k rs

module _ (F : Float) where
  open F use {Real, add, mul, sub, div, lt, le, of_nat}

  -- `Seconds` of a duration.
  unfoldable pub seconds : ℕ → Real
  seconds d = add (of_nat (d / token)) (div (of_nat (d % token)) (of_nat token))

  -- The tokens after the refill, up to the cap.
  unfoldable pub fill : ℕ → FloatBucket Real → Real
  fill now b =
      let filled = add b.tokens (mul (seconds (now - b.last_refill)) b.refill_rate) in
      if lt b.max_tokens filled then b.max_tokens else filled

  -- `tokenBucket.allow`
  unfoldable pub allow_float : ℕ → FloatBucket Real → FloatBucket Real × Bool
  allow_float now b =
      if le (of_nat 1) (fill now b)
      then (record b { tokens = sub (fill now b) (of_nat 1); last_refill = now }, true)
      else (record b { tokens = fill now b; last_refill = now }, false)

  unfoldable pub fresh_float : ℕ → ℕ → ℕ → FloatBucket Real
  fresh_float burst rps now = record {
    tokens = of_nat burst;
    max_tokens = of_nat burst;
    refill_rate = of_nat rps;
    last_refill = now;
  }

  abbrev pub float_bucket : ℕ → ℕ → ℕ → Option (FloatBucket Real) → FloatBucket Real
  float_bucket burst rps now none = fresh_float burst rps now
  float_bucket burst rps now (some b) = b

  -- `Allow`, over the buckets.
  unfoldable pub ask_float :
      ℕ → ℕ → ℕ → Str → List (Str × FloatBucket Real) → List (Str × FloatBucket Real) × Bool
  ask_float burst rps now key m =
      let (b, ok) = allow_float now (float_bucket burst rps now (lookup str_dec key m)) in
      (insert str_dec key b m, ok)

  -- How many requests of a client are allowed.
  unfoldable pub allowed_to : ℕ → ℕ → Str → List (ℕ × Str) → List (Str × FloatBucket Real) → ℕ
  allowed_to burst rps k [] m = 0
  allowed_to burst rps k ((t, j) ∷ rs) m =
      let (m', ok) = ask_float burst rps t j m in
      ite (str_dec k j) (tally ok) 0 + allowed_to burst rps k rs m'

  -- What the rounding of IEEE 754 does to tokens: `nano x` is the number of nano-tokens of `x`, rounded up,
  -- but at most those of a full bucket, and each operation is off by at most `err` of them. For `float64`
  -- and a burst of at most 10^6, `err` can be 2.
  pub record IsRounded (burst err : ℕ) : Type 0 where
    pub lt_irrefl : (x : Real) → lt x x ≡ false
    pub nano : Real → ℕ
    pub nano_le : (x : Real) → nano x ≤ burst * token
    pub nano_lt : (x y : Real) → lt x y ≡ true → nano x ≤ nano y
    pub nano_add : (x y : Real) → nano (add x y) ≤ nano x + nano y + err
    pub nano_mul : (d r : ℕ) → nano (mul (seconds d) (of_nat r)) ≤ d * r + err
    pub nano_sub :
        (x : Real)
        → lt (of_nat burst) x ≡ false
        → le (of_nat 1) x ≡ true
        → nano (sub x (of_nat 1)) + token ≤ nano x + err

  -- A bucket of the limiter that was last filled by a time.
  abbrev pub IsOf : ℕ → ℕ → ℕ → Option (FloatBucket Real) → Type 0
  IsOf t burst rps none = Unit {0}
  IsOf t burst rps (some b) =
      (b.max_tokens ≡ of_nat burst) × (b.refill_rate ≡ of_nat rps) × (b.last_refill ≤ t)

  module _ (burst rps err : ℕ) (law : IsRounded burst err) where
    -- The bucket that a float bucket stands for.
    abbrev exact : FloatBucket Real → TokenBucket
    exact b = record {
      tokens = law.nano b.tokens;
      max_tokens = burst * token;
      refill_rate = rps;
      last_refill = b.last_refill;
    }

    refill-nano :
        (t : ℕ) (b : FloatBucket Real)
        → b.refill_rate ≡ of_nat rps
        → let filled = add b.tokens (mul (seconds (t - b.last_refill)) b.refill_rate) in
          law.nano filled ≤ law.nano b.tokens + (t - b.last_refill) * rps + 2 * err
    refill-nano t b r = rw r (
        omega (
          arith,
          law.nano_add b.tokens (mul (seconds (t - b.last_refill)) (of_nat rps)),
          law.nano_mul (t - b.last_refill) rps,
        ))

    fill-level :
        (t : ℕ) (b : FloatBucket Real)
        → b.refill_rate ≡ of_nat rps
        → law.nano (fill t b) ≤ level t (exact b) + 2 * err
    unfolding fill level
    fill-level t b r =
        let filled = add b.tokens (mul (seconds (t - b.last_refill)) b.refill_rate) in
        ground (
          arith,
          refill-nano t b r,
          law.nano_le filled,
          law.nano_le b.max_tokens,
          law.nano_lt b.max_tokens filled,
        )

    fill-full :
        (t : ℕ) (b : FloatBucket Real)
        → b.max_tokens ≡ of_nat burst
        → lt (of_nat burst) (fill t b) ≡ false
    unfolding fill
    fill-full t b m =
        let filled = add b.tokens (mul (seconds (t - b.last_refill)) b.refill_rate) in
        elim (Bool-cases (lt b.max_tokens filled)) [
          | inl y ↦ rw (y, m) (law.lt_irrefl (of_nat burst))
          | inr n ↦ rw (n, sym m) n
        ]

    -- An allowed request costs one token, but for the rounding.
    allow-level_rounded :
        (t : ℕ) (b : FloatBucket Real)
        → b.max_tokens ≡ of_nat burst
        → b.refill_rate ≡ of_nat rps
        → let r = allow_float t b in
          IsOf t burst rps (some r.0)
          × (level t (exact r.0) + tally r.1 * token ≤ level t (exact b) + 3 * err)
    unfolding allow_float level
    allow-level_rounded t b m r = elim (Bool-cases (le (of_nat 1) (fill t b))) [
      | inl y ↦ ground (
        arith,
        y,
        fill-level t b r,
        law.nano_sub (fill t b) (fill-full t b m) y,
        zero_elapsed t rps,
      )
      | inr n ↦ ground (arith, n, fill-level t b r, zero_elapsed t rps)
    ]

    abbrev exacts : Option (FloatBucket Real) → Option TokenBucket
    exacts none = none
    exacts (some b) = some (exact b)

    exacts-IsFor :
        (t : ℕ) (o : Option (FloatBucket Real)) → IsOf t burst rps o → IsFor t burst rps (exacts o)
    exacts-IsFor t none f = tt
    exacts-IsFor t (some b) f = (refl, refl, f.2)

    IsOf-later :
        (t t' : ℕ) (o : Option (FloatBucket Real))
        → t ≤ t'
        → IsOf t burst rps o
        → IsOf t' burst rps o
    IsOf-later t t' none h f = tt
    IsOf-later t t' (some b) h f = (f.0, f.1, omega (arith, f.2))

    -- What a request of the client leaves of its credit.
    served_rounded :
        (t : ℕ) (o : Option (FloatBucket Real))
        → IsOf t burst rps o
        → let r = allow_float t (float_bucket burst rps t o) in
          IsOf t burst rps (some r.0)
          × (level t (exact r.0) + tally r.1 * token ≤ credit t burst (exacts o) + 3 * err)
    unfolding credit fresh_float
    served_rounded t none f =
        let b = fresh_float burst rps t in
        let (kept, paid) = allow-level_rounded t b refl refl in
        (kept, omega (arith, paid, level-le-max t (exact b)))
    served_rounded t (some b) f = allow-level_rounded t b f.0 f.1

    ite_own : (k j : Str) (n : ℕ) → k ≡ j → ite (str_dec k j) n 0 ≡ n
    ite_own k j n p = ground (arith, p)

    ite_other : (k j : Str) (n : ℕ) → k ≢ j → ite (str_dec k j) n 0 ≡ 0
    ite_other k j n q = ground (arith, q)

    ask_own :
        (k : Str) (t : ℕ) (m : List (Str × FloatBucket Real))
        → IsOf t burst rps (lookup str_dec k m)
        → let (m', ok) = ask_float burst rps t k m in
          IsOf t burst rps (lookup str_dec k m')
          × (credit t burst (exacts (lookup str_dec k m')) + tally ok * token
              ≤ credit t burst (exacts (lookup str_dec k m)) + 3 * err)
    unfolding ask_float credit
    ask_own k t m f =
        let b = (allow_float t (float_bucket burst rps t (lookup str_dec k m))).0 in
        let e : lookup str_dec k (insert str_dec k b m) ≡ some b =
          ground (arith, lookup-insert str_dec k k b m) in
        rw e (served_rounded t (lookup str_dec k m) f)

    ask_other :
        (k : Str) (t : ℕ) (j : Str) (m : List (Str × FloatBucket Real))
        → k ≢ j
        → lookup str_dec k (ask_float burst rps t j m).0 ≡ lookup str_dec k m
    unfolding ask_float
    ask_other k t j m q =
        let b = (allow_float t (float_bucket burst rps t (lookup str_dec j m))).0 in
        ground (arith, q, lookup-insert str_dec k j b m)

    -- One request leaves every client's bucket in order, and is paid for from its own.
    ask-credit :
        (k : Str) (t : ℕ) (j : Str) (m : List (Str × FloatBucket Real))
        → IsOf t burst rps (lookup str_dec k m)
        → let (m', ok) = ask_float burst rps t j m in
          IsOf t burst rps (lookup str_dec k m')
          × (credit t burst (exacts (lookup str_dec k m')) + ite (str_dec k j) (tally ok) 0 * token
              ≤ credit t burst (exacts (lookup str_dec k m)) + ite (str_dec k j) 1 0 * (3 * err))
    ask-credit k t j m f = elim (str_dec k j) [
      | yes p ↦
          subst
            (λ x.
              IsOf t burst rps (lookup str_dec k (ask_float burst rps t x m).0)
              × (credit t burst (exacts (lookup str_dec k (ask_float burst rps t x m).0))
                    + ite (str_dec k x) (tally (ask_float burst rps t x m).1) 0 * token
                  ≤ credit t burst (exacts (lookup str_dec k m))
                    + ite (str_dec k x) 1 0 * (3 * err)))
            p
            (let (kept, paid) = ask_own k t m f in
              (
                kept,
                rw (ite_own k k (tally (ask_float burst rps t k m).1) refl, ite_own k k 1 refl)
                    (omega (arith, paid)),
              ))
      | no q ↦
          rw
            (
              ask_other k t j m q,
              ite_other k j (tally (ask_float burst rps t j m).1) q,
              ite_other k j 1 q,
            )
            (f, omega arith)
    ]

    split : (a b c : ℕ) → (a + b) * c ≡ a * c + b * c
    split a b c = omega arith

    allowed_to-credit :
        (k : Str) (rs : List (ℕ × Str)) (t₀ t₁ : ℕ) (m : List (Str × FloatBucket Real))
        → Within t₀ t₁ rs
        → IsOf t₀ burst rps (lookup str_dec k m)
        → allowed_to burst rps k rs m * token
          ≤ credit t₀ burst (exacts (lookup str_dec k m))
            + (t₁ - t₀) * rps
            + asked_by k rs * (3 * err)
    unfolding allowed_to asked_by
    allowed_to-credit k [] t₀ t₁ m w f = omega arith
    allowed_to-credit k ((t, j) ∷ rs) t₀ t₁ m w f =
        let o = lookup str_dec k m in
        let f' = IsOf-later t₀ t o w.0 f in
        let (m', ok) = ask_float burst rps t j m in
        let (kept, paid) = ask-credit k t j m f' in
        omega (
          arith,
          split (ite (str_dec k j) 1 0) (asked_by k rs) (3 * err),
          paid,
          credit-grows burst rps t₀ t (exacts o) (exacts-IsFor t₀ o f) w.0,
          allowed_to-credit k rs t t₁ m' w.1 kept,
          elapsed_split t₀ t t₁ rps w.0 (Within-le rs t t₁ w.1),
        )

    -- For floats that round by at most `err` nano-tokens in each operation, and requests in the order of
    -- their times, between `t₀` and `t₁`, a client whose bucket, if it has one, is one of the limiter and
    -- was last filled by `t₀` is allowed at most `burst` requests, `rps` more for each second, and `3 * err`
    -- nano-tokens more for each request that it makes, whatever the other clients send.
    pub allowed_to-bounded :
        (k : Str) (rs : List (ℕ × Str)) (t₀ t₁ : ℕ) (m : List (Str × FloatBucket Real))
        → Within t₀ t₁ rs
        → IsOf t₀ burst rps (lookup str_dec k m)
        → allowed_to burst rps k rs m * token
          ≤ burst * token + (t₁ - t₀) * rps + asked_by k rs * (3 * err)
    allowed_to-bounded k rs t₀ t₁ m w f =
        let o = exacts (lookup str_dec k m) in
        omega (
          arith,
          allowed_to-credit k rs t₀ t₁ m w f,
          credit-le-burst burst rps t₀ o (exacts-IsFor t₀ (lookup str_dec k m) f),
        )
