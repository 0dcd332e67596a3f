-- ===== src/Retry/Attempts.antt =====
-- How often `Do` calls the operation, and what it returns.
use mathlib.Core.Path.{subst}
use edge_cdn.Base.{
  ℕ, zero, suc, ◌+◌, ◌-◌, ◌≤◌, ◌<◌, ◌≡◌, refl, ◌⊎◌, inl, inr, Bool, false, not, ◌&&◌, Option, none,
  some, ◌∙◌, ap, sym, arith, ltb, Bool-cases, ℕ_discrete,
}
use edge_cdn.Retry.{Config, Metrics, Result, Round, ok, failed, returned, exhausted, do_loop, retry}

Result-cases : {A E : Type 0} (r : Result A E) → ((a : A) × (r ≡ ok a)) ⊎ ((e : E) × (r ≡ failed e))
Result-cases (ok a) = inl (a, refl)
Result-cases (failed e) = inr (e, refl)

module _ {A E : Type 0} (cfg : Config) (retryable : E → Bool) (rounds : ℕ → Round A E) where
  do_loop-zero :
      (attempt : ℕ) (last : Option E) (m : Metrics) (calls : ℕ)
      → ((do_loop cfg retryable rounds zero attempt last m calls).0
          ≡ exhausted cfg.max_attempts last)
        × ((do_loop cfg retryable rounds zero attempt last m calls).2 ≡ calls)
  unfolding do_loop
  do_loop-zero attempt last m calls = (refl, refl)

  do_loop_calls :
      (k attempt : ℕ) (last : Option E) (m : Metrics) (calls : ℕ)
      → (do_loop cfg retryable rounds k attempt last m calls).2 ≤ calls + k
  unfolding do_loop
  do_loop_calls zero attempt last m calls = omega arith
  do_loop_calls (suc k) attempt last m calls =
      let failed_once = record m { failure = m.failure + 1 } in
      let retried_once = record failed_once { retries_total = m.retries_total + 1 } in
      elim (Result-cases ((rounds attempt).call)) [
        | inl (a, e) ↦ ground (arith, e)
        | inr (x, e) ↦ ground (
          arith,
          e,
          do_loop_calls k (attempt + 1) (some x) failed_once (suc calls),
          do_loop_calls k (attempt + 1) (some x) retried_once (suc calls),
        )
      ]

  -- An attempt that is made and retried: the context is not done, neither before it nor during the
  -- wait, and the operation returns an error that is worth retrying.
  abbrev pub IsRetried : ℕ → E → Type 0
  IsRetried i e =
      ((rounds i).before ≡ none)
      × ((rounds i).call ≡ failed e)
      × ((cfg.has_check && not (retryable e)) ≡ false)
      × ((rounds i).during_wait ≡ none)

  retried_step :
      (k attempt : ℕ) (e : E) (last : Option E) (m : Metrics) (calls : ℕ)
      → IsRetried attempt e
      → (m' : Metrics) × (do_loop cfg retryable rounds (suc k) attempt last m calls
          ≡ do_loop cfg retryable rounds k (attempt + 1) (some e) m' (suc calls))
  unfolding do_loop
  retried_step k attempt e last m calls r = elim (Bool-cases (ltb attempt (cfg.max_attempts - 1))) [
    | inl c ↦ (
      record m { failure = m.failure + 1; retries_total = m.retries_total + 1 },
      ground (arith, c),
    )
    | inr c ↦ (record m { failure = m.failure + 1 }, ground (arith, c))
  ]

  returns_now :
      (k attempt : ℕ) (last : Option E) (m : Metrics) (calls : ℕ) (a : A)
      → (rounds attempt).before ≡ none
      → (rounds attempt).call ≡ ok a
      → ((do_loop cfg retryable rounds (suc k) attempt last m calls).0 ≡ returned a)
        × ((do_loop cfg retryable rounds (suc k) attempt last m calls).2 ≡ suc calls)
  unfolding do_loop
  returns_now k attempt last m calls a b c = ground (arith, b, c)

  exhausts :
      (errors : ℕ → E) (k attempt : ℕ) (last : Option E) (m : Metrics) (calls : ℕ)
      → attempt + suc k ≡ cfg.max_attempts
      → ((i : ℕ) → attempt ≤ i → i < cfg.max_attempts → IsRetried i (errors i))
      → let r = do_loop cfg retryable rounds (suc k) attempt last m calls in
        (r.0 ≡ exhausted cfg.max_attempts (some (errors (cfg.max_attempts - 1))))
        × (r.2 ≡ calls + suc k)
  exhausts errors zero attempt last m calls e h =
      let (m', step) =
        retried_step zero attempt (errors attempt) last m calls
          (h attempt (omega arith) (omega arith)) in
      let (o, n) = do_loop-zero (attempt + 1) (some (errors attempt)) m' (suc calls) in
      let here : attempt ≡ cfg.max_attempts - 1 = omega arith in
      (
        ap (λ r. r.0) step ∙ o ∙ ap (λ i. exhausted cfg.max_attempts (some (errors i))) here,
        ap (λ r. r.2) step ∙ n ∙ omega arith,
      )
  exhausts errors (suc k) attempt last m calls e h =
      let (m', step) =
        retried_step (suc k) attempt (errors attempt) last m calls
          (h attempt (omega arith) (omega arith)) in
      let (o, n) =
        exhausts errors k (attempt + 1) (some (errors attempt)) m' (suc calls) (omega arith)
          (λ i p q. h i (omega arith) q) in
      (ap (λ r. r.0) step ∙ o, ap (λ r. r.2) step ∙ n ∙ omega arith)

  succeeds :
      (errors : ℕ → E) (j : ℕ) (a : A) (k attempt : ℕ) (last : Option E) (m : Metrics) (calls : ℕ)
      → attempt ≤ j
      → j < attempt + k
      → ((i : ℕ) → attempt ≤ i → i < j → IsRetried i (errors i))
      → (rounds j).before ≡ none
      → (rounds j).call ≡ ok a
      → let r = do_loop cfg retryable rounds k attempt last m calls in
        (r.0 ≡ returned a) × (r.2 + attempt ≡ calls + suc j)
  succeeds errors j a zero attempt last m calls l g h b c = absurd (omega arith)
  succeeds errors j a (suc k) attempt last m calls l g h b c = elim (ℕ_discrete attempt j) [
    | yes p ↦
        let (o, n) =
          returns_now k attempt last m calls a (subst (λ i. (rounds i).before ≡ none) (sym p) b)
            (subst (λ i. (rounds i).call ≡ ok a) (sym p) c) in
        (o, omega arith)
    | no q ↦
        let (m', step) =
          retried_step k attempt (errors attempt) last m calls
            (h attempt (omega arith) (omega arith)) in
        let (o, n) =
          succeeds errors j a k (attempt + 1) (some (errors attempt)) m' (suc calls) (omega arith)
            (omega arith) (λ i p r. h i (omega arith) r) b c in
        (ap (λ r. r.0) step ∙ o, omega (arith, ap (λ r. r.2) step))
  ]

  -- `Do` calls the operation at most `max_attempts` times.
  pub retry-calls-le : (m : Metrics) → (retry cfg retryable rounds m).2 ≤ cfg.max_attempts
  unfolding retry
  retry-calls-le m = omega (arith, do_loop_calls cfg.max_attempts 0 none m 0)

  -- If `max_attempts` is positive and every attempt fails and is retried, `Do` calls the operation exactly `max_attempts` times
  -- and returns the exhausted error with that number and the last attempt's error.
  pub retry_exhausts :
      (m : Metrics) (errors : ℕ → E)
      → 0 < cfg.max_attempts
      → ((i : ℕ) → i < cfg.max_attempts → IsRetried i (errors i))
      → ((retry cfg retryable rounds m).0
          ≡ exhausted cfg.max_attempts (some (errors (cfg.max_attempts - 1))))
        × ((retry cfg retryable rounds m).2 ≡ cfg.max_attempts)
  unfolding retry
  retry_exhausts m errors h all =
      let e : suc (cfg.max_attempts - 1) ≡ cfg.max_attempts = omega arith in
      subst
        (λ k.
          ((do_loop cfg retryable rounds k 0 none m 0).0
            ≡ exhausted cfg.max_attempts (some (errors (cfg.max_attempts - 1))))
          × ((do_loop cfg retryable rounds k 0 none m 0).2 ≡ k))
        e
        (let (o, n) =
            exhausts errors (cfg.max_attempts - 1) 0 none m 0 (omega arith) (λ i p q. all i q) in
          (o, n ∙ omega arith))

  -- If attempt `j`, counted from 0 and below `max_attempts`, is the first that is not retried, and it
  -- succeeds, `Do`
  -- returns its value after `j + 1` calls.
  pub retry_succeeds :
      (m : Metrics) (errors : ℕ → E) (j : ℕ) (a : A)
      → j < cfg.max_attempts
      → ((i : ℕ) → i < j → IsRetried i (errors i))
      → (rounds j).before ≡ none
      → (rounds j).call ≡ ok a
      → ((retry cfg retryable rounds m).0 ≡ returned a) × ((retry cfg retryable rounds m).2 ≡ j + 1)
  unfolding retry
  retry_succeeds m errors j a h all b c =
      let (o, n) =
        succeeds errors j a cfg.max_attempts 0 none m 0 (omega arith) (omega arith)
          (λ i p q. all i q) b c in
      (o, omega (arith, n))
