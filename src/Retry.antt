-- ===== src/Retry.antt =====
-- internal/retry/retry.go: retries with exponential backoff. The operation, the context and the
-- waits are outside: each attempt enters as a `Round`, which says what the context, the operation
-- and the wait after it do. Durations are nanoseconds. The length of a wait, with the fields that only
-- give it, the multiplier and the jitter, is in Retry/Backoff.
pub mod Attempts
pub mod Backoff
pub mod Waits
use edge_cdn.Base.{
  ℕ, zero, suc, ◌+◌, ◌-◌, ◌*◌, ◌/◌, Bool, true, false, not, ◌&&◌, Option, none, some, List, [], ◌∷◌,
  ◌++◌, ltb, leb, if◌then◌else◌, length, ◌%◌, ◌==◌,
}
use edge_cdn.Base.Text.{Str, codes}
use edge_cdn.Base.Int.{ℤ, pos, negsuc, positive_or}

-- The integer fields of the configuration as `New` leaves them, and whether a `RetryableCheck` is
-- set; the check itself is `retryable` below.
pub record Config : Type 0 where
  pub max_attempts : ℕ
  pub initial_backoff : ℕ
  pub max_backoff : ℕ
  pub has_check : Bool

unfoldable pub new_config : ℤ → ℤ → ℤ → Bool → Config
new_config max_attempts initial_backoff max_backoff has_check = record {
  max_attempts = positive_or 3 max_attempts;
  initial_backoff = positive_or 100_000_000 initial_backoff;
  max_backoff = positive_or 5_000_000_000 max_backoff;
  has_check = has_check;
}

-- The Prometheus counters; the first three are `attemptsTotal` by outcome.
pub record Metrics : Type 0 where
  pub cancelled : ℕ
  pub success : ℕ
  pub failure : ℕ
  pub retries_total : ℕ
  pub exhausted_total : ℕ

-- An operation's result: a value or an error.
pub data Result (A E : Type 0) : Type 0 where
  ok : A → Result A E
  failed : E → Result A E

-- One turn of the loop: the context's error before the attempt, what the operation would return,
-- and the context's error if it is done before the wait is over.
pub record Round (A E : Type 0) : Type 0 where
  pub before : Option E
  pub call : Result A E
  pub during_wait : Option E

-- What `Do` returns: the value; the context's error; an error that is not worth retrying; or
-- `RetriesExhaustedError` with the number of attempts and the last error.
pub data Outcome (A E : Type 0) : Type 0 where
  returned : A → Outcome A E
  context_error : E → Outcome A E
  not_retried : E → Outcome A E
  exhausted : ℕ → Option E → Outcome A E

module _ {A E : Type 0} (cfg : Config) (retryable : E → Bool) (rounds : ℕ → Round A E) where
  -- The loop of `Do` with `k` attempts left from `attempt`, the last error so far, and the
  -- number of calls of the operation, counted for the statements.
  unfoldable pub do_loop : ℕ → ℕ → Option E → Metrics → ℕ → Outcome A E × Metrics × ℕ
  do_loop zero attempt last m calls =
      (exhausted cfg.max_attempts last, record m { exhausted_total = m.exhausted_total + 1 }, calls)
  do_loop (suc k) attempt last m calls = elim ((rounds attempt).before) [
    | some e ↦ (context_error e, record m { cancelled = m.cancelled + 1 }, calls)
    | none ↦ elim ((rounds attempt).call) [
      | ok a ↦ (returned a, record m { success = m.success + 1 }, suc calls)
      | failed e ↦ elim (cfg.has_check && not (retryable e)) [
        | true ↦ (not_retried e, record m { failure = m.failure + 1 }, suc calls)
        | false ↦ elim (ltb attempt (cfg.max_attempts - 1)) [
          | false ↦
              do_loop k (attempt + 1) (some e) (record m { failure = m.failure + 1 }) (suc calls)
          | true ↦ elim ((rounds attempt).during_wait) [
            | some e' ↦ (
              context_error e',
              record m {
                failure = m.failure + 1;
                retries_total = m.retries_total + 1;
                cancelled = m.cancelled + 1;
              },
              suc calls,
            )
            | none ↦
                do_loop k (attempt + 1) (some e)
                  (record m { failure = m.failure + 1; retries_total = m.retries_total + 1 })
                  (suc calls)
          ]
        ]
      ]
    ]
  ]

  -- `Retryer.Do`
  unfoldable pub retry : Metrics → Outcome A E × Metrics × ℕ
  retry m = do_loop cfg.max_attempts 0 none m 0

-- `uitoa`: the digits are written from the end of a buffer of 20 bytes; `room` is the index `i`, and
-- each round takes one place.
uitoa_loop : ℕ → ℕ → Str → Str
uitoa_loop zero n buf = buf
uitoa_loop (suc room) n buf =
    let rest = uitoa_loop room (n / 10) ((48 + n % 10) ∷ buf) in if n == 0 then buf else rest

unfoldable pub uitoa : ℕ → Str
unfolding uitoa_loop
uitoa n = if n == 0 then codes "0" else uitoa_loop 20 n []

unfoldable pub itoa : ℤ → Str
unfolding uitoa
itoa (pos n) = uitoa n
itoa (negsuc n) = b'-' ∷ uitoa (suc n)

-- `RetriesExhaustedError.Error`, over the text of the last error.
unfoldable pub exhausted_message : ℕ → Option Str → Str
unfolding itoa
exhausted_message attempts last =
    let head = codes "all " ++ (itoa (pos attempts) ++ codes " retry attempts exhausted") in
    elim last [ none ↦ head | some e ↦ head ++ (codes ", last error: " ++ e) ]
