-- ===== src/Examples/Limits.antt =====
-- The limiter (internal/ratelimit) with two requests a second and a burst of two.
use edge_cdn.Base.{ℕ, ◌+◌, ◌*◌, ◌/◌, ◌≤◌, ◌≡◌, ltb, if◌then◌else◌, List, [], ◌∷◌, arith}
use edge_cdn.Base.Text.{Str, codes}
use edge_cdn.Base.Int.{pos}
use edge_cdn.RateLimit.{token, new_limiter}
use edge_cdn.RateLimit.Rounding.{seconds, IsRounded, asked_by, allowed_to, allowed_to-bounded}
use edge_cdn.Base.Floats.{Float}
use edge_cdn.Examples.Gateways.{numbers}
use edge_cdn.RateLimit.Cleanup.{
  Event, ask, clean, answers, without_cleanups, answers-without_cleanups,
}

-- Numbers as nano-tokens.
abbrev nano_floats : Float
nano_floats = record numbers {
  of_nat = λ n. n * 1_000_000_000;
  mul = λ a b. a * b / 1_000_000_000;
  div = λ a b. a * 1_000_000_000 / b;
}

abbrev two_tokens : ℕ
two_tokens = 2_000_000_000

exact_seconds : (d : ℕ) → seconds nano_floats d ≡ d
unfolding seconds
exact_seconds d = omega arith

exact_refill : (d r : ℕ) → d * (r * 1_000_000_000) / 1_000_000_000 ≤ d * r + 0
exact_refill d r = omega arith

nano_floats-IsRounded : IsRounded nano_floats 2 0
nano_floats-IsRounded = record {
  lt_irrefl = λ x. ground arith;
  nano = λ x. if ltb two_tokens x then two_tokens else x;
  nano_le = λ x. ground arith;
  nano_lt = λ x y h. ground (arith, h);
  nano_add = λ x y. ground arith;
  nano_mul = λ d r. rw (exact_seconds d) (ground (arith, exact_refill d r));
  nano_sub = λ x h h'. ground (arith, h, h');
}

abbrev three_requests : List (ℕ × Str)
three_requests = (10, codes "x") ∷ (20, codes "y") ∷ (30, codes "x") ∷ []

allowed_to-bounded_example :
    allowed_to nano_floats 2 2 (codes "x") three_requests [] * token
    ≤ 2 * token + 90 * 2 + asked_by (codes "x") three_requests * 0
allowed_to-bounded_example =
    allowed_to-bounded nano_floats 2 2 0 nano_floats-IsRounded (codes "x") three_requests 10 100 []
      (omega arith) tt

abbrev x_key : Str
x_key = codes "x"

abbrev second : ℕ
second = 1_000_000_000

-- Two requests, a cleanup six minutes later, and a third request.
abbrev visits : List Event
visits = ask 0 x_key ∷ ask 1 x_key ∷ clean (360 * second) ∷ ask (361 * second) x_key ∷ []

answers-without_cleanups_example :
    answers visits (new_limiter (pos 2) (pos 2))
    ≡ answers (without_cleanups visits) (new_limiter (pos 2) (pos 2))
unfolding new_limiter
answers-without_cleanups_example =
    answers-without_cleanups (pos 2) (pos 2) 0 visits (omega arith) (ground arith)
