-- ===== src/Breaker/Graph.antt =====
-- internal/circuitbreaker/circuitbreaker.go as the machine that its comment draws: the states with what
-- leads from one to another, the counts left out.
use edge_cdn.Base.{
  ℕ, ◌+◌, ◌≡◌, refl, true, false, List, [], ◌∷◌, leb, Bool-cases, ◌⊎◌, inl, inr, arith,
}
use edge_cdn.Breaker.{
  State, closed, open_state, half_open, Breaker, begin, complete, state_of, reset,
}
use edge_cdn.Breaker.Machine.{Event, begins, completes, reads, resets, step, run}

-- What an event can do to the state; the number counts the trips.
pub data Edge : Event → State → State → ℕ → Type 0 where
  stays : {e : Event} {s : State} → Edge e s s 0
  trips : {t : ℕ} → Edge (completes false t) closed open_state 1
  trips_again : {t : ℕ} → Edge (completes false t) half_open open_state 1
  tries : {t : ℕ} → Edge (begins t) open_state half_open 0
  shows : {t : ℕ} → Edge (reads t) open_state half_open 0
  recovers : {t : ℕ} → Edge (completes true t) half_open closed 0
  clears : {t : ℕ} {s : State} → Edge (resets t) s closed 0

-- A way through the machine by some events, with its trips.
pub data Walk : List Event → State → State → ℕ → Type 0 where
  done : {s : State} → Walk [] s s 0
  goes :
      {e : Event} {es : List Event} {s t u : State} {k m : ℕ}
      → Edge e s t k
      → Walk es t u m
      → Walk (e ∷ es) s u (k + m)

ruleset edges = (stays, trips, trips_again, tries, shows, recovers, clears)

State-cases : (s : State) → (s ≡ closed) ⊎ (s ≡ open_state) ⊎ (s ≡ half_open)
State-cases closed = inl refl
State-cases open_state = inr (inl refl)
State-cases half_open = inr (inr refl)

Follows : Event → Breaker → Breaker → Type 0
Follows e b b' = (k : ℕ) × Edge e b.state b'.state k × (b'.trips_total ≡ b.trips_total + k)

step-Follows : (b : Breaker) (e : Event) → Follows e b (step b e)
unfolding Follows step begin complete state_of reset
step-Follows b (begins now) = (0, grind (arith, edges), grind arith)
step-Follows b (completes true now) = (0, grind (arith, edges), grind arith)
step-Follows b (completes false now) = elim (State-cases b.state) [
  | inl c ↦ elim (Bool-cases (leb b.cfg.fail_threshold (b.failures + 1))) [
    | inl y ↦ (1, grind (arith, c, y, edges), grind (arith, c, y))
    | inr n ↦ (0, grind (arith, c, n, edges), grind (arith, c, n))
  ]
  | inr (inl o) ↦ (0, grind (arith, o, edges), grind (arith, o))
  | inr (inr h) ↦ (1, grind (arith, h, edges), grind (arith, h))
]
step-Follows b (reads now) = (0, grind (arith, edges), grind arith)
step-Follows b (resets now) = (0, clears, grind arith)

-- Whatever the breaker is and whatever happens to it, its states follow the machine, and the trips that it
-- counts are those of the way that they take: it opens only by a failed call, tries again only from open,
-- closes only by a successful call out of half-open or by a reset.
pub run-Walk :
    (b : Breaker) (es : List Event)
    → (k : ℕ) × Walk es b.state (run b es).state k × ((run b es).trips_total ≡ b.trips_total + k)
unfolding run Follows
run-Walk b [] = (0, done, omega arith)
run-Walk b (e ∷ es) =
    let (k, edge, counted) = step-Follows b e in
    let (m, walk, counted') = run-Walk (step b e) es in
    (k + m, goes edge walk, omega (arith, counted, counted'))
