-- ===== src/Shield/Reached.antt =====
-- Every state that the shield reaches keeps its invariant.
use edge_cdn.Base.{ℕ, ◌≡◌, inl, inr, some, arith, leb, Option-cases, Bool-cases}
use edge_cdn.Base.Text.{Str, str_dec}
use edge_cdn.Base.Int.{ℤ}
use edge_cdn.Base.Maps.{lookup}
use edge_cdn.Shield.{
  own, coalesced, context_done, too_many_waiters, idle, Shield, new_shield, join, lead, arrive,
  finish, clear, deliver, cancel,
}
use edge_cdn.Shield.Steps.{
  Step, arrives, finishes, clears, delivers, cancels, Reach, start, later, IsValid,
}
use edge_cdn.Shield.Invariant.{retire-Inv, join-Inv, lead-Inv, finish-Inv, clear-Inv}

module _ {A : Type 0} where
  new_shield-IsValid : (limit : ℤ) → IsValid {A = A} (new_shield limit)
  unfolding new_shield
  new_shield-IsValid limit = record {
    led = λ p c e. cc;
    mapped = λ i c st p e. cc;
    one = λ i j c d st st' p e e'. cc;
    done = λ i c p e. cc;
    awaited = λ i c e. cc;
    bounded = λ c. omega arith;
  }

  join-IsValid :
      (i c : ℕ) (path : Str) (s : Shield A)
      → IsValid s
      → s.requests i ≡ idle
      → lookup str_dec path s.inflight ≡ some c
      → IsValid (join i c s)
  unfolding join
  join-IsValid i c path s v free e = elim (Bool-cases (leb s.max_waiters (s.calls c).shared)) [
    | inl full ↦ rw full (
        retire-Inv s.max_waiters s.inflight s.calls s.next s.requests v i too_many_waiters
          (λ d st p l. ground arith))
    | inr room ↦ rw room (
        join-Inv s.max_waiters s.inflight s.calls s.next s.requests v i c path free e
          (ground arith))
  ]

  arrive-IsValid :
      (i : ℕ) (path : Str) (s : Shield A)
      → IsValid s
      → s.requests i ≡ idle
      → IsValid (arrive i path s)
  unfolding arrive lead
  arrive-IsValid i path s v free = elim (Option-cases (lookup str_dec path s.inflight)) [
    | inl e ↦
        rw (arrive, e) (lead-Inv s.max_waiters s.inflight s.calls s.next s.requests v i path free e)
    | inr (c, e) ↦ rw (arrive, e) (join-IsValid i c path s v free e)
  ]

  Step-IsValid : {s t : Shield A} → IsValid s → Step s t → IsValid t
  unfolding finish clear deliver cancel
  Step-IsValid {s} v (arrives i path free) = arrive-IsValid i path s v free
  Step-IsValid {s} v (finishes i c path r e) =
      finish-Inv s.max_waiters s.inflight s.calls s.next s.requests v i c path r e
  Step-IsValid {s} v (clears i c path r e d) =
      clear-Inv s.max_waiters s.inflight s.calls s.next s.requests v i c path (own r) e
  Step-IsValid {s} v (delivers i c r e d) =
      retire-Inv s.max_waiters s.inflight s.calls s.next s.requests v i (coalesced r)
        (λ d st p l. ground arith)
  Step-IsValid {s} v (cancels i c e) =
      retire-Inv s.max_waiters s.inflight s.calls s.next s.requests v i context_done
        (λ d st p l. ground arith)

  pub Reach-IsValid : {limit : ℤ} {s : Shield A} → Reach limit s → IsValid s
  Reach-IsValid {limit} start = new_shield-IsValid limit
  Reach-IsValid (later r st) = Step-IsValid (Reach-IsValid r) st
