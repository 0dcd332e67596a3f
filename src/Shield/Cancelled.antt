-- ===== src/Shield/Cancelled.antt =====
-- Requests that joined a call and whose context is done.
use edge_cdn.Base.{ℕ, ◌+◌, ◌≡◌, ◌≢◌, some, List, [], ◌∷◌, arith, length}
use edge_cdn.Base.Text.{Str, str_dec}
use edge_cdn.Base.Maps.{lookup}
use edge_cdn.Shield.{too_many_waiters, waits, returned, Shield, join, arrive, cancel}

module _ {A : Type 0} where
  -- Requests that come for a path one after the other, and whose contexts are done as they wait.
  unfoldable pub come_and_go : List ℕ → Str → Shield A → Shield A
  come_and_go [] path s = s
  come_and_go (i ∷ is) path s = come_and_go is path (cancel i (arrive i path s))

  -- When nobody waits on the call of a path, and requests joined it and left it, cancelled, until as
  -- many had joined as it may have waiters, nobody waits on it, and the next request is still refused.
  pub cancelled_refuse :
      (is : List ℕ) (path : Str) (c j : ℕ) (s : Shield A)
      → lookup str_dec path s.inflight ≡ some c
      → (s.calls c).shared + length is ≡ s.max_waiters
      → ((k : ℕ) → s.requests k ≢ waits c)
      → let t = come_and_go is path s in
        ((k : ℕ) → t.requests k ≢ waits c)
        × ((arrive j path t).requests j ≡ returned too_many_waiters)
  unfolding come_and_go arrive join cancel
  cancelled_refuse [] path c j s e n none_waits = (none_waits, ground (arith, e))
  cancelled_refuse (i ∷ is) path c j s e n none_waits =
      cancelled_refuse is path c j (cancel i (arrive i path s)) (ground (arith, e))
        (ground (arith, e)) (λ k w. ground (arith, e, none_waits k))
