-- ===== src/Shield/Waiters.antt =====
-- Who fetches and who waits, in every state that the shield reaches.
use edge_cdn.Base.{ℕ, ◌≤◌, ◌≡◌, ◌⊎◌, some, inl, inr, arith}
use edge_cdn.Base.Text.{Str}
use edge_cdn.Base.Int.{ℤ}
use edge_cdn.Shield.{fetching, coalesced, leads, waits, returned, Shield, finish, deliver}
use edge_cdn.Shield.Steps.{Step, finishes, delivers, Reach}
use edge_cdn.Shield.Reached.{Reach-IsValid}

module _ {A : Type 0} where
  -- In every state that is reached, two requests that fetch one path are the same request.
  pub one_leader :
      (limit : ℤ) (s : Shield A)
      → Reach limit s
      → (i j c d : ℕ) (path : Str) → s.requests i ≡ leads fetching c path
      → s.requests j ≡ leads fetching d path
      → i ≡ j
  one_leader limit s r i j c d path e e' = (Reach-IsValid r).one i j c d fetching fetching path e e'

  -- In every state that is reached, no call is shared by more waiters than the limit.
  shared_le :
      (limit : ℤ) (s : Shield A) → Reach limit s → (c : ℕ) → (s.calls c).shared ≤ s.max_waiters
  shared_le limit s r c = (Reach-IsValid r).bounded c

  delivered : (i : ℕ) (r : A) (s : Shield A) → (deliver i r s).requests i ≡ returned (coalesced r)
  unfolding deliver
  delivered i r s = ground arith

  finished :
      (i j c : ℕ) (path : Str) (r : A) (s : Shield A)
      → s.requests i ≡ waits c
      → s.requests j ≡ leads fetching c path
      → ((finish j c path r s).requests i ≡ waits c)
        × (((finish j c path r s).calls c).result ≡ some r)
  unfolding finish
  finished i j c path r s w l = ground arith

  -- In every state that is reached, the call that a request waits on has its result, and the delivery is
  -- a step that gives the waiter that result; or the call is being fetched, and then the fetch can end with any
  -- outcome, and the delivery is a step after it that gives the waiter that outcome.
  pub waiter_served :
      (limit : ℤ) (s : Shield A)
      → Reach limit s
      → (i c : ℕ) (outcome : A) → s.requests i ≡ waits c
      → ((r : A) × ((s.calls c).result ≡ some r)
          × Step s (deliver i r s)
          × ((deliver i r s).requests i ≡ returned (coalesced r)))
        ⊎ ((j : ℕ) × (path : Str) × (s.requests j ≡ leads fetching c path)
            × Step s (finish j c path outcome s)
            × Step (finish j c path outcome s) (deliver i outcome (finish j c path outcome s))
            × ((deliver i outcome (finish j c path outcome s)).requests i
                ≡ returned (coalesced outcome)))
  waiter_served limit s reached i c outcome w = elim ((Reach-IsValid reached).awaited i c w).1 [
    | inl (r, done) ↦ inl (r, done, delivers i c r w done, delivered i r s)
    | inr (j, path, l) ↦
        let t = finish j c path outcome s in
        let (w', done) = finished i j c path outcome s w l in
        inr (
          j,
          path,
          l,
          finishes j c path outcome l,
          delivers i c outcome w' done,
          delivered i outcome t,
        )
  ]
