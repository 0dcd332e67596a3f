-- ===== src/Shield/Totals.antt =====
-- Sums over the requests below a number.
use edge_cdn.Base.{ℕ, zero, suc, ◌+◌, ◌≤◌, ◌<◌, ◌≡◌, refl, arith, ℕ_discrete}
use edge_cdn.Shield.{Phase, update}

module _ {A : Type 0} (f : Phase A → ℕ) where
  unfoldable pub total : ℕ → (ℕ → Phase A) → ℕ
  total zero rs = 0
  total (suc n) rs = f (rs n) + total n rs

  total_above :
      (n i : ℕ) (rs : ℕ → Phase A) (p : Phase A) → n ≤ i → total n (update rs i p) ≡ total n rs
  unfolding total
  total_above zero i rs p h = refl
  total_above (suc n) i rs p h = ground (arith, total_above n i rs p)

  pub total-update :
      (n i : ℕ) (rs : ℕ → Phase A) (p : Phase A)
      → i < n
      → total n (update rs i p) + f (rs i) ≡ total n rs + f p
  unfolding total
  total-update zero i rs p h = absurd (omega arith)
  total-update (suc n) i rs p h = elim (ℕ_discrete i n) [
    | yes e ↦ ground (arith, total_above n i rs p)
    | no ne ↦ ground (arith, total-update n i rs p)
  ]
