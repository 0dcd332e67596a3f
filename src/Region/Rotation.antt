-- ===== src/Region/Rotation.antt =====
-- internal/region/region.go, `roundRobin`: whose turn it is.
use native.Mathlib.Nat.{mod-eq_of_lt, mod-lt, mod-add-mod}
use edge_cdn.Base.{
  ℕ, zero, suc, ◌+◌, ◌%◌, ◌<◌, ◌≡◌, refl, sym, ap, ◌∙◌, true, some, List, [], ◌∷◌, arith, length,
  get_or, All,
}
use edge_cdn.Base.Text.{Str}
use edge_cdn.Region.{Router, routable_at, rotate, round_robin}

All-get_or :
    (P : Str → Type 0) (xs : List Str) (i : ℕ) → All P xs → i < length xs → P (get_or xs i [])
All-get_or P [] i a h = absurd (omega arith)
All-get_or P (x ∷ xs) zero a h = a.0
All-get_or P (x ∷ xs) (suc i) a h = All-get_or P xs i a.1 (omega arith)

module _ {Real : Type 0} where
  -- The state after some calls of `roundRobin`.
  unfoldable pub turns : ℕ → Router Real → Router Real
  turns zero r = r
  turns (suc k) r = turns k (round_robin r).0

  abbrev pub AreUp : Router Real → Type 0
  AreUp r = All (λ n. routable_at n r.regions ≡ true) r.order × (r.rr_index < length r.order)

  rotate_first : (k : ℕ) (r : Router Real) → 0 < k → AreUp r → rotate k 0 r ≡ some r.rr_index
  unfolding rotate
  rotate_first zero r h up = absurd (omega arith)
  rotate_first (suc k) r h up =
      let here : (r.rr_index + 0) % length r.order ≡ r.rr_index =
        mod-eq_of_lt (omega (arith, up.1)) ∙ omega arith in
      let hit : routable_at (get_or r.order r.rr_index []) r.regions ≡ true =
        All-get_or (λ n. routable_at n r.regions ≡ true) r.order r.rr_index up.0 up.1 in
      ground (arith, here, hit)

  one_turn :
      (r : Router Real)
      → AreUp r
      → ((round_robin r).1 ≡ get_or r.order r.rr_index [])
        × ((round_robin r).0.rr_index ≡ (r.rr_index + 1) % length r.order)
        × ((round_robin r).0.order ≡ r.order)
        × ((round_robin r).0.regions ≡ r.regions)
  unfolding round_robin
  one_turn r up = ground (arith, up.1, rotate_first (length r.order) r (omega (arith, up.1)) up)

  turn-AreUp : (r : Router Real) → AreUp r → AreUp (round_robin r).0
  turn-AreUp r up =
      let (_, index, order, regions) = one_turn r up in
      let lt : (r.rr_index + 1) % length r.order < length r.order =
        mod-lt (r.rr_index + 1) (omega (arith, up.1)) in
      rw (order, regions, index) (up.0, lt)

  -- While every region of the order can serve, the calls of `roundRobin` return the regions of the order by
  -- turns, from the index of the rotation on, round its end.
  pub turns_in_order :
      (k : ℕ) (r : Router Real)
      → AreUp r
      → (round_robin (turns k r)).1 ≡ get_or r.order ((r.rr_index + k) % length r.order) []
  unfolding turns
  turns_in_order zero r up =
      let here : (r.rr_index + 0) % length r.order ≡ r.rr_index =
        mod-eq_of_lt (omega (arith, up.1)) ∙ omega arith in
      (one_turn r up).0 ∙ ap (λ i. get_or r.order i []) (sym here)
  turns_in_order (suc k) r up =
      let (_, index, order, _) = one_turn r up in
      let n = length r.order in
      let next : ((r.rr_index + 1) % n + k) % n ≡ (r.rr_index + suc k) % n =
        mod-add-mod (r.rr_index + 1) n k ∙ ap (λ i. i % n) (omega arith) in
      turns_in_order k (round_robin r).0 (turn-AreUp r up)
      ∙ rw (order, index) refl
      ∙ ap (λ i. get_or r.order i []) next
