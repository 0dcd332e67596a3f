-- ===== src/Region/Choice.antt =====
-- `GetNearestRegion` and `roundRobin` choose a region that can serve, where there is one.
use mathlib.Core.Path.{subst}
use mathlib.Core.Bool.{true≢false}
use native.Mathlib.Nat.{mod-eq_of_lt, add-mod_right}
use edge_cdn.Base.{
  ℕ, zero, suc, ◌+◌, ◌-◌, ◌%◌, ◌≤◌, ◌<◌, ◌≡◌, refl, sym, ◌∙◌, ◌⊎◌, inl, inr, true, false, none,
  some, List, [], ◌∷◌, arith, ℕ_discrete, leb, length, get_or, Bool-cases, Option-cases,
}
use edge_cdn.Base.Text.{Str, str_dec}
use edge_cdn.Base.Maps.{lookup}
use edge_cdn.Base.Floats.{Float}
use edge_cdn.Region.{
  Region, Router, routable_at, keys, rotate, round_robin, haversine, nearest_loop,
  get_nearest_region,
}

rotate-some :
    {Real : Type 0} (k i : ℕ) (r : Router Real) (idx : ℕ)
    → rotate k i r ≡ some idx
    → routable_at (get_or r.order idx []) r.regions ≡ true
unfolding rotate
rotate-some zero i r idx e = absurd (ground arith)
rotate-some (suc k) i r idx e =
    elim (Bool-cases
      (routable_at (get_or r.order ((r.rr_index + i) % length r.order) []) r.regions)) [
        | inl hit ↦
            let e' : some ((r.rr_index + i) % length r.order) ≡ some idx = rw hit at e in
            subst (λ x. routable_at (get_or r.order x []) r.regions ≡ true) (cc) hit
        | inr miss ↦ rotate-some k (i + 1) r idx (rw miss at e)
      ]

rotate-none :
    {Real : Type 0} (k i j : ℕ) (r : Router Real)
    → rotate k i r ≡ none
    → i ≤ j
    → j < i + k
    → routable_at (get_or r.order ((r.rr_index + j) % length r.order) []) r.regions ≡ false
unfolding rotate
rotate-none zero i j r e h h' = absurd (omega arith)
rotate-none (suc k) i j r e h h' =
    elim (Bool-cases
      (routable_at (get_or r.order ((r.rr_index + i) % length r.order) []) r.regions)) [
        | inl hit ↦
            let e' : some ((r.rr_index + i) % length r.order) ≡ none = rw hit at e in
            absurd (ground arith)
        | inr miss ↦ elim (ℕ_discrete i j) [
          | yes p ↦
              subst
                (λ x.
                  routable_at (get_or r.order ((r.rr_index + x) % length r.order) []) r.regions
                  ≡ false)
                p miss
          | no q ↦ rotate-none k (i + 1) j r (rw miss at e) (omega arith) (omega arith)
        ]
      ]

place_here : (n rr p : ℕ) → p < n → rr ≤ p → (rr + (p - rr)) % n ≡ p
place_here n rr p h h' = let e : rr + (p - rr) ≡ p = omega arith in rw e (mod-eq_of_lt h)

place_round : (n rr p : ℕ) → p < n → rr < n → (rr + (p + n - rr)) % n ≡ p
place_round n rr p h h' =
    let e : rr + (p + n - rr) ≡ p + n = omega arith in rw e (add-mod_right p n ∙ mod-eq_of_lt h)

-- Every place of the order is some rounds ahead of the index.
place_ahead : (n rr p : ℕ) → rr < n → p < n → (j : ℕ) × (j < n) × ((rr + j) % n ≡ p)
place_ahead n rr p h h' = elim (Bool-cases (leb rr p)) [
  | inl le ↦ (p - rr, ground arith, place_here n rr p h' (ground arith))
  | inr gt ↦ (p + n - rr, ground arith, place_round n rr p h' h)
]

-- What the loop of `GetNearestRegion` ends with can serve, or is `""`.
nearest_loop-routable :
    (F : Float) (client : Str) (src : Region F.Real) (m : List (Str × Region F.Real))
    (names : List Str) (d : F.Real) (best : Str)
    → (best ≡ []) ⊎ (routable_at best m ≡ true)
    → (nearest_loop F client src m names d best ≡ [])
      ⊎ (routable_at (nearest_loop F client src m names d best) m ≡ true)
unfolding nearest_loop
nearest_loop-routable F client src m [] d best h = h
nearest_loop-routable F client src m (name ∷ names) d best h =
    elim (Option-cases (lookup str_dec name m)) [
      | inl e ↦ rw (e, nearest_loop) (nearest_loop-routable F client src m names d best h)
      | inr (reg, e) ↦ ground (
        arith,
        e,
        nearest_loop-routable F client src m names d best h,
        nearest_loop-routable F client src m names (haversine F src.lat src.lng reg.lat reg.lng)
            name,
      )
    ]

round_robin-routable :
    {Real : Type 0} (r : Router Real) (p : ℕ)
    → r.rr_index < length r.order
    → p < length r.order
    → routable_at (get_or r.order p []) r.regions ≡ true
    → (routable_at (round_robin r).1 r.regions ≡ true) × ((round_robin r).0.regions ≡ r.regions)
unfolding round_robin
round_robin-routable r p h h' ok = elim (Option-cases (rotate (length r.order) 0 r)) [
  | inl e ↦
      let (j, lt, at) = place_ahead (length r.order) r.rr_index p h h' in
      let no_region = rotate-none (length r.order) 0 j r e (omega arith) (omega arith) in
      let no_region' =
        subst (λ x. routable_at (get_or r.order x []) r.regions ≡ false) at no_region in
      absurd (true≢false (sym ok ∙ no_region'))
  | inr (idx, e) ↦ ground (arith, e, rotate-some (length r.order) 0 r idx e)
]

-- Where some region of the order is healthy and has nodes, and the index of the rotation is within
-- the order, the region that `GetNearestRegion`
-- returns is healthy and has nodes, for every hint of the client; the regions are unchanged.
pub get_nearest_region-routable :
    (F : Float) (client : Str) (r : Router F.Real) (p : ℕ)
    → r.rr_index < length r.order
    → p < length r.order
    → routable_at (get_or r.order p []) r.regions ≡ true
    → (routable_at (get_nearest_region F client r).1 r.regions ≡ true)
      × ((get_nearest_region F client r).0.regions ≡ r.regions)
unfolding get_nearest_region
get_nearest_region-routable F client r p h h' ok =
    elim (Option-cases (lookup str_dec client r.regions)) [
      | inl e ↦ rw (e, get_nearest_region) (round_robin-routable r p h h' ok)
      | inr (src, e) ↦ ground (
        arith,
        e,
        round_robin-routable r p h h' ok,
        nearest_loop-routable F client src r.regions (keys r.regions) F.max_float [] (inl refl),
      )
    ]

round_robin-regions : {Real : Type 0} (r : Router Real) → (round_robin r).0.regions ≡ r.regions
unfolding round_robin
round_robin-regions r = ground arith

pub get_nearest_region-regions :
    (F : Float) (client : Str) (r : Router F.Real)
    → (get_nearest_region F client r).0.regions ≡ r.regions
unfolding get_nearest_region
get_nearest_region-regions F client r = ground (arith, round_robin-regions r)
