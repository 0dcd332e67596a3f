-- ===== src/Warming/Hot.antt =====
-- The hot paths: the most used of the paths that are used often enough.
use mathlib.Core.Path.{subst}
use edge_cdn.Base.{
  ℕ, zero, suc, ◌≤◌, ◌≡◌, refl, sym, ◌⊎◌, inl, inr, List, [], ◌∷◌, arith, ltb, leb, length, All,
  Bool-cases,
}
use edge_cdn.Base.Text.{Str}
use edge_cdn.Warming.{PathAccess, Warmer, over_threshold, place, by_count, take, get_hot_paths}

abbrev pub Stands : PathAccess → List PathAccess → Type 0
Stands a [] = ⊥
Stands a (b ∷ bs) = (a ≡ b) ⊎ Stands a bs

abbrev pub IsTracked : PathAccess → List (Str × PathAccess) → Type 0
IsTracked a [] = ⊥
IsTracked a ((k, b) ∷ m) = (a ≡ b) ⊎ IsTracked a m

abbrev pub IsDescending : List PathAccess → Type 0
IsDescending [] = Unit {0}
IsDescending (a ∷ as_) = All (λ b. b.count ≤ a.count) as_ × IsDescending as_

over_threshold-All :
    (t : ℕ) (m : List (Str × PathAccess)) → All (λ a. t ≤ a.count) (over_threshold t m)
unfolding over_threshold
over_threshold-All t [] = tt
over_threshold-All t ((k, a) ∷ m) = elim (Bool-cases (leb t a.count)) [
  | inl y ↦ rw y (ground arith, over_threshold-All t m)
  | inr n ↦ rw n (over_threshold-All t m)
]

Stands-over_threshold :
    (t : ℕ) (m : List (Str × PathAccess)) (a : PathAccess)
    → IsTracked a m
    → t ≤ a.count
    → Stands a (over_threshold t m)
unfolding over_threshold
Stands-over_threshold t [] a tr h = tr
Stands-over_threshold t ((k, b) ∷ m) a (inl e) h = ground arith
Stands-over_threshold t ((k, b) ∷ m) a (inr tr) h = ground (arith, Stands-over_threshold t m a tr h)

All-place :
    (P : PathAccess → Type 0) (a : PathAccess) (bs : List PathAccess)
    → P a
    → All P bs
    → All P (place a bs)
unfolding place
All-place P a [] p q = (p, tt)
All-place P a (b ∷ bs) p q = elim (Bool-cases (leb b.count a.count)) [
  | inl y ↦ rw y (p, q)
  | inr n ↦ rw n (q.0, All-place P a bs p q.1)
]

All-by_count : (P : PathAccess → Type 0) (as_ : List PathAccess) → All P as_ → All P (by_count as_)
unfolding by_count
All-by_count P [] q = tt
All-by_count P (a ∷ as_) q = All-place P a (by_count as_) q.0 (All-by_count P as_ q.1)

All-take :
    (P : PathAccess → Type 0) (n : ℕ) (as_ : List PathAccess) → All P as_ → All P (take n as_)
unfolding take
All-take P zero as_ q = tt
All-take P (suc n) [] q = tt
All-take P (suc n) (a ∷ as_) q = (q.0, All-take P n as_ q.1)

All-le_trans :
    (n m : ℕ) (bs : List PathAccess) → n ≤ m → All (λ b. b.count ≤ n) bs → All (λ b. b.count ≤ m) bs
All-le_trans n m [] h q = tt
All-le_trans n m (b ∷ bs) h q = (omega arith, All-le_trans n m bs h q.1)

place-IsDescending :
    (a : PathAccess) (bs : List PathAccess) → IsDescending bs → IsDescending (place a bs)
unfolding place
place-IsDescending a [] d = (tt, tt)
place-IsDescending a (b ∷ bs) d = elim (Bool-cases (leb b.count a.count)) [
  | inl y ↦
      let le : b.count ≤ a.count = ground arith in
      rw y ((le, All-le_trans b.count a.count bs le d.0), d)
  | inr n ↦
      let le : a.count ≤ b.count = ground arith in
      rw n (All-place (λ c. c.count ≤ b.count) a bs le d.0, place-IsDescending a bs d.1)
]

by_count-IsDescending : (as_ : List PathAccess) → IsDescending (by_count as_)
unfolding by_count
by_count-IsDescending [] = tt
by_count-IsDescending (a ∷ as_) = place-IsDescending a (by_count as_) (by_count-IsDescending as_)

take-IsDescending : (n : ℕ) (as_ : List PathAccess) → IsDescending as_ → IsDescending (take n as_)
unfolding take
take-IsDescending zero as_ d = tt
take-IsDescending (suc n) [] d = tt
take-IsDescending (suc n) (a ∷ as_) d =
    (All-take (λ b. b.count ≤ a.count) n as_ d.0, take-IsDescending n as_ d.1)

Stands-place : (x a : PathAccess) (bs : List PathAccess) → Stands x (a ∷ bs) → Stands x (place a bs)
unfolding place
Stands-place x a [] s = s
Stands-place x a (b ∷ bs) s = ground (arith, Stands-place x a bs)

Stands-by_count : (x : PathAccess) (as_ : List PathAccess) → Stands x as_ → Stands x (by_count as_)
unfolding by_count
Stands-by_count x [] s = s
Stands-by_count x (a ∷ as_) (inl e) = Stands-place x a (by_count as_) (inl e)
Stands-by_count x (a ∷ as_) (inr s) =
    Stands-place x a (by_count as_) (inr (Stands-by_count x as_ s))

All-Stands :
    (P : PathAccess → Type 0) (x : PathAccess) (as_ : List PathAccess)
    → All P as_
    → Stands x as_
    → P x
All-Stands P x [] q s = absurd s
All-Stands P x (a ∷ as_) q (inl e) = subst P (sym e) q.0
All-Stands P x (a ∷ as_) q (inr s) = All-Stands P x as_ q.1 s

-- What a prefix of a descending list leaves out is not above what it has.
left_out :
    (x : PathAccess) (n : ℕ) (as_ : List PathAccess)
    → IsDescending as_
    → Stands x as_
    → Stands x (take n as_)
      ⊎ (All (λ h. x.count ≤ h.count) (take n as_) × (length (take n as_) ≡ n))
unfolding take
left_out x zero as_ d s = inr (tt, refl)
left_out x (suc n) [] d s = absurd s
left_out x (suc n) (a ∷ as_) d (inl e) = inl (inl e)
left_out x (suc n) (a ∷ as_) d (inr s) = elim (left_out x n as_ d.1 s) [
  | inl t ↦ inl (inr t)
  | inr (below, full) ↦
      inr ((All-Stands (λ b. b.count ≤ a.count) x as_ d.0 s, below), omega (arith, full))
]

length-take : (n : ℕ) (as_ : List PathAccess) → length (take n as_) ≤ n
unfolding take
length-take zero as_ = omega arith
length-take (suc n) [] = omega arith
length-take (suc n) (a ∷ as_) = omega (arith, length-take n as_)

-- The hot paths are ordered by their counts, the largest first, reach the threshold, and are at most
-- `max_prefetch_paths`. A tracked path that reaches the threshold is one of them, or there are just so
-- many and none of them has a smaller count.
pub get_hot_paths_lem :
    (w : Warmer)
    → let hot = get_hot_paths w in
      IsDescending hot
      × All (λ h. w.cfg.prefetch_threshold ≤ h.count) hot
      × (length hot ≤ w.cfg.max_prefetch_paths)
      × ((a : PathAccess)
          → IsTracked a w.accesses
          → w.cfg.prefetch_threshold ≤ a.count
          → Stands a hot
            ⊎ (All (λ h. a.count ≤ h.count) hot × (length hot ≡ w.cfg.max_prefetch_paths)))
unfolding get_hot_paths
get_hot_paths_lem w =
    let n = w.cfg.max_prefetch_paths in
    let t = w.cfg.prefetch_threshold in
    let hot = by_count (over_threshold t w.accesses) in
    let falls = by_count-IsDescending (over_threshold t w.accesses) in
    let used =
      All-by_count (λ h. t ≤ h.count) (over_threshold t w.accesses)
        (over_threshold-All t w.accesses) in
    let in_hot = λ (a : PathAccess) (tr : IsTracked a w.accesses) (h : t ≤ a.count).
      Stands-by_count a (over_threshold t w.accesses) (Stands-over_threshold t w.accesses a tr h) in
    elim (Bool-cases (ltb n (length hot))) [
      | inl y ↦ rw y (
        take-IsDescending n hot falls,
        All-take (λ h. t ≤ h.count) n hot used,
        length-take n hot,
        λ a tr h. left_out a n hot falls (in_hot a tr h),
      )
      | inr no_more ↦ rw no_more (falls, used, ground arith, λ a tr h. inl (in_hot a tr h))
    ]
