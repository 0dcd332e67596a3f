-- ===== src/Ring/Points.antt =====
-- The points of the ring: sorting, and the first point at or after a hash.
use edge_cdn.Base.{
  ℕ, zero, suc, ◌≤◌, ◌<◌, ◌≡◌, refl, ◌⊎◌, inl, inr, true, false, Option, none, some, List, [], ◌∷◌,
  ◌++◌, arith, leb, if◌then◌else◌, Bool-cases, ap, ◌∙◌, length, get_or, elem, All, ℕ_discrete,
}

-- `sort.Slice` by `<` on numbers: the result is determined by the elements.
unfoldable pub place : ℕ → List ℕ → List ℕ
place x [] = x ∷ []
place x (y ∷ ys) = if leb x y then x ∷ y ∷ ys else y ∷ place x ys

unfoldable pub sort : List ℕ → List ℕ
unfolding place
sort [] = []
sort (x ∷ xs) = place x (sort xs)

abbrev pub IsSorted : List ℕ → Type 0
IsSorted [] = Unit {0}
IsSorted (x ∷ xs) = All (λ y. x ≤ y) xs × IsSorted xs

-- The first element that is at least `h`.
unfoldable pub first_ge : ℕ → List ℕ → Option ℕ
first_ge h [] = none
first_ge h (x ∷ xs) = if leb h x then some x else first_ge h xs

-- How many elements stand before it.
unfoldable pub rank : ℕ → List ℕ → ℕ
rank h [] = 0
rank h (x ∷ xs) = if leb h x then 0 else suc (rank h xs)

pub rank-le-length : (h : ℕ) (xs : List ℕ) → rank h xs ≤ length xs
unfolding rank
rank-le-length h [] = omega arith
rank-le-length h (x ∷ xs) = ground (arith, rank-le-length h xs)

pub below_rank : (h : ℕ) (xs : List ℕ) (k : ℕ) → k < rank h xs → leb h (get_or xs k 0) ≡ false
unfolding rank
below_rank h [] k p = absurd (omega arith)
below_rank h (x ∷ xs) zero p = ground arith
below_rank h (x ∷ xs) (suc k) p = ground (arith, below_rank h xs k)

All-get_or : (x : ℕ) (xs : List ℕ) (k : ℕ) → All (λ y. x ≤ y) xs → k < length xs → x ≤ get_or xs k 0
All-get_or x [] k a p = absurd (omega arith)
All-get_or x (y ∷ ys) zero a p = a.0
All-get_or x (y ∷ ys) (suc k) a p = All-get_or x ys k a.1 (omega arith)

pub above_rank :
    (h : ℕ) (xs : List ℕ) (k : ℕ)
    → IsSorted xs
    → rank h xs ≤ k
    → k < length xs
    → leb h (get_or xs k 0) ≡ true
unfolding rank
above_rank h [] k s p q = absurd (omega arith)
above_rank h (x ∷ xs) zero s p q = ground arith
above_rank h (x ∷ xs) (suc k) s p q = ground (arith, above_rank h xs k s.1, All-get_or x xs k s.0)

-- The element at the rank is the first that is large enough.
pub get_or-rank :
    (h : ℕ) (xs : List ℕ)
    → ((rank h xs ≡ length xs) × (first_ge h xs ≡ none))
      ⊎ ((rank h xs < length xs) × (first_ge h xs ≡ some (get_or xs (rank h xs) 0)))
unfolding rank first_ge
get_or-rank h [] = inl (refl, refl)
get_or-rank h (x ∷ xs) = ground (arith, get_or-rank h xs)

All-le_mono : (x y : ℕ) (xs : List ℕ) → x ≤ y → All (λ z. y ≤ z) xs → All (λ z. x ≤ z) xs
All-le_mono x y [] h a = tt
All-le_mono x y (z ∷ zs) h a = (omega arith, All-le_mono x y zs h a.1)

All-place : (a x : ℕ) (ys : List ℕ) → a ≤ x → All (λ z. a ≤ z) ys → All (λ z. a ≤ z) (place x ys)
unfolding place
All-place a x [] h all = (h, tt)
All-place a x (y ∷ ys) h all = ground (arith, All-place a x ys h all.1)

place-IsSorted : (x : ℕ) (ys : List ℕ) → IsSorted ys → IsSorted (place x ys)
unfolding place
place-IsSorted x [] s = (tt, tt)
place-IsSorted x (y ∷ ys) s =
    ground (arith, place-IsSorted x ys s.1, All-place y x ys, All-le_mono x y ys)

pub sort-IsSorted : (xs : List ℕ) → IsSorted (sort xs)
unfolding sort
sort-IsSorted [] = tt
sort-IsSorted (x ∷ xs) = place-IsSorted x (sort xs) (sort-IsSorted xs)

-- The smallest of `x` and `o` that is at least `h`.
abbrev pub nearest : ℕ → ℕ → Option ℕ → Option ℕ
nearest h x none = if leb h x then some x else none
nearest h x (some y) = if leb h x then (if leb x y then some x else some y) else some y

first_ge-All :
    (h x : ℕ) (ys : List ℕ) {p : ℕ} → All (λ z. x ≤ z) ys → first_ge h ys ≡ some p → x ≤ p
unfolding first_ge
first_ge-All h x [] a e = absurd (ground arith)
first_ge-All h x (y ∷ ys) {p} a e = ground (arith, first_ge-All h x ys {p = p} a.1)

first_ge-place :
    (h x : ℕ) (ys : List ℕ) → IsSorted ys → first_ge h (place x ys) ≡ nearest h x (first_ge h ys)
unfolding first_ge place
first_ge-place h x [] s = ground arith
first_ge-place h x (y ∷ ys) s = grind (arith, first_ge-place h x ys s.1, first_ge-All h y ys)

-- The smallest element that is at least `h`, in a list in any order.
unfoldable pub least : ℕ → List ℕ → Option ℕ
least h [] = none
least h (x ∷ xs) = nearest h x (least h xs)

pub first_ge-sort : (h : ℕ) (xs : List ℕ) → first_ge h (sort xs) ≡ least h xs
unfolding sort least first_ge
first_ge-sort h [] = refl
first_ge-sort h (x ∷ xs) =
    ground (arith, first_ge-place h x (sort xs) (sort-IsSorted xs), first_ge-sort h xs)

pub first_ge-least : (h : ℕ) (xs : List ℕ) → IsSorted xs → first_ge h xs ≡ least h xs
unfolding least first_ge
first_ge-least h [] s = refl
first_ge-least h (x ∷ xs) s = grind (arith, first_ge-least h xs s.1, first_ge-All h x xs)

abbrev join : Option ℕ → Option ℕ → Option ℕ
join none o = o
join (some a) none = some a
join (some a) (some b) = if leb a b then some a else some b

nearest-join : (h x : ℕ) (o o' : Option ℕ) → nearest h x (join o o') ≡ join (nearest h x o) o'
nearest-join h x o o' = ground arith

least-append-join : (h : ℕ) (xs ys : List ℕ) → least h (xs ++ ys) ≡ join (least h xs) (least h ys)
unfolding least
least-append-join h [] ys = refl
least-append-join h (x ∷ xs) ys =
    ap (nearest h x) (least-append-join h xs ys) ∙ nearest-join h x (least h xs) (least h ys)

pub least-elem : (h : ℕ) (ys : List ℕ) {p : ℕ} → least h ys ≡ some p → elem ℕ_discrete p ys ≡ true
unfolding least
least-elem h [] e = absurd (ground arith)
least-elem h (y ∷ ys) {p} e = ground (arith, least-elem h ys {p = p})

-- What is least in two lists together is least in the first, or stands in the second.
pub least-append :
    (h : ℕ) (xs ys : List ℕ)
    → (least h (xs ++ ys) ≡ least h xs)
      ⊎ ((p : ℕ) × (least h (xs ++ ys) ≡ some p) × (elem ℕ_discrete p ys ≡ true))
least-append h xs ys = go (least h xs) (least h ys) refl refl
  where
    go :
        (o o' : Option ℕ)
        → least h xs ≡ o
        → least h ys ≡ o'
        → (least h (xs ++ ys) ≡ least h xs)
          ⊎ ((p : ℕ) × (least h (xs ++ ys) ≡ some p) × (elem ℕ_discrete p ys ≡ true))
    go none none e e' = inl (rw (least-append-join h xs ys, e, e'))
    go none (some b) e e' = inr (b, rw (least-append-join h xs ys, e, e'), least-elem h ys e')
    go (some a) none e e' = inl (rw (least-append-join h xs ys, e, e'))
    go (some a) (some b) e e' = elim (Bool-cases (leb a b)) [
      | inl c ↦ inl (rw (least-append-join h xs ys, e, e') (rw c))
      | inr c ↦ inr (b, rw (least-append-join h xs ys, e, e') (rw c), least-elem h ys e')
    ]

elem-place : (p x : ℕ) (ys : List ℕ) → elem ℕ_discrete p (place x ys) ≡ elem ℕ_discrete p (x ∷ ys)
unfolding place
elem-place p x [] = refl
elem-place p x (y ∷ ys) = ground (arith, elem-place p x ys)

pub elem-sort : (p : ℕ) (xs : List ℕ) → elem ℕ_discrete p (sort xs) ≡ elem ℕ_discrete p xs
unfolding sort
elem-sort p [] = refl
elem-sort p (x ∷ xs) = ground (arith, elem-place p x (sort xs), elem-sort p xs)
