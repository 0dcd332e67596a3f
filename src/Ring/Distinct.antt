-- ===== src/Ring/Distinct.antt =====
-- Lists of points in which no point stands twice, and the least of points known by their members.
use edge_cdn.Base.{
  ℕ, ◌≤◌, ◌<◌, ◌≡◌, refl, sym, ◌∙◌, ◌⊎◌, inl, inr, true, false, some, List, [], ◌∷◌, ◌++◌, arith,
  leb, elem, All, ℕ_discrete, Bool-cases, Option-cases, elem-append_left, elem-append_right,
}
use edge_cdn.Ring.Points.{place, sort, elem-sort, least, least-elem}
use edge_cdn.Ring.Removal.{IsIncreasing}

abbrev pub Has : ℕ → List ℕ → Type 0
Has p xs = elem ℕ_discrete p xs ≡ true

abbrev pub IsDistinct : List ℕ → Type 0
IsDistinct [] = Unit {0}
IsDistinct (x ∷ xs) = (elem ℕ_discrete x xs ≡ false) × IsDistinct xs

pub Has-append : (p : ℕ) (xs ys : List ℕ) → Has p (xs ++ ys) → Has p xs ⊎ Has p ys
Has-append p [] ys h = inr h
Has-append p (x ∷ xs) ys h = ground (arith, Has-append p xs ys)

-- Two lists of distinct points that share none.
pub append-IsDistinct :
    (xs ys : List ℕ)
    → IsDistinct xs
    → IsDistinct ys
    → ((p : ℕ) → Has p xs → elem ℕ_discrete p ys ≡ false)
    → IsDistinct (xs ++ ys)
append-IsDistinct [] ys dx dy apart = dy
append-IsDistinct (x ∷ xs) ys dx dy apart = (
  elim (Bool-cases (elem ℕ_discrete x (xs ++ ys))) [
    | inl y ↦ absurd (ground (arith, Has-append x xs ys y, apart x, dx.0))
    | inr n ↦ n
  ],
  append-IsDistinct xs ys dx.1 dy (λ p h. apart p (ground (arith, h))),
)

pub append-IsDistinct_left : (xs ys : List ℕ) → IsDistinct (xs ++ ys) → IsDistinct xs
append-IsDistinct_left [] ys d = tt
append-IsDistinct_left (x ∷ xs) ys d =
    (ground (arith, d.0, elem-append_left ℕ_discrete x xs ys), append-IsDistinct_left xs ys d.1)

pub append-IsDistinct_right : (xs ys : List ℕ) → IsDistinct (xs ++ ys) → IsDistinct ys
append-IsDistinct_right [] ys d = d
append-IsDistinct_right (x ∷ xs) ys d = append-IsDistinct_right xs ys d.1

pub append-IsDistinct_apart :
    (p : ℕ) (xs ys : List ℕ) → IsDistinct (xs ++ ys) → Has p xs → Has p ys → ⊥
append-IsDistinct_apart p [] ys d h h' = ground (arith, h)
append-IsDistinct_apart p (x ∷ xs) ys d h h' = elim (ℕ_discrete p x) [
  | yes e ↦ ground (arith, e, d.0, elem-append_right ℕ_discrete x xs ys, h')
  | no ne ↦ append-IsDistinct_apart p xs ys d.1 (ground (arith, h)) h'
]

All-place_lt : (a x : ℕ) (ys : List ℕ) → a < x → All (λ z. a < z) ys → All (λ z. a < z) (place x ys)
unfolding place
All-place_lt a x [] h all = (h, tt)
All-place_lt a x (y ∷ ys) h all = ground (arith, All-place_lt a x ys h all.1)

All-lt_mono : (x y : ℕ) (xs : List ℕ) → x < y → All (λ z. y < z) xs → All (λ z. x < z) xs
All-lt_mono x y [] h a = tt
All-lt_mono x y (z ∷ zs) h a = (omega arith, All-lt_mono x y zs h a.1)

place-IsIncreasing :
    (x : ℕ) (ys : List ℕ)
    → elem ℕ_discrete x ys ≡ false
    → IsIncreasing ys
    → IsIncreasing (place x ys)
unfolding place
place-IsIncreasing x [] e i = (tt, tt)
place-IsIncreasing x (y ∷ ys) e i =
    ground (arith, place-IsIncreasing x ys, All-place_lt y x ys, All-lt_mono x y ys)

pub sort-IsIncreasing : (xs : List ℕ) → IsDistinct xs → IsIncreasing (sort xs)
unfolding sort
sort-IsIncreasing [] d = tt
sort-IsIncreasing (x ∷ xs) d =
    place-IsIncreasing x (sort xs) (elem-sort x xs ∙ d.0) (sort-IsIncreasing xs d.1)

below : (x : ℕ) (ys : List ℕ) → All (λ y. x < y) ys → elem ℕ_discrete x ys ≡ false
below x [] a = refl
below x (y ∷ ys) a = ground (arith, below x ys a.1)

pub IsIncreasing-IsDistinct : (xs : List ℕ) → IsIncreasing xs → IsDistinct xs
IsIncreasing-IsDistinct [] i = tt
IsIncreasing-IsDistinct (x ∷ xs) i = (below x xs i.0, IsIncreasing-IsDistinct xs i.1)

least-ge : (h : ℕ) (xs : List ℕ) {p : ℕ} → least h xs ≡ some p → h ≤ p
unfolding least
least-ge h [] e = absurd (ground arith)
least-ge h (x ∷ xs) {p} e = ground (arith, least-ge h xs {p = p}, Option-cases (least h xs))

-- A point that is large enough has a least one below it.
least-le : (h q : ℕ) (xs : List ℕ) → Has q xs → h ≤ q → (p : ℕ) × (least h xs ≡ some p) × (p ≤ q)
unfolding least
least-le h q [] m le = absurd (ground (arith, m))
least-le h q (x ∷ xs) m le = elim (ℕ_discrete q x) [
  | yes e ↦ elim (Option-cases (least h xs)) [
    | inl n ↦ (x, ground (arith, n, e), ground (arith, e))
    | inr (y, n) ↦ elim (Bool-cases (leb x y)) [
      | inl s ↦ (x, ground (arith, n, e, s), ground (arith, e))
      | inr b ↦ (y, ground (arith, n, e, b), ground (arith, e, b))
    ]
  ]
  | no ne ↦
      let (p, at, pq) = least-le h q xs (ground (arith, m)) le in
      elim (Bool-cases (leb h x)) [
        | inr n ↦ (p, ground (arith, at, n), pq)
        | inl y ↦ elim (Bool-cases (leb x p)) [
          | inl b ↦ (x, ground (arith, at, y, b), ground (arith, b, pq))
          | inr b ↦ (p, ground (arith, at, y, b), pq)
        ]
      ]
]

-- The least point depends on the members only.
pub least-ext :
    (h : ℕ) (xs ys : List ℕ)
    → ((p : ℕ) → Has p xs → Has p ys)
    → ((p : ℕ) → Has p ys → Has p xs)
    → least h xs ≡ least h ys
least-ext h xs ys there back = elim (Option-cases (least h xs)) [
  | inl e ↦ elim (Option-cases (least h ys)) [
    | inl e' ↦ e ∙ sym e'
    | inr (q, e') ↦
        let (p, at, le) = least-le h q xs (back q (least-elem h ys e')) (least-ge h ys e') in
        absurd (ground (arith, e, at))
  ]
  | inr (p, e) ↦
      let (q, at, le) = least-le h p ys (there p (least-elem h xs e)) (least-ge h xs e) in
      let (p', at', le') = least-le h q xs (back q (least-elem h ys at)) (least-ge h ys at) in
      ground (arith, e, at, at', le, le')
]
