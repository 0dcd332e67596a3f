-- ===== src/Ring/Lookup.antt =====
-- `GetNode`, read as the owner of the first point clockwise from the key's hash.
use edge_cdn.Base.{
  ℕ, ◌≡◌, refl, Option, none, some, List, [], ◌∷◌, arith, leb, ◌==◌, if◌then◌else◌, length, get_or,
}
use edge_cdn.Base.Text.{Str}
use edge_cdn.Ring.{Ring, owner, get_node}
use edge_cdn.Ring.Search.{search, search-eq}
use edge_cdn.Ring.Points.{
  IsSorted, first_ge, rank, rank-le-length, below_rank, above_rank, get_or-rank,
}

-- The first point at or after `h`, or the first of all.
unfoldable pub successor : ℕ → List ℕ → Option ℕ
successor h xs = elim (first_ge h xs) [ none ↦ first_ge 0 xs | some p ↦ some p ]

abbrev pub owner_of : List (ℕ × Str) → Option ℕ → Str
owner_of m none = []
owner_of m (some p) = owner m p

pub search-rank :
    (h : ℕ) (xs : List ℕ)
    → IsSorted xs
    → search (length xs) (λ i. leb h (get_or xs i 0)) ≡ rank h xs
search-rank h xs s =
    search-eq (λ i. leb h (get_or xs i 0)) (length xs) (rank h xs) (below_rank h xs)
      (λ m p q. above_rank h xs m s p q) (rank-le-length h xs)

pick :
    (m : List (ℕ × Str)) (h idx : ℕ) (xs : List ℕ)
    → idx ≡ rank h xs
    → (if length xs == 0
        then []
        else owner m (get_or xs (if leb (length xs) idx then 0 else idx) 0))
      ≡ owner_of m (successor h xs)
unfolding successor first_ge
pick m h idx [] e = refl
pick m h idx (x ∷ xs) e = ground (arith, get_or-rank h (x ∷ xs))

module _ (hash : Str → ℕ) where
  -- On a ring whose points are sorted, the binary search of `GetNode` finds the owner of the
  -- key's clockwise successor, and `""` exactly where the ring has no point.
  pub get_node-eq-owner_of :
      (r : Ring) (key : Str)
      → IsSorted r.ring
      → get_node hash r key ≡ owner_of r.ring_map (successor (hash key) r.ring)
  unfolding get_node successor
  get_node-eq-owner_of r key s =
      pick r.ring_map (hash key) _ r.ring (search-rank (hash key) r.ring s)
