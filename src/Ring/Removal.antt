-- ===== src/Ring/Removal.antt =====
-- What `RemoveNode` does to the keys' nodes.
use edge_cdn.Base.{
  ℕ, ◌≤◌, ◌<◌, ◌≡◌, ◌≢◌, refl, sym, ◌∙◌, ap, inl, inr, ite, true, Option, none, some, List, [], ◌∷◌,
  arith, elem, All, ℕ_discrete, Bool-cases,
}
use edge_cdn.Base.Text.{Str, str_dec}
use edge_cdn.Base.Maps.{delete}
use edge_cdn.Ring.{Ring, owner, remove_points, without_node, remove_node, get_node}
use edge_cdn.Ring.Points.{IsSorted, first_ge}
use edge_cdn.Ring.Lookup.{successor, owner_of, get_node-eq-owner_of}
use edge_cdn.Ring.Moves.{owner-delete}

-- No point stands twice on the ring.
abbrev pub IsIncreasing : List ℕ → Type 0
IsIncreasing [] = Unit {0}
IsIncreasing (x ∷ xs) = All (λ y. x < y) xs × IsIncreasing xs

All-lt-le : (x : ℕ) (xs : List ℕ) → All (λ y. x < y) xs → All (λ y. x ≤ y) xs
All-lt-le x [] a = tt
All-lt-le x (y ∷ ys) a = (omega arith, All-lt-le x ys a.1)

pub IsIncreasing-IsSorted : (xs : List ℕ) → IsIncreasing xs → IsSorted xs
IsIncreasing-IsSorted [] i = tt
IsIncreasing-IsSorted (x ∷ xs) i = (All-lt-le x xs i.0, IsIncreasing-IsSorted xs i.1)

-- The points that another node owns.
unfoldable pub keep : Str → List (ℕ × Str) → List ℕ → List ℕ
keep node m [] = []
keep node m (h ∷ hs) = let rest = keep node m hs in ite (str_dec (owner m h) node) rest (h ∷ rest)

keep-delete :
    (node : Str) (m : List (ℕ × Str)) (h : ℕ) (hs : List ℕ)
    → All (λ y. h < y) hs
    → keep node (delete ℕ_discrete h m) hs ≡ keep node m hs
unfolding keep
keep-delete node m h [] a = refl
keep-delete node m h (x ∷ xs) a =
    let e : owner (delete ℕ_discrete h m) x ≡ owner m x = ground (arith, owner-delete x h m) in
    rw (e, keep-delete node m h xs a.1)

pub remove_points-keep :
    (node : Str) (hs : List ℕ) (m : List (ℕ × Str))
    → IsIncreasing hs
    → (remove_points node hs m).0 ≡ keep node m hs
unfolding remove_points keep
remove_points-keep node [] m i = refl
remove_points-keep node (h ∷ hs) m i = ground (
  arith,
  remove_points-keep node hs (delete ℕ_discrete h m) i.1,
  remove_points-keep node hs m i.1,
  keep-delete node m h hs i.0,
)

pub owner-remove_points :
    (node : Str) (hs : List ℕ) (m : List (ℕ × Str)) (p : ℕ)
    → owner m p ≢ node
    → owner (remove_points node hs m).1 p ≡ owner m p
unfolding remove_points
owner-remove_points node [] m p other = refl
owner-remove_points node (h ∷ hs) m p other = ground (
  arith,
  owner-delete p h m,
  owner-remove_points node hs (delete ℕ_discrete h m) p,
  owner-remove_points node hs m p other,
)

All-keep :
    (node : Str) (m : List (ℕ × Str)) (x : ℕ) (hs : List ℕ)
    → All (λ y. x < y) hs
    → All (λ y. x < y) (keep node m hs)
unfolding keep
All-keep node m x [] a = tt
All-keep node m x (h ∷ hs) a = ground (arith, All-keep node m x hs a.1)

pub keep-IsIncreasing :
    (node : Str) (m : List (ℕ × Str)) (hs : List ℕ)
    → IsIncreasing hs
    → IsIncreasing (keep node m hs)
unfolding keep
keep-IsIncreasing node m [] i = tt
keep-IsIncreasing node m (h ∷ hs) i =
    ground (arith, keep-IsIncreasing node m hs i.1, All-keep node m h hs i.0)

first_ge-keep-none :
    (node : Str) (m : List (ℕ × Str)) (h : ℕ) (xs : List ℕ)
    → first_ge h xs ≡ none
    → first_ge h (keep node m xs) ≡ none
unfolding keep first_ge
first_ge-keep-none node m h [] e = refl
first_ge-keep-none node m h (x ∷ xs) e = ground (arith, first_ge-keep-none node m h xs)

first_ge-keep-some :
    (node : Str) (m : List (ℕ × Str)) (h p : ℕ) (xs : List ℕ)
    → first_ge h xs ≡ some p
    → owner m p ≢ node
    → first_ge h (keep node m xs) ≡ some p
unfolding keep first_ge
first_ge-keep-some node m h p [] e other = absurd (ground arith)
first_ge-keep-some node m h p (x ∷ xs) e other = ground (arith, first_ge-keep-some node m h p xs)

first_ge-keep_other :
    (node : Str) (m : List (ℕ × Str)) (h p : ℕ) (xs : List ℕ)
    → first_ge h (keep node m xs) ≡ some p
    → owner m p ≢ node
unfolding keep first_ge
first_ge-keep_other node m h p [] e = absurd (ground arith)
first_ge-keep_other node m h p (x ∷ xs) e = ground (arith, first_ge-keep_other node m h p xs)

successor-keep :
    (node : Str) (m : List (ℕ × Str)) (h : ℕ) (xs : List ℕ)
    → owner_of m (successor h xs) ≢ node
    → successor h (keep node m xs) ≡ successor h xs
unfolding successor
successor-keep node m h xs other = grind (
  arith,
  first_ge-keep-some node m h,
  first_ge-keep-some node m 0,
  first_ge-keep-none node m h xs,
  first_ge-keep-none node m 0 xs,
)

module _ (hash : Str → ℕ) (r : Ring) (node key : Str) (distinct : IsIncreasing r.ring) where
  without_node-ring : (without_node node r).ring ≡ keep node r.ring_map r.ring
  unfolding without_node
  without_node-ring = remove_points-keep node r.ring r.ring_map distinct

  without_node-IsSorted : IsSorted (without_node node r).ring
  without_node-IsSorted =
      rw without_node-ring
        (IsIncreasing-IsSorted _ (keep-IsIncreasing node r.ring_map r.ring distinct))

  owner_of-without_node :
      (o : Option ℕ)
      → owner_of r.ring_map o ≢ node
      → owner_of (without_node node r).ring_map o ≡ owner_of r.ring_map o
  unfolding without_node
  owner_of-without_node none other = refl
  owner_of-without_node (some p) other = owner-remove_points node r.ring r.ring_map p other

  get_node-without_node :
      get_node hash r key ≢ node → get_node hash (without_node node r) key ≡ get_node hash r key
  get_node-without_node other =
      let r' = without_node node r in
      let h = hash key in
      let found₀ = get_node-eq-owner_of hash r key (IsIncreasing-IsSorted r.ring distinct) in
      let other' : owner_of r.ring_map (successor h r.ring) ≢ node = λ e. other (found₀ ∙ e) in
      get_node-eq-owner_of hash r' key without_node-IsSorted
      ∙ ap (λ l. owner_of r'.ring_map (successor h l)) without_node-ring
      ∙ ap (owner_of r'.ring_map) (successor-keep node r.ring_map h r.ring other')
      ∙ owner_of-without_node (successor h r.ring) other'
      ∙ sym found₀

  -- Removing a node from a ring without colliding points leaves every key of another node where
  -- it was.
  pub get_node-remove_node :
      get_node hash r key ≢ node → get_node hash (remove_node node r).0 key ≡ get_node hash r key
  unfolding remove_node
  get_node-remove_node other = elim (Bool-cases (elem str_dec node r.nodes)) [
    | inl old ↦ rw old (get_node-without_node other)
    | inr new ↦ rw new refl
  ]

  successor-keep_other :
      (p : ℕ)
      → successor (hash key) (keep node r.ring_map r.ring) ≡ some p
      → owner r.ring_map p ≢ node
  unfolding successor
  successor-keep_other p e = grind (
    arith,
    first_ge-keep_other node r.ring_map (hash key) p r.ring,
    first_ge-keep_other node r.ring_map 0 p r.ring,
  )

  get_node-without_node_ne : node ≢ [] → get_node hash (without_node node r) key ≢ node
  get_node-without_node_ne named e = go (successor (hash key) (keep node r.ring_map r.ring)) refl
    where
      found :
          get_node hash (without_node node r) key
          ≡ owner_of
              (without_node node r).ring_map
              (successor (hash key) (keep node r.ring_map r.ring))
      found =
          get_node-eq-owner_of hash (without_node node r) key without_node-IsSorted
          ∙ ap (λ l. owner_of (without_node node r).ring_map (successor (hash key) l))
              without_node-ring

      go : (o : Option ℕ) → successor (hash key) (keep node r.ring_map r.ring) ≡ o → ⊥
      go none at = named (sym e ∙ found ∙ ap (owner_of (without_node node r).ring_map) at)
      go (some p) at =
          let other = successor-keep_other p at in
          other (
            sym (owner_of-without_node (some p) other)
            ∙ sym (ap (owner_of (without_node node r).ring_map) at)
            ∙ sym found
            ∙ e)

  -- After the removal of a member, from a ring without colliding points, no key is sent to it.
  pub get_node-remove_node_ne :
      elem str_dec node r.nodes ≡ true → node ≢ [] → get_node hash (remove_node node r).0 key ≢ node
  unfolding remove_node
  get_node-remove_node_ne member named = rw member (get_node-without_node_ne named)
