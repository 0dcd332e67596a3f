-- ===== src/Ring/Moves.antt =====
-- What `AddNode` and `RemoveNode` do to the keys' nodes: the consistency of the hashing.
use edge_cdn.Base.{
  ℕ, zero, suc, ◌+◌, ◌≡◌, refl, sym, ◌∙◌, ap, ◌⊎◌, inl, inr, ite, true, Option, none, some, List,
  [], ◌∷◌, ◌++◌, arith, if◌then◌else◌, elem, ℕ_discrete, Bool-cases,
}
use mathlib.Core.List.{append_assoc, append-nil}
use edge_cdn.Base.Text.{Str, str_dec}
use edge_cdn.Base.Maps.{insert, delete, lookup-insert, lookup-delete}
use edge_cdn.Ring.{Ring, label, owner, add_points, with_node, add_node, get_node}
use edge_cdn.Ring.Points.{
  IsSorted, sort, sort-IsSorted, first_ge-sort, first_ge-least, least-append,
}
use edge_cdn.Ring.Lookup.{successor, owner_of, get_node-eq-owner_of}

owner-insert :
    (p h : ℕ) (node : Str) (m : List (ℕ × Str))
    → owner (insert ℕ_discrete h node m) p ≡ ite (ℕ_discrete p h) node (owner m p)
unfolding owner
owner-insert p h node m = ground (arith, lookup-insert ℕ_discrete p h node m)

pub owner-delete :
    (p h : ℕ) (m : List (ℕ × Str))
    → owner (delete ℕ_discrete h m) p ≡ ite (ℕ_discrete p h) [] (owner m p)
unfolding owner
owner-delete p h m = ground (arith, lookup-delete ℕ_discrete p h m)

module _ (hash : Str → ℕ) where
  -- The points of a node: `k` of them, from index `i`.
  unfoldable pub points : ℕ → ℕ → Str → List ℕ
  points zero i node = []
  points (suc k) i node = hash (label node i) ∷ points k (i + 1) node

  pub add_points_ring :
      (k i : ℕ) (node : Str) (xs : List ℕ) (m : List (ℕ × Str))
      → (add_points hash k i node xs m).0 ≡ xs ++ points k i node
  unfolding add_points points
  add_points_ring zero i node xs m = sym (append-nil xs)
  add_points_ring (suc k) i node xs m =
      let h = hash (label node i) in
      add_points_ring k (i + 1) node (xs ++ (h ∷ [])) (insert ℕ_discrete h node m)
      ∙ append_assoc xs (h ∷ []) (points k (i + 1) node)

  pub owner-add_points :
      (k i : ℕ) (node : Str) (xs : List ℕ) (m : List (ℕ × Str)) (p : ℕ)
      → owner (add_points hash k i node xs m).1 p
        ≡ (if elem ℕ_discrete p (points k i node) then node else owner m p)
  unfolding add_points points
  owner-add_points zero i node xs m p = refl
  owner-add_points (suc k) i node xs m p =
      let h = hash (label node i) in
      ground (
        arith,
        owner-add_points k (i + 1) node (xs ++ (h ∷ [])) (insert ℕ_discrete h node m) p,
        owner-insert p h node m,
      )

  successor-sort :
      (h : ℕ) (xs ys : List ℕ)
      → IsSorted xs
      → (successor h (sort (xs ++ ys)) ≡ successor h xs)
        ⊎ ((p : ℕ) × (successor h (sort (xs ++ ys)) ≡ some p) × (elem ℕ_discrete p ys ≡ true))
  unfolding successor
  successor-sort h xs ys s = grind (
    arith,
    first_ge-sort h (xs ++ ys),
    first_ge-sort 0 (xs ++ ys),
    first_ge-least h xs s,
    first_ge-least 0 xs s,
    least-append h xs ys,
    least-append 0 xs ys,
  )

  owner_of-with_node :
      (r : Ring) (node : Str) (o : Option ℕ)
      → (owner_of (with_node hash node r).ring_map o ≡ node)
        ⊎ (owner_of (with_node hash node r).ring_map o ≡ owner_of r.ring_map o)
  unfolding with_node
  owner_of-with_node r node none = inr refl
  owner_of-with_node r node (some p) =
      ground (arith, owner-add_points r.vnodes 0 node r.ring r.ring_map p)

  owner_of_new :
      (r : Ring) (node : Str) (p : ℕ)
      → elem ℕ_discrete p (points r.vnodes 0 node) ≡ true
      → owner_of (with_node hash node r).ring_map (some p) ≡ node
  unfolding with_node
  owner_of_new r node p e = ground (arith, owner-add_points r.vnodes 0 node r.ring r.ring_map p)

  pub with_node-ring :
      (r : Ring) (node : Str)
      → (with_node hash node r).ring ≡ sort (r.ring ++ points r.vnodes 0 node)
  unfolding with_node
  with_node-ring r node = ap sort (add_points_ring r.vnodes 0 node r.ring r.ring_map)

  pub with_node-IsSorted : (r : Ring) (node : Str) → IsSorted (with_node hash node r).ring
  with_node-IsSorted r node = rw (with_node-ring r node) (sort-IsSorted _)

  get_node-with_node :
      (r : Ring) (node key : Str)
      → IsSorted r.ring
      → (get_node hash (with_node hash node r) key ≡ node)
        ⊎ (get_node hash (with_node hash node r) key ≡ get_node hash r key)
  get_node-with_node r node key s =
      let r' = with_node hash node r in
      let h = hash key in
      let found = get_node-eq-owner_of hash r' key (with_node-IsSorted r node) in
      let found₀ = get_node-eq-owner_of hash r key s in
      let at = ap (successor h) (with_node-ring r node) in
      elim (successor-sort h r.ring (points r.vnodes 0 node) s) [
        | inl same ↦ elim (owner_of-with_node r node (successor h r.ring)) [
          | inl e ↦ inl (found ∙ ap (owner_of r'.ring_map) (at ∙ same) ∙ e)
          | inr e ↦ inr (found ∙ ap (owner_of r'.ring_map) (at ∙ same) ∙ e ∙ sym found₀)
        ]
        | inr (p, e, mem) ↦
            inl (found ∙ ap (owner_of r'.ring_map) (at ∙ e) ∙ owner_of_new r node p mem)
      ]

  -- On a ring with sorted points, adding a node moves a key to the new node or leaves it at the node
  -- it had, whatever points of the ring collide.
  pub get_node-add_node :
      (r : Ring) (node key : Str)
      → IsSorted r.ring
      → (get_node hash (add_node hash node r).0 key ≡ node)
        ⊎ (get_node hash (add_node hash node r).0 key ≡ get_node hash r key)
  unfolding add_node
  get_node-add_node r node key s = elim (Bool-cases (elem str_dec node r.nodes)) [
    | inl old ↦ rw old (inr refl)
    | inr new ↦ rw new (get_node-with_node r node key s)
  ]
