-- ===== src/Ring/Changes.antt =====
-- Rings as `NewRing`, `AddNode` and `RemoveNode` make them, whatever points collide.
use edge_cdn.Base.{
  ℕ, ◌≤◌, ◌≡◌, ◌≢◌, refl, ◌∙◌, ap, ◌⊎◌, inl, inr, true, Option, none, some, List, [], ◌∷◌, ◌++◌,
  arith, if◌then◌else◌, elem, ℕ_discrete, All, Bool-cases, elem-append_left, elem-append_right,
}
use edge_cdn.Base.Int.{ℤ}
use edge_cdn.Base.Text.{Str, str_dec}
use edge_cdn.Base.Maps.{delete}
use edge_cdn.Ring.{
  Ring, owner, new_ring, remove_name, remove_points, with_node, without_node, add_node, remove_node,
  get_node,
}
use edge_cdn.Ring.Points.{IsSorted, elem-sort}
use edge_cdn.Ring.Lookup.{successor, owner_of, get_node-eq-owner_of}
use edge_cdn.Ring.Moves.{points, owner-delete, owner-add_points, with_node-ring, with_node-IsSorted}

All-remove_points :
    (x : ℕ) (node : Str) (hs : List ℕ) (m : List (ℕ × Str))
    → All (λ y. x ≤ y) hs
    → All (λ y. x ≤ y) (remove_points node hs m).0
unfolding remove_points
All-remove_points x node [] m a = tt
All-remove_points x node (h ∷ hs) m a = ground (
  arith,
  All-remove_points x node hs m a.1,
  All-remove_points x node hs (delete ℕ_discrete h m) a.1,
)

remove_points-IsSorted :
    (node : Str) (hs : List ℕ) (m : List (ℕ × Str))
    → IsSorted hs
    → IsSorted (remove_points node hs m).0
unfolding remove_points
remove_points-IsSorted node [] m s = tt
remove_points-IsSorted node (h ∷ hs) m s = ground (
  arith,
  remove_points-IsSorted node hs m s.1,
  remove_points-IsSorted node hs (delete ℕ_discrete h m) s.1,
  All-remove_points h node hs m s.0,
)

owner-remove_points_or :
    (node : Str) (hs : List ℕ) (m : List (ℕ × Str)) (p : ℕ)
    → (owner (remove_points node hs m).1 p ≡ []) ⊎ (owner (remove_points node hs m).1 p ≡ owner m p)
unfolding remove_points
owner-remove_points_or node [] m p = inr refl
owner-remove_points_or node (h ∷ hs) m p = ground (
  arith,
  owner-delete p h m,
  owner-remove_points_or node hs (delete ℕ_discrete h m) p,
  owner-remove_points_or node hs m p,
)

owner-remove_points_same :
    (node : Str) (hs : List ℕ) (m : List (ℕ × Str)) (p : ℕ)
    → elem ℕ_discrete p hs ≡ true
    → owner m p ≡ node
    → owner (remove_points node hs m).1 p ≡ []
unfolding remove_points
owner-remove_points_same node [] m p e o = absurd (ground arith)
owner-remove_points_same node (h ∷ hs) m p e o = ground (
  arith,
  owner-delete p h m,
  owner-remove_points_or node hs (delete ℕ_discrete h m) p,
  owner-remove_points_same node hs (delete ℕ_discrete h m) p,
  owner-remove_points_same node hs m p,
)

elem-remove_points :
    (node : Str) (hs : List ℕ) (m : List (ℕ × Str)) (p : ℕ)
    → elem ℕ_discrete p hs ≡ true
    → owner m p ≢ node
    → elem ℕ_discrete p (remove_points node hs m).0 ≡ true
unfolding remove_points
elem-remove_points node [] m p e o = absurd (ground arith)
elem-remove_points node (h ∷ hs) m p e o = ground (
  arith,
  owner-delete p h m,
  elem-remove_points node hs (delete ℕ_discrete h m) p,
  elem-remove_points node hs m p,
)

pub elem-remove_name :
    (a n : Str) (l : List Str)
    → elem str_dec a l ≡ true
    → a ≢ n
    → elem str_dec a (remove_name n l) ≡ true
unfolding remove_name
elem-remove_name a n [] e q = absurd (ground arith)
elem-remove_name a n (x ∷ xs) e q = ground (arith, elem-remove_name a n xs)

-- The points are sorted, and a point with an owner is on the ring and its owner is a member.
pub record IsRing (r : Ring) : Type 0 where
  pub sorted : IsSorted r.ring
  pub owned :
      (p : ℕ)
      → (owner r.ring_map p ≡ [])
        ⊎ ((elem ℕ_discrete p r.ring ≡ true) × (elem str_dec (owner r.ring_map p) r.nodes ≡ true))

new_ring-IsRing : (v : ℤ) → IsRing (new_ring v)
unfolding new_ring owner
new_ring-IsRing v = record { sorted = tt; owned = λ p. inl refl }

remove_node-IsRing : (node : Str) (r : Ring) → IsRing r → IsRing (remove_node node r).0
unfolding remove_node without_node
remove_node-IsRing node r v = elim (Bool-cases (elem str_dec node r.nodes)) [
  | inr new ↦ rw new v
  | inl old ↦ rw old (record {
    sorted = remove_points-IsSorted node r.ring r.ring_map v.sorted;
    owned = λ p. elim (str_dec (owner r.ring_map p) node) [
      | yes same ↦ ground (
        arith,
        v.owned p,
        owner-remove_points_or node r.ring r.ring_map p,
        owner-remove_points_same node r.ring r.ring_map p,
      )
      | no other ↦ ground (
        arith,
        v.owned p,
        owner-remove_points_or node r.ring r.ring_map p,
        elem-remove_points node r.ring r.ring_map p,
        elem-remove_name (owner r.ring_map p) node r.nodes,
      )
    ];
  })
]

module _ (hash : Str → ℕ) where
  pub with_node-owner :
      (node : Str) (r : Ring) (p : ℕ)
      → owner (with_node hash node r).ring_map p
        ≡ (if elem ℕ_discrete p (points hash r.vnodes 0 node) then node else owner r.ring_map p)
  unfolding with_node
  with_node-owner node r p = owner-add_points hash r.vnodes 0 node r.ring r.ring_map p

  pub with_node-elem :
      (node : Str) (r : Ring) (p : ℕ)
      → elem ℕ_discrete p (with_node hash node r).ring
        ≡ elem ℕ_discrete p (r.ring ++ points hash r.vnodes 0 node)
  with_node-elem node r p = ap (elem ℕ_discrete p) (with_node-ring hash r node) ∙ elem-sort p _

  elem_self : (node : Str) → elem str_dec node (node ∷ []) ≡ true
  elem_self node = ground arith

  with_node-IsRing : (node : Str) (r : Ring) → IsRing r → IsRing (with_node hash node r)
  unfolding with_node
  with_node-IsRing node r v = record {
    sorted = with_node-IsSorted hash r node;
    owned = λ p.
        let ps = points hash r.vnodes 0 node in
        ground (
          arith,
          v.owned p,
          with_node-owner node r p,
          with_node-elem node r p,
          elem_self node,
          elem-append_right str_dec node r.nodes (node ∷ []),
          elem-append_left str_dec (owner r.ring_map p) r.nodes (node ∷ []),
          elem-append_right ℕ_discrete p r.ring ps,
          elem-append_left ℕ_discrete p r.ring ps,
        );
  }

  add_node-IsRing : (node : Str) (r : Ring) → IsRing r → IsRing (add_node hash node r).0
  unfolding add_node
  add_node-IsRing node r v = elim (Bool-cases (elem str_dec node r.nodes)) [
    | inl old ↦ rw old v
    | inr new ↦ rw new (with_node-IsRing node r v)
  ]

  -- What a client of the ring does to it.
  pub data Change : Type 0 where
    joins : Str → Change
    leaves : Str → Change

  unfoldable pub changes : List Change → Ring → Ring
  changes [] r = r
  changes (joins n ∷ cs) r = changes cs (add_node hash n r).0
  changes (leaves n ∷ cs) r = changes cs (remove_node n r).0

  changes-IsRing_from : (cs : List Change) (r : Ring) → IsRing r → IsRing (changes cs r)
  unfolding changes
  changes-IsRing_from [] r v = v
  changes-IsRing_from (joins n ∷ cs) r v = changes-IsRing_from cs _ (add_node-IsRing n r v)
  changes-IsRing_from (leaves n ∷ cs) r v = changes-IsRing_from cs _ (remove_node-IsRing n r v)

  -- After any nodes joined and left a ring made by `NewRing`, its points are sorted, and every
  -- point that has an owner is on the ring and its owner is a member.
  pub changes-IsRing : (v : ℤ) (cs : List Change) → IsRing (changes cs (new_ring v))
  changes-IsRing v cs = changes-IsRing_from cs (new_ring v) (new_ring-IsRing v)

  owner_of-IsRing :
      (r : Ring) (o : Option ℕ)
      → IsRing r
      → (owner_of r.ring_map o ≡ []) ⊎ (elem str_dec (owner_of r.ring_map o) r.nodes ≡ true)
  owner_of-IsRing r none v = inl refl
  owner_of-IsRing r (some p) v = ground (arith, v.owned p)

  -- After any nodes joined and left a ring made by `NewRing`, also with colliding points, a key is
  -- sent to a member of the ring or to no node.
  pub get_node-changes :
      (v : ℤ) (cs : List Change) (key : Str)
      → let r = changes cs (new_ring v) in
        (get_node hash r key ≡ []) ⊎ (elem str_dec (get_node hash r key) r.nodes ≡ true)
  get_node-changes v cs key =
      let r = changes cs (new_ring v) in
      let valid = changes-IsRing v cs in
      let o = successor (hash key) r.ring in
      rw (get_node-eq-owner_of hash r key valid.sorted) (owner_of-IsRing r o valid)
