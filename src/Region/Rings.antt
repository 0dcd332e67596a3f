-- ===== src/Region/Rings.antt =====
-- The nodes of a region and its hash ring, and what becomes of a region that was emptied.
use mathlib.Core.Bool.{true≢false}
use edge_cdn.Base.{
  ℕ, ◌<◌, ◌≡◌, ◌≢◌, refl, sym, ap, ◌∙◌, true, false, some, List, [], ◌∷◌, arith, elem, length,
  get_or,
}
use edge_cdn.Base.Text.{Str, str_dec}
use edge_cdn.Base.Maps.{lookup, lookup-insert}
use edge_cdn.Ring.{with_node, without_node, add_node, remove_node, remove_name}
use edge_cdn.Base.Floats.{Float}
use edge_cdn.Region.{
  Region, Router, routable_at, join_node, drop_node, add_region_node, remove_region_node,
  get_nearest_region,
}
use edge_cdn.Region.Choice.{get_nearest_region-routable}

remove_name-absent : (a : Str) (l : List Str) → elem str_dec a l ≡ false → remove_name a l ≡ l
unfolding remove_name
remove_name-absent a [] h = refl
remove_name-absent a (x ∷ xs) h = ground (arith, remove_name-absent a xs)

-- The ring of a region has the region's nodes as members, whatever nodes join and leave.
pub nodes-ring_join :
    (hash : Str → ℕ) {Real : Type 0} (addr : Str) (reg : Region Real)
    → reg.ring.nodes ≡ reg.nodes
    → (join_node hash addr reg).ring.nodes ≡ (join_node hash addr reg).nodes
unfolding join_node add_node with_node
nodes-ring_join hash addr reg e = ground arith

pub nodes-ring_drop :
    {Real : Type 0} (addr : Str) (reg : Region Real)
    → reg.ring.nodes ≡ reg.nodes
    → (drop_node addr reg).ring.nodes ≡ (drop_node addr reg).nodes
unfolding drop_node remove_node without_node
nodes-ring_drop addr reg e = ground (arith, remove_name-absent addr reg.nodes)

module _ (F : Float) (hash : Str → ℕ) where
  open F use {Real}

  unfoldable pub add_all : List (Str × Str) → Router Real → Router Real
  add_all [] r = r
  add_all ((name, addr) ∷ l) r = add_all l (add_region_node F hash name addr r)

  Unhealthy : Str → Router Real → Type 0
  Unhealthy name r =
      (reg : Region Real) × (lookup str_dec name r.regions ≡ some reg) × (reg.healthy ≡ false)

  join_node-healthy :
      (addr : Str) (reg : Region Real) → (join_node hash addr reg).healthy ≡ reg.healthy
  unfolding join_node
  join_node-healthy addr reg = ground arith

  lookup-add_ne :
      (name name' addr : Str) (r : Router Real)
      → name ≢ name'
      → lookup str_dec name (add_region_node F hash name' addr r).regions
        ≡ lookup str_dec name r.regions
  unfolding add_region_node
  lookup-add_ne name name' addr r q =
      grind (arith, lookup-insert {V = Region Real} str_dec name name')

  add-Unhealthy :
      (name name' addr : Str) (r : Router Real)
      → Unhealthy name r
      → Unhealthy name (add_region_node F hash name' addr r)
  unfolding add_region_node Unhealthy
  add-Unhealthy name name' addr r (reg, e, h) = elim (str_dec name name') [
    | yes p ↦ (
      join_node hash addr reg,
      ground (arith, lookup-insert str_dec name name' (join_node hash addr reg) r.regions),
      join_node-healthy addr reg ∙ h,
    )
    | no q ↦ (reg, lookup-add_ne name name' addr r q ∙ e, h)
  ]

  remove-Unhealthy :
      (name addr : Str) (r : Router Real) (reg : Region Real)
      → lookup str_dec name r.regions ≡ some reg
      → remove_name addr reg.nodes ≡ []
      → Unhealthy name (remove_region_node name addr r)
  unfolding remove_region_node Unhealthy
  remove-Unhealthy name addr r reg e l = (
    drop_node addr reg,
    ground (arith, lookup-insert str_dec name name (drop_node addr reg) r.regions),
    ground arith,
  )

  add_all-Unhealthy :
      (name : Str) (l : List (Str × Str)) (r : Router Real)
      → Unhealthy name r
      → Unhealthy name (add_all l r)
  unfolding add_all
  add_all-Unhealthy name [] r u = u
  add_all-Unhealthy name ((name', addr) ∷ l) r u =
      add_all-Unhealthy name l _ (add-Unhealthy name name' addr r u)

  Unhealthy-routable :
      (name : Str) (r : Router Real) → Unhealthy name r → routable_at name r.regions ≡ false
  unfolding Unhealthy
  Unhealthy-routable name r (reg, e, h) = ground (arith, e, h)

  -- A node leaves a region, and others are registered afterwards.
  abbrev pub refill : Str → Str → List (Str × Str) → Router Real → Router Real
  refill name addr l r = add_all l (remove_region_node name addr r)

  -- A region whose last node was removed is not one that can serve from then on, whatever nodes are
  -- registered, in it or elsewhere, since `AddNode` does not mark it healthy again; and
  -- `GetNearestRegion` returns it for no hint of a client while some region of the order is healthy and
  -- has nodes, where the index of the rotation is within the order.
  pub emptied_stays_down :
      (name addr : Str) (r : Router Real) (reg : Region Real) (l : List (Str × Str)) (client : Str)
      (p : ℕ)
      → lookup str_dec name r.regions ≡ some reg
      → remove_name addr reg.nodes ≡ []
      → (refill name addr l r).rr_index < length (refill name addr l r).order
      → p < length (refill name addr l r).order
      → routable_at (get_or (refill name addr l r).order p []) (refill name addr l r).regions ≡ true
      → (routable_at name (refill name addr l r).regions ≡ false)
        × ((get_nearest_region F client (refill name addr l r)).1 ≢ name)
  emptied_stays_down name addr r reg l client p e none_left within at up =
      let r' = refill name addr l r in
      let down : routable_at name r'.regions ≡ false =
        Unhealthy-routable name _
          (add_all-Unhealthy name l _ (remove-Unhealthy name addr r reg e none_left)) in
      let chosen = (get_nearest_region-routable F client r' p within at up).0 in
      (down, λ same. true≢false (sym chosen ∙ ap (λ n. routable_at n r'.regions) same ∙ down))
