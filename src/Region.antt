-- ===== src/Region.antt =====
-- internal/region/region.go: the regions and the choice among them. A `float64` and the functions
-- of Go's `math` on it are the parameter `Float`; the hash function of the rings is `hash`. A loop
-- over the map of regions goes over its keys, in an order that Go leaves open.
pub mod Choice
pub mod Rings
pub mod Rotation
use edge_cdn.Base.{
  ℕ, zero, suc, ◌+◌, ◌%◌, Bool, true, false, not, ◌&&◌, ◌||◌, Option, none, some, List, [], ◌∷◌,
  ◌++◌, ltb, leb, ◌==◌, if◌then◌else◌, ite, length, get_or, elem,
}
use edge_cdn.Base.Text.{Str, str_dec, codes}
use edge_cdn.Base.Int.{ℤ, pos, negsuc}
use edge_cdn.Base.Maps.{lookup, lookup_or, insert}
use edge_cdn.Ring.{Ring, new_ring, add_node, remove_node, remove_name, get_node}
use edge_cdn.Base.Floats.{Float}

-- `m[k]++` of a counter vector.
unfoldable pub inc : Str → List (Str × ℕ) → List (Str × ℕ)
inc k m = insert str_dec k (lookup_or str_dec 0 k m + 1) m

abbrev pub keys : {V : Type 0} → List (Str × V) → List Str
keys [] = []
keys ((k, v) ∷ m) = k ∷ keys m

pub record Region (Real : Type 0) : Type 0 where
  pub name : Str
  pub lat : Real
  pub lng : Real
  pub nodes : List Str
  pub healthy : Bool
  pub ring : Ring

pub record RegionInfo (Real : Type 0) : Type 0 where
  pub name : Str
  pub latitude : Real
  pub longitude : Real

-- The last two fields are the Prometheus counters and gauges by region.
pub record Router (Real : Type 0) : Type 0 where
  pub regions : List (Str × Region Real)
  pub order : List Str
  pub rr_index : ℕ
  pub requests_by_region : List (Str × ℕ)
  pub region_health : List (Str × ℕ)

abbrev pub is_empty : {A : Type 0} → List A → Bool
is_empty [] = true
is_empty (x ∷ xs) = false

-- `reg.Healthy && len(reg.Nodes) > 0`
abbrev pub routable : {Real : Type 0} → Region Real → Bool
routable reg = reg.healthy && not (is_empty reg.nodes)

abbrev pub routable_at : {Real : Type 0} → Str → List (Str × Region Real) → Bool
routable_at name m = elim (lookup str_dec name m) [ none ↦ false | some reg ↦ routable reg ]

module _ {Real : Type 0} where
  count_request : Str → Router Real → Router Real
  count_request name r = record r { requests_by_region = inc name r.requests_by_region }

  -- The loop of `roundRobin`, with `k` rounds left from offset `i`.
  unfoldable pub rotate : ℕ → ℕ → Router Real → Option ℕ
  rotate zero i r = none
  rotate (suc k) i r =
      let idx = (r.rr_index + i) % length r.order in
      let rest = rotate k (i + 1) r in
      if routable_at (get_or r.order idx []) r.regions then some idx else rest

  unfoldable pub round_robin : Router Real → Router Real × Str
  unfolding count_request
  round_robin r = if is_empty r.order then (r, []) else elim (rotate (length r.order) 0 r) [
    | some idx ↦
        let name = get_or r.order idx [] in
        (count_request name (record r { rr_index = (idx + 1) % length r.order }), name)
    | none ↦ (r, get_or r.order 0 [])
  ]

  unfoldable pub set_region_health : Str → Bool → Router Real → Router Real
  set_region_health name healthy r = elim (lookup str_dec name r.regions) [
    | none ↦ r
    | some reg ↦ record r {
      regions = insert str_dec name (record reg { healthy = healthy }) r.regions;
      region_health = insert str_dec name (if healthy then 1 else 0) r.region_health;
    }
  ]

  -- `RemoveNode` on the region found.
  unfoldable pub drop_node : Str → Region Real → Region Real
  drop_node addr reg =
      let left = remove_name addr reg.nodes in
      record reg {
        ring = (remove_node addr reg.ring).0;
        nodes = left;
        healthy = if is_empty left then false else reg.healthy;
      }

  unfoldable pub remove_region_node : Str → Str → Router Real → Router Real
  unfolding drop_node
  remove_region_node name addr r = elim (lookup str_dec name r.regions) [
    | none ↦ r
    | some reg ↦
        let reg' = drop_node addr reg in
        record r {
          regions = insert str_dec name reg' r.regions;
          region_health =
              if is_empty reg'.nodes
              then insert str_dec name 0 r.region_health
              else r.region_health;
        }
  ]

  unfoldable pub snapshots : List Str → List (Str × Region Real) → List (Region Real)
  snapshots [] m = []
  snapshots (k ∷ ks) m = elim (lookup str_dec k m) [
    | none ↦ snapshots ks m
    | some reg ↦ reg ∷ snapshots ks m
  ]

  -- The copy of a region leaves out its ring; a reader of the snapshot does not use it.
  unfoldable pub get_all_regions : Router Real → List (Region Real)
  unfolding snapshots
  get_all_regions r = snapshots (keys r.regions) r.regions

  count_nodes : List Str → List (Str × Region Real) → ℕ
  count_nodes [] m = 0
  count_nodes (k ∷ ks) m =
      (elim (lookup str_dec k m) [
        | none ↦ 0
        | some reg ↦ if reg.healthy then length reg.nodes else 0
      ])
      + count_nodes ks m

  unfoldable pub healthy_node_count : Router Real → ℕ
  unfolding count_nodes
  healthy_node_count r = count_nodes (keys r.regions) r.regions

module _ (hash : Str → ℕ) {Real : Type 0} where
  unfoldable pub get_node_for_key : Str → Str → Router Real → Str
  get_node_for_key name key r = elim (lookup str_dec name r.regions) [
    | none ↦ []
    | some reg ↦ if is_empty reg.nodes then [] else get_node hash reg.ring key
  ]

  -- `AddNode` on the region found or created.
  unfoldable pub join_node : Str → Region Real → Region Real
  join_node addr reg =
      if elem str_dec addr reg.nodes
      then reg
      else record reg { nodes = reg.nodes ++ (addr ∷ []); ring = (add_node hash addr reg.ring).0 }

module _ (F : Float) where
  open F use {Real, sub, add, mul, div, sin, cos, sqrt, atan2, lt, lit, pi, max_float}

  unfoldable pub degrees_to_radians : Real → Real
  degrees_to_radians deg = div (mul deg pi) (lit (pos 1800) 1)

  unfoldable pub haversine : Real → Real → Real → Real → Real
  unfolding degrees_to_radians
  haversine lat1 lng1 lat2 lng2 =
      let two = lit (pos 2) 0 in
      let d_lat = degrees_to_radians (sub lat2 lat1) in
      let d_lng = degrees_to_radians (sub lng2 lng1) in
      let a = add (mul (sin (div d_lat two)) (sin (div d_lat two))) (
        mul
          (mul (mul (cos (degrees_to_radians lat1)) (cos (degrees_to_radians lat2)))
            (sin (div d_lng two)))
          (sin (div d_lng two))) in
      mul (lit (pos 63710) 1) (mul two (atan2 (sqrt a) (sqrt (sub (lit (pos 1) 0) a))))

  -- `defaultRegions`
  unfoldable pub default_regions : List (Str × Real × Real)
  default_regions =
      (codes "us-east", lit (pos 390438) 4, lit (negsuc 774873) 4)
      ∷ (codes "us-west", lit (pos 455945) 4, lit (negsuc 1221561) 4)
      ∷ (codes "eu-west", lit (pos 533331) 4, lit (negsuc 62488) 4)
      ∷ (codes "eu-central", lit (pos 501109) 4, lit (pos 86821) 4)
      ∷ (codes "ap-south", lit (pos 190760) 4, lit (pos 728777) 4)
      ∷ []

  -- `DefaultRegions`
  region_infos : List (Str × Real × Real) → List (RegionInfo Real)
  region_infos [] = []
  region_infos ((name, lat, lng) ∷ rest) =
      record { name = name; latitude = lat; longitude = lng } ∷ region_infos rest

  unfoldable pub public_regions : List (RegionInfo Real)
  unfolding default_regions region_infos
  public_regions = region_infos default_regions

  new_region : Str → Real → Real → Region Real
  new_region name lat lng = record {
    name = name;
    lat = lat;
    lng = lng;
    nodes = [];
    healthy = true;
    ring = new_ring (pos 150);
  }

  -- A region put into the map, at the end of the order, and shown as healthy.
  open_region : Region Real → Router Real → Router Real
  open_region reg r = record r {
    regions = insert str_dec reg.name reg r.regions;
    order = r.order ++ (reg.name ∷ []);
    region_health = insert str_dec reg.name 1 r.region_health;
  }

  open_all : List (Str × Real × Real) → Router Real → Router Real
  open_all [] r = r
  open_all ((name, lat, lng) ∷ l) r = open_all l (open_region (new_region name lat lng) r)

  unfoldable pub new_router : Router Real
  unfolding new_region open_region open_all default_regions
  new_router = open_all default_regions (record {
    regions = [];
    order = [];
    rr_index = 0;
    requests_by_region = [];
    region_health = [];
  })

  unfoldable pub add_region_node : (Str → ℕ) → Str → Str → Router Real → Router Real
  unfolding new_region open_region
  add_region_node hash name addr r = elim (lookup str_dec name r.regions) [
    | some reg ↦ record r { regions = insert str_dec name (join_node hash addr reg) r.regions }
    | none ↦
        let reg = new_region name (lit (pos 0) 0) (lit (pos 0) 0) in
        let r' = open_region reg r in
        record r' { regions = insert str_dec name (join_node hash addr reg) r'.regions }
  ]

  -- The loop of `GetNearestRegion`: the best distance and the best region so far.
  unfoldable pub nearest_loop :
      Str → Region Real → List (Str × Region Real) → List Str → Real → Str → Str
  nearest_loop client src m [] best_dist best = best
  nearest_loop client src m (name ∷ names) best_dist best = elim (lookup str_dec name m) [
    | none ↦ nearest_loop client src m names best_dist best
    | some reg ↦ elim (routable reg && not (ite (str_dec name client) true false)) [
      | false ↦ nearest_loop client src m names best_dist best
      | true ↦ elim (lt (haversine src.lat src.lng reg.lat reg.lng) best_dist) [
        | true ↦ nearest_loop client src m names (haversine src.lat src.lng reg.lat reg.lng) name
        | false ↦ nearest_loop client src m names best_dist best
      ]
    ]
  ]

  unfoldable pub get_nearest_region : Str → Router Real → Router Real × Str
  unfolding count_request
  get_nearest_region client r = elim (lookup str_dec client r.regions) [
    | none ↦ round_robin r
    | some src ↦
        if routable src
        then (count_request client r, client)
        else let best = nearest_loop client src r.regions (keys r.regions) max_float [] in
          if is_empty best then round_robin r else (count_request best r, best)
  ]
