-- ===== src/Ring.antt =====
-- internal/hashing/consistent.go: the consistent hash ring. The hash function (xxhash) is the
-- parameter `hash`. The mutex makes each method one step.
pub mod Search
pub mod Points
pub mod Lookup
pub mod Moves
pub mod Removal
pub mod Changes
pub mod Distinct
pub mod Made
pub mod History
use edge_cdn.Base.{
  ℕ, zero, suc, ◌+◌, ◌-◌, ◌<◌, ◌≡◌, ite, Bool, true, false, Option, none, some, List, [], ◌∷◌, ◌++◌,
  ltb, leb, ◌==◌, if◌then◌else◌, length, get_or, elem, ℕ_discrete,
}
use edge_cdn.Base.Text.{Str, str_dec, codes, decimal}
use edge_cdn.Base.Maps.{lookup, lookup_or, insert, delete}
use edge_cdn.Base.Int.{ℤ, positive_or}
use Search.{search}
use Points.{sort}

abbrev pub default_vnodes : ℕ
default_vnodes = 150

-- `nodes` is the key set of the Go map, whose values are all `true`.
pub record Ring : Type 0 where
  pub vnodes : ℕ
  pub nodes : List Str
  pub ring : List ℕ
  pub ring_map : List (ℕ × Str)

unfoldable pub new_ring : ℤ → Ring
new_ring vnodes = record {
  vnodes = positive_or default_vnodes vnodes;
  nodes = [];
  ring = [];
  ring_map = [];
}

-- `fmt.Sprintf("%s#%d", node, i)`
unfoldable pub label : Str → ℕ → Str
label node i = node ++ (codes "#" ++ decimal i)

-- Removes a node from the key set.
unfoldable pub remove_name : Str → List Str → List Str
remove_name n [] = []
remove_name n (m ∷ ms) = let rest = remove_name n ms in ite (str_dec n m) rest (m ∷ rest)

-- The owner of a point; the zero value of a string where the map has none.
unfoldable pub owner : List (ℕ × Str) → ℕ → Str
owner m h = lookup_or ℕ_discrete [] h m

module _ (hash : Str → ℕ) where
  -- The loop of `AddNode`, with `k` rounds left from index `i`.
  unfoldable pub add_points : ℕ → ℕ → Str → List ℕ → List (ℕ × Str) → List ℕ × List (ℕ × Str)
  add_points zero i node ring ring_map = (ring, ring_map)
  add_points (suc k) i node ring ring_map =
      let h = hash (label node i) in
      add_points k (i + 1) node (ring ++ (h ∷ [])) (insert ℕ_discrete h node ring_map)

  -- `AddNode` past its guard.
  unfoldable pub with_node : Str → Ring → Ring
  with_node node r = record r {
    nodes = nodes ++ (node ∷ []);
    ring = sort (add_points vnodes 0 node ring ring_map).0;
    ring_map = (add_points vnodes 0 node ring ring_map).1;
  }
    where
      open r use {vnodes, nodes, ring, ring_map}

  unfoldable pub add_node : Str → Ring → Ring × Bool
  add_node node r = if elem str_dec node r.nodes then (r, false) else (with_node node r, true)

  -- `GetNode`: the first point at or after the key's hash, round the end to the first point.
  unfoldable pub get_node : Ring → Str → Str
  get_node r key =
      if length ring == 0
      then []
      else let idx = search (length ring) (λ i. leb (hash key) (get_or ring i 0)) in
        owner r.ring_map (get_or ring (if leb (length ring) idx then 0 else idx) 0)
    where
      open r use {ring}

-- The loop of `RemoveNode`: the points that stay, and the map that is left.
unfoldable pub remove_points : Str → List ℕ → List (ℕ × Str) → List ℕ × List (ℕ × Str)
remove_points node [] m = ([], m)
remove_points node (h ∷ hs) m = elim (str_dec (owner m h) node) [
  | yes _ ↦ remove_points node hs (delete ℕ_discrete h m)
  | no _ ↦ (h ∷ (remove_points node hs m).0, (remove_points node hs m).1)
]

-- `RemoveNode` past its guard. The capacity of `newRing` is left out: `make` panics where
-- it is negative, for a ring of fewer points than `vnodes`.
unfoldable pub without_node : Str → Ring → Ring
without_node node r = record r {
  nodes = remove_name node nodes;
  ring = (remove_points node ring ring_map).0;
  ring_map = (remove_points node ring ring_map).1;
}
  where
    open r use {nodes, ring, ring_map}

unfoldable pub remove_node : Str → Ring → Ring × Bool
remove_node node r = if elem str_dec node r.nodes then (without_node node r, true) else (r, false)

-- `GetNodes`, a copy of the key set.
unfoldable pub get_nodes : Ring → List Str
get_nodes r = r.nodes

unfoldable pub node_count : Ring → ℕ
node_count r = length r.nodes
