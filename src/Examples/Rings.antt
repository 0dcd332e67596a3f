-- ===== src/Examples/Rings.antt =====
-- The hash ring (internal/hashing) on a small ring with a toy hash.
use edge_cdn.Base.{ℕ, ◌+◌, ◌*◌, ◌%◌, ◌≡◌, ◌≢◌, refl, ◌⊎◌, [], ◌∷◌, ℕ_discrete, elem, arith}
use edge_cdn.Base.Text.{Str, str_dec, codes}
use edge_cdn.Ring.{
  remove_points, without_node, new_ring, Ring, owner, add_node, remove_node, get_node,
}
use edge_cdn.Ring.Search.{search, search_loop}
use edge_cdn.Ring.Lookup.{successor, owner_of, get_node-eq-owner_of}
use edge_cdn.Ring.Moves.{get_node-add_node}
use edge_cdn.Base.Int.{pos}
use edge_cdn.Base.Maps.{delete}
use edge_cdn.Ring.Made.{all_points}
use edge_cdn.Ring.Distinct.{IsDistinct}
use edge_cdn.Ring.Moves.{points}
use edge_cdn.Ring.History.{history_irrelevant}
use edge_cdn.Ring.{label, with_node, remove_name}
use edge_cdn.Base.{List}
use edge_cdn.Base.Text.{decimal, decimal_from}
use edge_cdn.Ring.Changes.{Change, IsRing, joins, leaves, changes, changes-IsRing}
use edge_cdn.Ring.Removal.{get_node-remove_node}

abbrev pub toy_hash : Str → ℕ
toy_hash [] = 7
toy_hash (c ∷ s) = (c + 31 * toy_hash s) % 1009

abbrev pub two : Ring
two = record {
  vnodes = 2;
  nodes = codes "a" ∷ codes "b" ∷ [];
  ring = 100 ∷ 300 ∷ 500 ∷ 900 ∷ [];
  ring_map = (100, codes "a") ∷ (300, codes "b") ∷ (500, codes "b") ∷ (900, codes "a") ∷ [];
}

-- The key hashes to 1, so its node is the owner of 100.
node_of_k : get_node toy_hash two (codes "/k") ≡ codes "a"
unfolding get_node search owner ℕ_discrete
node_of_k = refl

node_of_k_other : get_node toy_hash two (codes "/k") ≢ codes "b"
node_of_k_other = rw node_of_k (ground arith)

get_node-eq-owner_of_example :
    get_node toy_hash two (codes "/k")
    ≡ owner_of two.ring_map (successor (toy_hash (codes "/k")) two.ring)
get_node-eq-owner_of_example = get_node-eq-owner_of toy_hash two (codes "/k") (omega arith)

get_node-add_node_example :
    (get_node toy_hash (add_node toy_hash (codes "c") two).0 (codes "/k") ≡ codes "c")
    ⊎ (get_node toy_hash (add_node toy_hash (codes "c") two).0 (codes "/k")
        ≡ get_node toy_hash two (codes "/k"))
get_node-add_node_example = get_node-add_node toy_hash two (codes "c") (codes "/k") (omega arith)

get_node-remove_node_example :
    get_node toy_hash (remove_node (codes "b") two).0 (codes "/k")
    ≡ get_node toy_hash two (codes "/k")
get_node-remove_node_example =
    get_node-remove_node toy_hash two (codes "b") (codes "/k") (omega arith) node_of_k_other

changes-IsRing_example :
    IsRing (changes toy_hash (joins (codes "a") ∷ leaves (codes "a") ∷ []) (new_ring (pos 2)))
changes-IsRing_example =
    changes-IsRing toy_hash (pos 2) (joins (codes "a") ∷ leaves (codes "a") ∷ [])

-- Both points of `a` collide; the second stays on the ring when `a` leaves, without an owner, and the
-- key that it takes is sent to no node, though `b` is a member.
abbrev colliding : Ring
colliding = record {
  vnodes = 2;
  nodes = codes "a" ∷ codes "b" ∷ [];
  ring = 300 ∷ 300 ∷ 900 ∷ 900 ∷ [];
  ring_map = (300, codes "a") ∷ (900, codes "b") ∷ [];
}

orphaned_point : get_node toy_hash (remove_node (codes "a") colliding).0 (codes "/k") ≡ []
unfolding get_node remove_node without_node remove_points search search_loop owner delete ℕ_discrete
    str_dec
orphaned_point = refl

abbrev joined_ab : List (Change toy_hash)
joined_ab = joins (codes "a") ∷ joins (codes "b") ∷ []

abbrev joined_ba : List (Change toy_hash)
joined_ba = joins (codes "b") ∷ joins (codes "a") ∷ leaves (codes "b") ∷ joins (codes "b") ∷ []

same_members :
    (a : Str)
    → elem str_dec a (changes toy_hash joined_ab (new_ring (pos 2))).nodes
      ≡ elem str_dec a (changes toy_hash joined_ba (new_ring (pos 2))).nodes
unfolding changes new_ring add_node remove_node with_node without_node remove_name str_dec
same_members a = ground arith

abbrev ab : List Str
ab = codes "a" ∷ codes "b" ∷ []

apart : IsDistinct (all_points toy_hash 2 ab)
unfolding all_points points label decimal decimal_from ℕ_discrete
apart = (refl, (refl, (refl, (refl, tt))))

history_irrelevant_example :
    get_node toy_hash (changes toy_hash joined_ab (new_ring (pos 2))) (codes "/k")
    ≡ get_node toy_hash (changes toy_hash joined_ba (new_ring (pos 2))) (codes "/k")
history_irrelevant_example =
    history_irrelevant toy_hash (pos 2) ab joined_ab joined_ba (codes "/k") apart (ground arith)
      (ground arith) same_members
