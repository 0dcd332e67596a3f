-- ===== src/Cache/Lru/Refines.antt =====
-- The LRU map against its promise: whatever is called, it returns what the list of entries by latest
-- use returns.
use edge_cdn.Base.{ℕ, ◌≡◌, refl, ap, ◌∙◌, inl, inr, List, [], ◌∷◌, arith, Option-cases}
use edge_cdn.Base.Text.{Str}
use edge_cdn.Base.Int.{ℤ, positive_or}
use edge_cdn.Cache.Recency.{
  Entry, expiry, Op, Reply, get, set, delete, got, was_set, deleted, step, replies,
}
use edge_cdn.Cache.Recency.{Op}
use edge_cdn.Cache.Lru.{
  Lru, new_lru_cache, remove_element, evict_oldest, move_to_front, push_front, lru_get, lru_set,
  lru_delete,
}
use edge_cdn.Cache.Lru.Elements.{
  entries, find_elem, found, find-entries, drop-entries, length-entries, drop_elem-absent,
}
use edge_cdn.Cache.Lru.Links.{
  IsLinked, held-find_elem, remove_element-IsLinked, push_front-IsLinked, move_to_front-IsLinked,
  new_lru_cache-IsLinked, evicts,
}

-- The code's operations.
unfoldable pub run_op : Op → Lru → Lru × Reply
run_op (get now k) l = let (l', v) = lru_get now k l in (l', got v)
run_op (set now k v ttl) l = let (l', evicted) = lru_set now k v ttl l in (l', was_set evicted)
run_op (delete k) l = (lru_delete k l, deleted)

unfoldable pub run_ops : List Op → Lru → Lru
run_ops [] l = l
run_ops (o ∷ os) l = run_ops os (run_op o l).0

unfoldable pub run_replies : List Op → Lru → List Reply
run_replies [] l = []
run_replies (o ∷ os) l = (run_op o l).1 ∷ run_replies os (run_op o l).0

-- One operation of the code is one of the promise.
abbrev pub Refines : Op → Lru → Type 0
Refines o l =
    IsLinked (run_op o l).0
    × ((run_op o l).0.capacity ≡ l.capacity)
    × (entries (run_op o l).0.order ≡ (step l.capacity o (entries l.order)).0)
    × ((run_op o l).1 ≡ (step l.capacity o (entries l.order)).1)

pub get-Refines : (now : ℕ) (k : Str) (l : Lru) → IsLinked l → Refines (get now k) l
unfolding run_op lru_get step remove_element move_to_front entries
get-Refines now k l v = elim (Option-cases (find_elem k l.order)) [
  | inl e ↦ ground (arith, held-find_elem k l v, find-entries k l.order, e)
  | inr (x, e) ↦ ground (
    arith,
    held-find_elem k l v,
    find-entries k l.order,
    drop-entries k l.order,
    e,
    found k l.order x v.distinct e,
    remove_element-IsLinked k x l v e,
    move_to_front-IsLinked k x x.entry l v e,
  )
]

pub delete-Refines : (k : Str) (l : Lru) → IsLinked l → Refines (delete k) l
unfolding run_op lru_delete step remove_element
delete-Refines k l v = elim (Option-cases (find_elem k l.order)) [
  | inl e ↦
      ground (arith, held-find_elem k l v, drop-entries k l.order, drop_elem-absent k l.order e, e)
  | inr (x, e) ↦ ground (
    arith,
    held-find_elem k l v,
    drop-entries k l.order,
    e,
    found k l.order x v.distinct e,
    remove_element-IsLinked k x l v e,
  )
]

pub set-Refines :
    (now : ℕ) (k value : Str) (ttl : ℤ) (l : Lru) → IsLinked l → Refines (set now k value ttl) l
unfolding run_op lru_set step move_to_front push_front entries
set-Refines now k value ttl l v =
    let entry : Entry = record { key = k; value = value; expires_at = expiry now ttl } in
    elim (Option-cases (find_elem k l.order)) [
      | inl e ↦ ground (
        arith,
        held-find_elem k l v,
        find-entries k l.order,
        length-entries l.order,
        e,
        evicts k l v e,
        push_front-IsLinked entry l v e,
        push_front-IsLinked entry (evict_oldest l),
      )
      | inr (x, e) ↦ ground (
        arith,
        held-find_elem k l v,
        find-entries k l.order,
        drop-entries k l.order,
        e,
        found k l.order x v.distinct e,
        move_to_front-IsLinked k x entry l v e refl,
      )
    ]

pub run_op-Refines : (o : Op) (l : Lru) → IsLinked l → Refines o l
run_op-Refines (get now k) l v = get-Refines now k l v
run_op-Refines (set now k value ttl) l v = set-Refines now k value ttl l v
run_op-Refines (delete k) l v = delete-Refines k l v

run_ops-IsLinked_from :
    (os : List Op) (l : Lru)
    → IsLinked l
    → IsLinked (run_ops os l) × ((run_ops os l).capacity ≡ l.capacity)
unfolding run_ops
run_ops-IsLinked_from [] l v = (v, refl)
run_ops-IsLinked_from (o ∷ os) l v =
    let (v', c, _, _) = run_op-Refines o l v in
    let (v'', c') = run_ops-IsLinked_from os (run_op o l).0 v' in (v'', c' ∙ c)

-- After any operations on a map made by `NewLRUCache` the map and the list agree: the map has exactly
-- the pointers to the list's elements under their keys, no two elements share a key or an address,
-- and there are at most as many as the capacity.
pub run_ops-IsLinked : (c : ℤ) (os : List Op) → IsLinked (run_ops os (new_lru_cache c))
run_ops-IsLinked c os = (run_ops-IsLinked_from os (new_lru_cache c) (new_lru_cache-IsLinked c)).0

run_replies-replies_from :
    (os : List Op) (l : Lru)
    → IsLinked l
    → run_replies os l ≡ replies l.capacity os (entries l.order)
unfolding run_replies replies
run_replies-replies_from [] l v = refl
run_replies-replies_from (o ∷ os) l v =
    let (v', c, es, r) = run_op-Refines o l v in
    ap (λ q. q ∷ run_replies os (run_op o l).0) r
    ∙ ap (λ qs. (step l.capacity o (entries l.order)).1 ∷ qs)
        (run_replies-replies_from os (run_op o l).0 v'
          ∙ ap (λ (n : ℕ). replies n os (entries (run_op o l).0.order)) c
          ∙ ap (replies l.capacity os) es)

-- Whatever gets, sets and deletes are made on a map by `NewLRUCache`, it returns what a list of
-- entries by latest use returns that starts empty.
pub run_replies-replies :
    (c : ℤ) (os : List Op) → run_replies os (new_lru_cache c) ≡ replies (positive_or 10_000 c) os []
unfolding new_lru_cache entries
run_replies-replies c os = run_replies-replies_from os (new_lru_cache c) (new_lru_cache-IsLinked c)
