-- ===== src/Cache/Lru.antt =====
-- `LRUCache` of internal/cache/cache.go. A pointer to a list element is its `id`: the map `items`
-- holds such pointers, and `order` is the linked list, front first. Each method holds the lock, and
-- reads the clock once, `now`.
pub mod Elements
pub mod Links
pub mod Refines
pub mod Retains
use edge_cdn.Base.{
  ℕ, ◌+◌, Bool, true, false, Option, none, some, List, [], ◌∷◌, ltb, leb, if◌then◌else◌, ite,
  length, ℕ_discrete,
}
use edge_cdn.Base.Text.{Str, str_dec}
use edge_cdn.Base.Int.{ℤ, positive_or}
use edge_cdn.Base.Maps.{lookup, insert, delete}
use edge_cdn.Cache.Recency.{Entry, expired, expiry}

pub record Element : Type 0 where
  pub id : ℕ
  pub entry : Entry

-- `next` is the address of the next element that is allocated.
pub record Lru : Type 0 where
  pub capacity : ℕ
  pub items : List (Str × ℕ)
  pub order : List Element
  pub next : ℕ

unfoldable pub new_lru_cache : ℤ → Lru
new_lru_cache capacity = record {
  capacity = positive_or 10_000 capacity;
  items = [];
  order = [];
  next = 0;
}

-- The element that a pointer leads to.
unfoldable pub element : ℕ → List Element → Option Element
element i [] = none
element i (e ∷ es) = ite (ℕ_discrete i e.id) (some e) (element i es)

-- `list.Remove` on the element that a pointer leads to.
unfoldable pub detach : ℕ → List Element → List Element
detach i [] = []
detach i (e ∷ es) = let rest = e ∷ detach i es in ite (ℕ_discrete i e.id) es rest

-- `list.Back`
unfoldable pub back : List Element → Option Element
back [] = none
back (e ∷ []) = some e
back (e ∷ e' ∷ es) = back (e' ∷ es)

unfoldable pub remove_element : Element → Lru → Lru
remove_element e l = record l {
  items = delete str_dec e.entry.key l.items;
  order = detach e.id l.order;
}

unfoldable pub evict_oldest : Lru → Lru
evict_oldest l = elim (back l.order) [ none ↦ l | some e ↦ remove_element e l ]

-- `MoveToFront`, with the entry that the element then has.
unfoldable pub move_to_front : Element → Entry → Lru → Lru
move_to_front e entry l = record l {
  order = record { id = e.id; entry = entry } ∷ detach e.id l.order;
}

-- `PushFront` of a new element, and its pointer in the map.
unfoldable pub push_front : Entry → Lru → Lru
push_front entry l = record l {
  items = insert str_dec entry.key l.next l.items;
  order = record { id = l.next; entry = entry } ∷ l.order;
  next = l.next + 1;
}

-- The element that the map has for a key. A pointer to an element that is not in the list does not
-- arise, and would be no element here.
unfoldable pub held : Str → Lru → Option Element
held key l = elim (lookup str_dec key l.items) [ none ↦ none | some i ↦ element i l.order ]

unfoldable pub lru_get : ℕ → Str → Lru → Lru × Option Str
lru_get now key l = elim (held key l) [
  | none ↦ (l, none)
  | some e ↦
      if expired now e.entry.expires_at
      then (remove_element e l, none)
      else (move_to_front e e.entry l, some e.entry.value)
]

-- The result says whether an entry was evicted.
unfoldable pub lru_set : ℕ → Str → Str → ℤ → Lru → Lru × Bool
lru_set now key value ttl l =
    let entry : Entry = record { key = key; value = value; expires_at = expiry now ttl } in
    elim (held key l) [
      | some e ↦ (move_to_front e entry l, false)
      | none ↦
          if leb l.capacity (length l.order)
          then (push_front entry (evict_oldest l), true)
          else (push_front entry l, false)
    ]

unfoldable pub lru_delete : Str → Lru → Lru
lru_delete key l = elim (held key l) [ none ↦ l | some e ↦ remove_element e l ]

unfoldable pub lru_len : Lru → ℕ
lru_len l = length l.order
