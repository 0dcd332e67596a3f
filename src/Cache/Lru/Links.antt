-- ===== src/Cache/Lru/Links.antt =====
-- The map and the list of the LRU map agree, whatever is called.
use edge_cdn.Base.{
  ℕ, ◌+◌, ◌≤◌, ◌<◌, ◌≡◌, refl, sym, ◌∙◌, inl, inr, Option, none, some, List, [], ◌∷◌, arith, length,
  All, Option-cases,
}
use edge_cdn.Base.Text.{Str, str_dec}
use edge_cdn.Base.Int.{ℤ, positive_or_pos}
use edge_cdn.Base.Maps.{lookup, lookup-insert, lookup-delete}
use edge_cdn.Cache.Recency.{Entry, init}
use edge_cdn.Cache.Lru.{
  Element, Lru, new_lru_cache, back, remove_element, evict_oldest, move_to_front, push_front, held,
}
use edge_cdn.Cache.Lru.Elements.{
  entries, find_elem, drop_elem, Differs, IsDistinct, All-find_elem, All-drop_elem,
  IsDistinct-drop_elem, found, find_elem-drop_elem, length-drop_elem, back_found, back-some,
}

-- The pointer that a key has to have in the map.
abbrev id_of : Option Element → Option ℕ
id_of none = none
id_of (some e) = some e.id

-- The map and the list agree, and the list is within the capacity.
pub record IsLinked (l : Lru) : Type 0 where
  pub positive : 0 < l.capacity
  pub room : length l.order ≤ l.capacity
  pub distinct : IsDistinct l.order
  pub fresh : All (λ e. e.id < l.next) l.order
  pub linked : (k : Str) → lookup str_dec k l.items ≡ id_of (find_elem k l.order)

-- The element that the map gives for a key is the list's element of that key.
pub held-find_elem : (k : Str) (l : Lru) → IsLinked l → held k l ≡ find_elem k l.order
unfolding held
held-find_elem k l v = elim (Option-cases (find_elem k l.order)) [
  | inl e ↦ ground (arith, v.linked k, e)
  | inr (x, e) ↦ ground (arith, v.linked k, e, found k l.order x v.distinct e)
]

fresh-later : (n : ℕ) (es : List Element) → All (λ e. e.id < n) es → All (λ e. e.id < n + 1) es
fresh-later n [] a = tt
fresh-later n (x ∷ es) a = (omega arith, fresh-later n es a.1)

fresh-Differs :
    (n : ℕ) (entry : Entry) (es : List Element)
    → All (λ e. e.id < n) es
    → find_elem entry.key es ≡ none
    → All (Differs (record { id = n; entry = entry })) es
unfolding find_elem
fresh-Differs n entry [] a q = tt
fresh-Differs n entry (x ∷ es) a q = ground (arith, fresh-Differs n entry es a.1)

All-Differs :
    (e e' : Element) (es : List Element)
    → e.id ≡ e'.id
    → e.entry.key ≡ e'.entry.key
    → All (Differs e) es
    → All (Differs e') es
All-Differs e e' [] p q a = tt
All-Differs e e' (x ∷ es) p q a = ground (arith, All-Differs e e' es p q a.1)

dropped-Differs :
    (k : Str) (es : List Element) (e e' : Element)
    → IsDistinct es
    → find_elem k es ≡ some e
    → e.id ≡ e'.id
    → e.entry.key ≡ e'.entry.key
    → All (Differs e') (drop_elem k es)
unfolding find_elem drop_elem
dropped-Differs k [] e e' d q i h = absurd (ground arith)
dropped-Differs k (x ∷ es) e e' d q i h = ground (
  arith,
  All-Differs e e' es i h,
  dropped-Differs k es e e' d.1,
  All-find_elem (Differs x) k es e d.0,
)

pub remove_element-IsLinked :
    (k : Str) (e : Element) (l : Lru)
    → IsLinked l
    → find_elem k l.order ≡ some e
    → IsLinked (remove_element e l)
unfolding remove_element
remove_element-IsLinked k e l v q =
    let (_, gone, same) = found k l.order e v.distinct q in
    rw (gone, same)
      (record {
        positive = v.positive;
        room = omega (arith, v.room, length-drop_elem k l.order e q);
        distinct = IsDistinct-drop_elem k l.order v.distinct;
        fresh = All-drop_elem (λ e. e.id < l.next) k l.order v.fresh;
        linked = λ j. ground (
          arith,
          v.linked j,
          lookup-delete {V = ℕ} str_dec j k l.items,
          find_elem-drop_elem j k l.order v.distinct,
        );
      })

pub push_front-IsLinked :
    (entry : Entry) (l : Lru)
    → IsLinked l
    → find_elem entry.key l.order ≡ none
    → length l.order < l.capacity
    → IsLinked (push_front entry l)
unfolding push_front find_elem
push_front-IsLinked entry l v q h = record {
  positive = v.positive;
  room = omega arith;
  distinct = (fresh-Differs l.next entry l.order v.fresh q, v.distinct);
  fresh = (omega arith, fresh-later l.next l.order v.fresh);
  linked =
      λ j. ground (arith, v.linked j, lookup-insert {V = ℕ} str_dec j entry.key l.next l.items);
}

pub move_to_front-IsLinked :
    (k : Str) (e : Element) (entry : Entry) (l : Lru)
    → IsLinked l
    → find_elem k l.order ≡ some e
    → entry.key ≡ k
    → IsLinked (move_to_front e entry l)
unfolding move_to_front find_elem
move_to_front-IsLinked k e entry l v q h =
    let (_, gone, same) = found k l.order e v.distinct q in
    let e' : Element = record { id = e.id; entry = entry } in
    rw gone (record {
      positive = v.positive;
      room = omega (arith, v.room, length-drop_elem k l.order e q);
      distinct = (
        dropped-Differs k l.order e e' v.distinct q refl (same ∙ sym h),
        IsDistinct-drop_elem k l.order v.distinct,
      );
      fresh = (
        All-find_elem (λ e. e.id < l.next) k l.order e v.fresh q,
        All-drop_elem (λ e. e.id < l.next) k l.order v.fresh,
      );
      linked = λ j. ground (
        arith,
        v.linked j,
        q,
        found k l.order e v.distinct q,
        find_elem-drop_elem j k l.order v.distinct,
      );
    })

pub new_lru_cache-IsLinked : (c : ℤ) → IsLinked (new_lru_cache c)
unfolding new_lru_cache find_elem
new_lru_cache-IsLinked c = record {
  positive = positive_or_pos 10_000 c (omega arith);
  room = omega arith;
  distinct = tt;
  fresh = tt;
  linked = λ k. refl;
}

-- An eviction takes the last entry, and leaves room.
pub evicts :
    (k : Str) (l : Lru)
    → IsLinked l
    → find_elem k l.order ≡ none
    → l.capacity ≤ length l.order
    → IsLinked (evict_oldest l)
      × ((evict_oldest l).capacity ≡ l.capacity)
      × (length (evict_oldest l).order < l.capacity)
      × (entries (evict_oldest l).order ≡ init (entries l.order))
      × (find_elem k (evict_oldest l).order ≡ none)
unfolding evict_oldest remove_element
evicts k l v q full =
    let (x, b) = back_of l.order (omega (arith, v.positive)) in
    let (at, rest) = back_found l.order x v.distinct b in
    let (_, gone, _) = found x.entry.key l.order x v.distinct at in
    ground (
      arith,
      b,
      q,
      rest,
      gone,
      v.room,
      remove_element-IsLinked x.entry.key x l v at,
      length-drop_elem x.entry.key l.order x at,
      find_elem-drop_elem k x.entry.key l.order v.distinct,
    )
  where
    back_of : (es : List Element) → 0 < length es → (e : Element) × (back es ≡ some e)
    back_of [] h = absurd (omega arith)
    back_of (x ∷ es) h = back-some x es
