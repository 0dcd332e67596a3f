-- ===== src/Cache/Lru/Elements.antt =====
-- The linked list of the LRU map, read by key in place of by pointer.
use mathlib.Core.Path.{subst}
use edge_cdn.Base.{
  ◌+◌, ◌≡◌, ◌≢◌, refl, if_pos, if_neg, ite, Option, none, some, List, [], ◌∷◌, arith, length, All,
}
use edge_cdn.Base.Text.{Str, str_dec}
use edge_cdn.Cache.Recency.{Entry, find, drop, init}
use edge_cdn.Cache.Lru.{Element, element, detach, back}

unfoldable pub entries : List Element → List Entry
entries [] = []
entries (e ∷ es) = e.entry ∷ entries es

-- The element of a key.
unfoldable pub find_elem : Str → List Element → Option Element
find_elem k [] = none
find_elem k (e ∷ es) = ite (str_dec k e.entry.key) (some e) (find_elem k es)

unfoldable pub drop_elem : Str → List Element → List Element
drop_elem k [] = []
drop_elem k (e ∷ es) = let rest = e ∷ drop_elem k es in ite (str_dec k e.entry.key) es rest

-- Two elements differ in their addresses and in their keys.
abbrev pub Differs : Element → Element → Type 0
Differs e e' = (e.id ≢ e'.id) × (e.entry.key ≢ e'.entry.key)

abbrev pub IsDistinct : List Element → Type 0
IsDistinct [] = Unit {0}
IsDistinct (e ∷ es) = All (Differs e) es × IsDistinct es

pub All-find_elem {κ} :
    (P : Element → Type κ) (k : Str) (es : List Element) (e : Element)
    → All P es
    → find_elem k es ≡ some e
    → P e
unfolding find_elem
All-find_elem P k [] e a q = absurd (ground arith)
All-find_elem P k (x ∷ es) e a q = elim (str_dec k x.entry.key) [
  | yes p ↦ let same : x ≡ e = ground arith in subst P same a.0
  | no p ↦ All-find_elem P k es e a.1 (ground arith)
]

pub find-entries :
    (k : Str) (es : List Element)
    → find k (entries es) ≡ elim (find_elem k es) [ none ↦ none | some e ↦ some e.entry ]
unfolding find entries find_elem
find-entries k [] = refl
find-entries k (e ∷ es) = ground (arith, find-entries k es)

pub drop-entries : (k : Str) (es : List Element) → drop k (entries es) ≡ entries (drop_elem k es)
unfolding drop entries drop_elem
drop-entries k [] = refl
drop-entries k (e ∷ es) = ground (arith, drop-entries k es)

pub length-entries : (es : List Element) → length (entries es) ≡ length es
unfolding entries
length-entries [] = refl
length-entries (e ∷ es) = omega (arith, length-entries es)

pub All-drop_elem {κ} :
    (P : Element → Type κ) (k : Str) (es : List Element) → All P es → All P (drop_elem k es)
unfolding drop_elem
All-drop_elem P k [] a = tt
All-drop_elem P k (x ∷ es) a = elim (str_dec k x.entry.key) [
  | yes p ↦ rw (if_pos (str_dec k x.entry.key) p) a.1
  | no p ↦ rw (if_neg (str_dec k x.entry.key) p) (a.0, All-drop_elem P k es a.1)
]

pub IsDistinct-drop_elem :
    (k : Str) (es : List Element) → IsDistinct es → IsDistinct (drop_elem k es)
unfolding drop_elem
IsDistinct-drop_elem k [] d = tt
IsDistinct-drop_elem k (x ∷ es) d = elim (str_dec k x.entry.key) [
  | yes p ↦ rw (if_pos (str_dec k x.entry.key) p) d.1
  | no p ↦
      rw (if_neg (str_dec k x.entry.key) p)
        (All-drop_elem (Differs x) k es d.0, IsDistinct-drop_elem k es d.1)
]

-- The pointer of a key's element leads to it, and takes it out of the list.
pub found :
    (k : Str) (es : List Element) (e : Element)
    → IsDistinct es
    → find_elem k es ≡ some e
    → (element e.id es ≡ some e) × (detach e.id es ≡ drop_elem k es) × (e.entry.key ≡ k)
unfolding find_elem element detach drop_elem
found k [] e d q = absurd (ground arith)
found k (x ∷ es) e d q = ground (arith, found k es e d.1, All-find_elem (Differs x) k es e d.0)

not_found :
    (k : Str) (x : Element) (es : List Element)
    → x.entry.key ≡ k
    → All (Differs x) es
    → find_elem k es ≡ none
unfolding find_elem
not_found k x [] p a = refl
not_found k x (y ∷ es) p a = ground (arith, not_found k x es p a.1)

pub find_elem-drop_elem :
    (j k : Str) (es : List Element)
    → IsDistinct es
    → find_elem j (drop_elem k es) ≡ ite (str_dec j k) none (find_elem j es)
unfolding find_elem drop_elem
find_elem-drop_elem j k [] d = ground arith
find_elem-drop_elem j k (x ∷ es) d =
    ground (arith, find_elem-drop_elem j k es d.1, not_found j x es)

pub length-drop_elem :
    (k : Str) (es : List Element) (e : Element)
    → find_elem k es ≡ some e
    → length (drop_elem k es) + 1 ≡ length es
unfolding find_elem drop_elem
length-drop_elem k [] e q = absurd (ground arith)
length-drop_elem k (x ∷ es) e q = ground (arith, length-drop_elem k es e)

-- The last element is the one of its key, and without it the list is all but the last.
pub back_found :
    (es : List Element) (e : Element)
    → IsDistinct es
    → back es ≡ some e
    → (find_elem e.entry.key es ≡ some e) × (init (entries es) ≡ entries (drop_elem e.entry.key es))
unfolding back find_elem init entries drop_elem
back_found [] e d q = absurd (ground arith)
back_found (x ∷ []) e d q = ground arith
back_found (x ∷ y ∷ es) e d q =
    ground
      (arith, back_found (y ∷ es) e d.1 q, All-find_elem (Differs x) e.entry.key (y ∷ es) e d.0)

pub back-some : (x : Element) (es : List Element) → (e : Element) × (back (x ∷ es) ≡ some e)
unfolding back
back-some x [] = (x, refl)
back-some x (y ∷ es) = back-some y es

pub drop_elem-absent : (k : Str) (es : List Element) → find_elem k es ≡ none → drop_elem k es ≡ es
unfolding find_elem drop_elem
drop_elem-absent k [] q = refl
drop_elem-absent k (x ∷ es) q = ground (arith, drop_elem-absent k es)
