-- ===== src/Cache/Lru/Retains.antt =====
-- How long the LRU map keeps what was set.
use edge_cdn.Base.{
  ℕ, suc, ◌+◌, ◌≤◌, ◌<◌, ◌≡◌, ◌≢◌, ap, ◌∙◌, inl, inr, ite, Option, none, some, List, [], ◌∷◌, false,
  arith, length, All, Option-cases,
}
use edge_cdn.Base.Text.{Str, str_dec}
use edge_cdn.Base.Int.{ℤ}
use edge_cdn.Cache.Recency.{
  Entry, expired, expiry, Op, get, set, delete, got, find, drop, init, step,
}
use edge_cdn.Cache.Lru.{Lru, lru_get, lru_set, lru_delete}
use edge_cdn.Cache.Lru.Elements.{
  entries, drop_elem, find_elem-drop_elem, find-entries, drop-entries,
}
use edge_cdn.Cache.Lru.Links.{IsLinked}
use edge_cdn.Cache.Lru.Refines.{
  get-Refines, set-Refines, delete-Refines, run_op, run_ops, run_op-Refines,
}

-- How many entries stand before the key's.
place : Str → List Entry → ℕ
place k [] = 0
place k (e ∷ es) = let rest = suc (place k es) in ite (str_dec k e.key) 0 rest

find-drop_ne :
    (k j : Str) (es : List Entry)
    → k ≢ j
    → (find k (drop j es) ≡ find k es) × (place k (drop j es) ≤ place k es)
unfolding find drop place
find-drop_ne k j [] q = ground arith
find-drop_ne k j (e ∷ es) q = ground (arith, find-drop_ne k j es q)

find-init :
    (k : Str) (es : List Entry)
    → suc (place k es) < length es
    → (find k (init es) ≡ find k es) × (place k (init es) ≡ place k es)
unfolding find init place
find-init k [] h = absurd (omega arith)
find-init k (e ∷ []) h = ground arith
find-init k (e ∷ e' ∷ es) h = ground (arith, find-init k (e' ∷ es))

key-find : (k : Str) (es : List Entry) (e : Entry) → find k es ≡ some e → e.key ≡ k
unfolding find
key-find k [] e q = absurd (ground arith)
key-find k (x ∷ es) e q = ground (arith, key-find k es e)

-- The operation is about another key.
abbrev pub IsOther : Str → Op → Type 0
IsOther k (get now j) = k ≢ j
IsOther k (set now j v ttl) = k ≢ j
IsOther k (delete j) = k ≢ j

step_keeps :
    (k : Str) (capacity : ℕ) (o : Op) (es : List Entry) (e : Entry)
    → IsOther k o
    → find k es ≡ some e
    → suc (place k es) < capacity
    → (find k (step capacity o es).0 ≡ some e) × (place k (step capacity o es).0 ≤ suc (place k es))
unfolding step find place
step_keeps k capacity (get now j) es e q f h = elim (Option-cases (find j es)) [
  | inl n ↦ ground (arith, n)
  | inr (x, n) ↦ ground (arith, n, find-drop_ne k j es q, key-find j es x n)
]
step_keeps k capacity (set now j v ttl) es e q f h =
    ground (arith, find-drop_ne k j es q, find-init k es)
step_keeps k capacity (delete j) es e q f h = ground (arith, find-drop_ne k j es q)

ops_keep :
    (k : Str) (os : List Op) (l : Lru) (e : Entry)
    → IsLinked l
    → All (IsOther k) os
    → find k (entries l.order) ≡ some e
    → place k (entries l.order) + length os < l.capacity
    → IsLinked (run_ops os l) × (find k (entries (run_ops os l).order) ≡ some e)
unfolding run_ops
ops_keep k [] l e v a f h = (v, f)
ops_keep k (o ∷ os) l e v a f h =
    let (v', c, es, r) = run_op-Refines o l v in
    let kept = step_keeps k l.capacity o (entries l.order) e a.0 f (omega arith) in
    ops_keep k os (run_op o l).0 e v' a.1 (ap (find k) es ∙ kept.0)
      (omega (arith, c, kept.1, ap (place k) es))

set_found :
    (k value : Str) (ttl : ℤ) (now capacity : ℕ) (es : List Entry)
    → let es' = (step capacity (set now k value ttl) es).0 in
      (find k es' ≡ some (record { key = k; value = value; expires_at = expiry now ttl }))
      × (place k es' ≡ 0)
unfolding step find place
set_found k value ttl now capacity es = ground arith

get_found :
    (k : Str) (later capacity : ℕ) (es : List Entry) (e : Entry)
    → find k es ≡ some e
    → expired later e.expires_at ≡ false
    → (step capacity (get later k) es).1 ≡ got (some e.value)
unfolding step
get_found k later capacity es e q alive = ground (arith, q)

got_inj : {a b : Option Str} → got a ≡ got b → a ≡ b
got_inj h = cc

-- What is set is returned, until it expires, as long as fewer other operations than the capacity are
-- made in the meantime, none of them on its key.
pub lru_get-lru_set :
    (k value : Str) (ttl : ℤ) (now later : ℕ) (os : List Op) (l : Lru)
    → IsLinked l
    → All (IsOther k) os
    → length os < l.capacity
    → expired later (expiry now ttl) ≡ false
    → (lru_get later k (run_ops os (lru_set now k value ttl l).0)).1 ≡ some value
unfolding run_op
lru_get-lru_set k value ttl now later os l v a h alive =
    let e : Entry = record { key = k; value = value; expires_at = expiry now ttl } in
    let l₁ = (lru_set now k value ttl l).0 in
    let (v₁, c, es, _) = set-Refines now k value ttl l v in
    let (f, p) = set_found k value ttl now l.capacity (entries l.order) in
    let first : place k (entries l₁.order) ≡ 0 = ap (place k) es ∙ p in
    let (v₂, f₂) = ops_keep k os l₁ e v₁ a (ap (find k) es ∙ f) (omega arith) in
    let l₂ = run_ops os l₁ in
    let (_, _, _, r) = get-Refines later k l₂ v₂ in
    got_inj (r ∙ get_found k later l₂.capacity (entries l₂.order) e f₂ alive)

pub lru_get-lru_set_self :
    (k value : Str) (ttl : ℤ) (now later : ℕ) (l : Lru)
    → IsLinked l
    → expired later (expiry now ttl) ≡ false
    → (lru_get later k (lru_set now k value ttl l).0).1 ≡ some value
unfolding run_ops
lru_get-lru_set_self k value ttl now later l v alive =
    lru_get-lru_set k value ttl now later [] l v tt v.positive alive

pub lru_get-lru_delete :
    (k : Str) (now : ℕ) (l : Lru) → IsLinked l → (lru_get now k (lru_delete k l)).1 ≡ none
unfolding run_op step
lru_get-lru_delete k now l v =
    let (v', _, es, _) = delete-Refines k l v in
    let (_, _, _, r) = get-Refines now k (lru_delete k l) v' in
    ground (
      arith,
      r,
      es,
      drop-entries k l.order,
      find-entries k (drop_elem k l.order),
      find_elem-drop_elem k k l.order v.distinct,
    )
