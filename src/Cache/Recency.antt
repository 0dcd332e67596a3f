-- ===== src/Cache/Recency.antt =====
-- What the LRU map of internal/cache/cache.go promises: a list of entries, the latest used first.
use edge_cdn.Base.{
  ℕ, ◌+◌, Bool, true, false, Option, none, some, List, [], ◌∷◌, ltb, leb, ◌==◌, if◌then◌else◌, ite,
  length,
}
use edge_cdn.Base.Text.{Str, str_dec}
use edge_cdn.Base.Int.{ℤ, pos, negsuc}

-- `lruEntry`; an `expires_at` of `none` is the zero time.
pub record Entry : Type 0 where
  pub key : Str
  pub value : Str
  pub expires_at : Option ℕ

-- `!expiresAt.IsZero() && time.Now().After(expiresAt)`
abbrev pub expired : ℕ → Option ℕ → Bool
expired now none = false
expired now (some t) = ltb t now

-- `expiresAt` of a `Set` with a time to live.
abbrev pub expiry : ℕ → ℤ → Option ℕ
expiry now (pos n) = if n == 0 then none else some (now + n)
expiry now (negsuc n) = none

-- The operations of the map, and what they return.
pub data Op : Type 0 where
  get : ℕ → Str → Op
  set : ℕ → Str → Str → ℤ → Op
  delete : Str → Op

pub data Reply : Type 0 where
  got : Option Str → Reply
  was_set : Bool → Reply
  deleted : Reply

unfoldable pub find : Str → List Entry → Option Entry
find k [] = none
find k (e ∷ es) = ite (str_dec k e.key) (some e) (find k es)

unfoldable pub drop : Str → List Entry → List Entry
drop k [] = []
drop k (e ∷ es) = let rest = e ∷ drop k es in ite (str_dec k e.key) es rest

-- All but the last.
unfoldable pub init {ℓ} : {A : Type ℓ} → List A → List A
init [] = []
init (x ∷ []) = []
init (x ∷ y ∷ xs) = x ∷ init (y ∷ xs)

unfoldable pub step : ℕ → Op → List Entry → List Entry × Reply
step capacity (get now k) es = elim (find k es) [
  | none ↦ (es, got none)
  | some e ↦
      if expired now e.expires_at
      then (drop k es, got none)
      else (e ∷ drop k es, got (some e.value))
]
step capacity (set now k v ttl) es =
    let e : Entry = record { key = k; value = v; expires_at = expiry now ttl } in
    elim (find k es) [
      | some _ ↦ (e ∷ drop k es, was_set false)
      | none ↦
          if leb capacity (length es) then (e ∷ init es, was_set true) else (e ∷ es, was_set false)
    ]
step capacity (delete k) es = (drop k es, deleted)

-- What a sequence of operations returns.
unfoldable pub replies : ℕ → List Op → List Entry → List Reply
replies capacity [] es = []
replies capacity (o ∷ os) es = (step capacity o es).1 ∷ replies capacity os (step capacity o es).0
