-- ===== src/RateLimit/Idle.antt =====
-- internal/ratelimit/ratelimit.go: the map of the buckets, and what the cleanup keeps of it.
use edge_cdn.Base.{
  ℕ, ◌-◌, ◌≡◌, refl, Bool, true, false, Option, none, some, List, [], ◌∷◌, ltb, if◌then◌else◌,
  arith, Option-cases, inl, inr,
}
use edge_cdn.Base.Text.{Str, str_dec}
use edge_cdn.Base.Maps.{lookup, insert, lookup-insert}
use edge_cdn.RateLimit.{
  TokenBucket, Limiter, allow, fresh_bucket, track, count, allow_key, five_minutes, drop_idle,
}

-- A map has a key once.
abbrev pub IsMap : List (Str × TokenBucket) → Type 0
IsMap [] = Unit {0}
IsMap ((k, b) ∷ m) = (lookup str_dec k m ≡ none) × IsMap m

insert-IsMap :
    (k : Str) (b : TokenBucket) (m : List (Str × TokenBucket))
    → IsMap m
    → IsMap (insert str_dec k b m)
unfolding insert
insert-IsMap k b [] u = (refl, tt)
insert-IsMap k b ((j, c) ∷ m) u =
    ground (arith, u.0, u.1, insert-IsMap k b m u.1, lookup-insert str_dec j k b m)

abbrev pub kept : ℕ → Option TokenBucket → Option TokenBucket
kept now none = none
kept now (some b) = if ltb five_minutes (now - b.last_refill) then none else some b

pub lookup-drop_idle :
    (now : ℕ) (j : Str) (m : List (Str × TokenBucket))
    → IsMap m
    → lookup str_dec j (drop_idle now m) ≡ kept now (lookup str_dec j m)
unfolding drop_idle
lookup-drop_idle now j [] u = refl
lookup-drop_idle now j ((k, b) ∷ m) u = ground (arith, u.0, lookup-drop_idle now j m u.1)

pub drop_idle-IsMap : (now : ℕ) (m : List (Str × TokenBucket)) → IsMap m → IsMap (drop_idle now m)
unfolding drop_idle
drop_idle-IsMap now [] u = tt
drop_idle-IsMap now ((k, b) ∷ m) u =
    ground (arith, u.0, lookup-drop_idle now k m u.1, drop_idle-IsMap now m u.1)

track-IsMap : (t : ℕ) (k : Str) (l : Limiter) → IsMap l.buckets → IsMap (track t k l).0.buckets
unfolding track
track-IsMap t k l u = elim (Option-cases (lookup str_dec k l.buckets)) [
  | inl e ↦ rw (track, e) (insert-IsMap k (fresh_bucket t l) l.buckets u)
  | inr (b, e) ↦ rw (track, e) u
]

count-IsMap : (ok : Bool) (l : Limiter) → IsMap l.buckets → IsMap (count ok l).buckets
unfolding count
count-IsMap true l u = u
count-IsMap false l u = u

pub allow_key-IsMap :
    (t : ℕ) (k : Str) (l : Limiter) → IsMap l.buckets → IsMap (allow_key t k l).0.buckets
unfolding allow_key
allow_key-IsMap t k l u =
    let (l', b) = track t k l in
    let (b', ok) = allow t b in
    count-IsMap ok (record l' { buckets = insert str_dec k b' l'.buckets })
      (insert-IsMap k b' l'.buckets (track-IsMap t k l u))
