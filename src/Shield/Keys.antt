-- ===== src/Shield/Keys.antt =====
-- The keys of the map of the calls in flight, as an association list.
use edge_cdn.Base.{ℕ, suc, ◌≡◌, refl, none, some, List, [], ◌∷◌, length, arith}
use edge_cdn.Base.Text.{Str, str_dec}
use edge_cdn.Base.Maps.{lookup, insert, delete, lookup-insert, lookup-delete}

-- A key stands once.
abbrev pub IsMap : List (Str × ℕ) → Type 0
IsMap [] = Unit {0}
IsMap ((k, c) ∷ m) = (lookup str_dec k m ≡ none) × IsMap m

pub insert-IsMap : (k : Str) (c : ℕ) (m : List (Str × ℕ)) → IsMap m → IsMap (insert str_dec k c m)
unfolding insert
insert-IsMap k c [] u = (refl, tt)
insert-IsMap k c ((j, d) ∷ m) u =
    ground (arith, u.0, u.1, insert-IsMap k c m u.1, lookup-insert str_dec j k c m)

pub delete-IsMap : (k : Str) (m : List (Str × ℕ)) → IsMap m → IsMap (delete str_dec k m)
unfolding delete
delete-IsMap k [] u = tt
delete-IsMap k ((j, d) ∷ m) u =
    ground (arith, u.0, delete-IsMap k m u.1, lookup-delete str_dec j k m)

pub length-insert :
    (k : Str) (c : ℕ) (m : List (Str × ℕ))
    → lookup str_dec k m ≡ none
    → length (insert str_dec k c m) ≡ suc (length m)
unfolding insert
length-insert k c [] e = refl
length-insert k c ((j, d) ∷ m) e = ground (arith, e, length-insert k c m)

length-delete-none :
    (k : Str) (m : List (Str × ℕ))
    → lookup str_dec k m ≡ none
    → length (delete str_dec k m) ≡ length m
unfolding delete
length-delete-none k [] e = refl
length-delete-none k ((j, d) ∷ m) e = ground (arith, e, length-delete-none k m)

pub length-delete :
    (k : Str) (c : ℕ) (m : List (Str × ℕ))
    → IsMap m
    → lookup str_dec k m ≡ some c
    → length m ≡ suc (length (delete str_dec k m))
unfolding delete
length-delete k c [] u e = absurd (ground (arith, e))
length-delete k c ((j, d) ∷ m) u e = elim (str_dec k j) [
  | yes same ↦ ground (arith, same, u.0, length-delete-none j m)
  | no other ↦ ground (arith, other, e, length-delete k c m u.1)
]
