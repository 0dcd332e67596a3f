-- ===== src/Base/Bytes.antt =====
-- The functions of Go's package `strings` that the program calls, on bytes.
use Prim.Native.Nat.{ℕ, zero, suc, ◌+◌, ◌/◌, ◌%◌}
use mathlib.Core.Bool.{Bool, true, false, ◌&&◌, ◌||◌}
use mathlib.Core.Option
use mathlib.Core.Option.{Option, none, some}
use mathlib.Core.List.{[], ◌∷◌, map}
use edge_cdn.Base.Tests.{leb, ◌==◌, if◌then◌else◌}
use edge_cdn.Base.Text.{Str}

-- The rest of a text behind a prefix.
unfoldable pub after_prefix : Str → Str → Option Str
after_prefix [] s = some s
after_prefix (c ∷ cs) [] = none
after_prefix (c ∷ cs) (x ∷ xs) = let rest = after_prefix cs xs in if c == x then rest else none

-- `strings.TrimPrefix(s, prefix)`
unfoldable pub trim_prefix : Str → Str → Str
unfolding after_prefix
trim_prefix prefix s = Option.get_or (after_prefix prefix s) s

-- `strings.HasPrefix(s, prefix)`
unfoldable pub has_prefix : Str → Str → Bool
unfolding after_prefix
has_prefix prefix s = elim (after_prefix prefix s) [ none ↦ false | some _ ↦ true ]

-- `strings.Contains(s, sub)`
unfoldable pub contains : Str → Str → Bool
unfolding has_prefix
contains sub [] = has_prefix sub []
contains sub (x ∷ xs) = has_prefix sub (x ∷ xs) || contains sub xs

-- `strings.HasSuffix(s, suffix)`
unfoldable pub has_suffix : Str → Str → Bool
has_suffix suffix [] = elim suffix [ [] ↦ true | _ ∷ _ ↦ false ]
has_suffix suffix (x ∷ xs) =
    (elim (after_prefix suffix (x ∷ xs)) [ some [] ↦ true | _ ↦ false ]) || has_suffix suffix xs

-- `strings.Index` of a single byte; `none` is its -1.
unfoldable pub index : ℕ → Str → Option ℕ
index c [] = none
index c (x ∷ xs) = let rest = Option.map suc (index c xs) in if x == c then some 0 else rest

-- `s[:i]`
unfoldable pub take_bytes : ℕ → Str → Str
take_bytes zero s = []
take_bytes (suc i) [] = []
take_bytes (suc i) (x ∷ xs) = x ∷ take_bytes i xs

-- `strings.ToLower`, on ASCII letters.
lower : ℕ → ℕ
lower c = if leb b'A' c && leb c b'Z' then c + 32 else c

unfoldable pub to_lower : Str → Str
unfolding lower
to_lower = map lower

-- `hex.EncodeToString`
hex_digit : ℕ → ℕ
hex_digit d = if leb 10 d then 87 + d else 48 + d

unfoldable pub hex : Str → Str
unfolding hex_digit
hex [] = []
hex (b ∷ bs) = hex_digit (b / 16) ∷ hex_digit (b % 16) ∷ hex bs
