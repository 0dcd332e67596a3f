-- ===== src/Base/Text.antt =====
-- Go strings: lists of bytes.
use Prim.Native.Char.{code}
use Prim.Native.String.{String}
use Prim.Native.Nat.{ℕ, zero, suc, ◌+◌, ◌/◌, ◌%◌}
use mathlib.Core.List.{List, [], ◌∷◌}
use edge_cdn.Base.Tests.{ltb, if◌then◌else◌}
unfoldable use native.Mathlib.Decide.{ℕ_discrete}

abbrev pub Str : Type 0
Str = List ℕ

-- The bytes of an ASCII text.
abbrev pub codes : String → Str
codes String.[] = []
codes (String.◌∷◌ c s) = code c ∷ codes s

unfoldable pub str_dec : Discrete Str
unfolding ℕ_discrete
str_dec = hlevel ℕ_discrete

-- The decimal digits of a number, as `%d` prints them; `suc n` rounds are enough for n.
unfoldable pub decimal_from : ℕ → ℕ → Str → Str
decimal_from zero n acc = acc
decimal_from (suc f) n acc =
    let digits = (48 + n % 10) ∷ acc in
    let rest = decimal_from f (n / 10) digits in if ltb n 10 then digits else rest

unfoldable pub decimal : ℕ → Str
unfolding decimal_from
decimal n = decimal_from (suc n) n []
