-- ===== src/Base/Headers.antt =====
-- What the program uses of `net/http`'s headers: pairs of a name, in Go's canonical form, and a value.
use mathlib.Core.Path.{◌≡◌, refl}
use mathlib.Core.List.{List, [], ◌∷◌}
use mathlib.Core.Logic.{◌≢◌, ite}
use native.Mathlib.Omega.{arith}
use edge_cdn.Base.Text.{Str, str_dec}

-- `Header.Get`, with `""` for a missing header.
unfoldable pub get_header : Str → List (Str × Str) → Str
get_header k [] = []
get_header k ((j, v) ∷ hs) = ite (str_dec k j) v (get_header k hs)

-- `Header.Del` and `Header.Set`.
unfoldable pub drop_header : Str → List (Str × Str) → List (Str × Str)
drop_header k [] = []
drop_header k ((j, v) ∷ hs) = let rest = drop_header k hs in ite (str_dec k j) rest ((j, v) ∷ rest)

unfoldable pub set_header : Str → Str → List (Str × Str) → List (Str × Str)
unfolding drop_header
set_header k v hs = (k, v) ∷ drop_header k hs

pub get_header-drop_header :
    (j k : Str) (hs : List (Str × Str)) → j ≢ k → get_header j (drop_header k hs) ≡ get_header j hs
unfolding get_header drop_header
get_header-drop_header j k [] ne = refl
get_header-drop_header j k ((i, v) ∷ hs) ne = ground (arith, get_header-drop_header j k hs ne)

pub get_header-set_header :
    (j k v : Str) (hs : List (Str × Str))
    → j ≢ k
    → get_header j (set_header k v hs) ≡ get_header j hs
unfolding get_header set_header
get_header-set_header j k v hs ne = ground (arith, get_header-drop_header j k hs ne)

pub get_header-set_header_self :
    (k v : Str) (hs : List (Str × Str)) → get_header k (set_header k v hs) ≡ v
unfolding get_header set_header
get_header-set_header_self k v hs = ground arith
