-- ===== src/Health/Target.antt =====
-- `AddTarget`: which node a health URL names.
use edge_cdn.Base.{ℕ, ◌<◌, ◌≡◌, ◌≢◌, refl, ap, ◌∙◌, none, some, [], ◌∷◌, ◌++◌, arith, length, All}
use edge_cdn.Base.Text.{Str, codes}
use edge_cdn.Base.Bytes.{trim_prefix, index, take_bytes, after_prefix}
use edge_cdn.Health.{Checker, before_slash, target_address, infer_region, register_node, add_target}

index-append :
    (c : ℕ) (s rest : Str) → All (λ x. x ≢ c) s → index c (s ++ (c ∷ rest)) ≡ some (length s)
unfolding index
index-append c [] rest a = ground arith
index-append c (x ∷ xs) rest a = ground (arith, index-append c xs rest a.1)

take_bytes-length : (s rest : Str) → take_bytes (length s) (s ++ rest) ≡ s
unfolding take_bytes
take_bytes-length [] rest = refl
take_bytes-length (x ∷ xs) rest = rw (take_bytes-length xs rest)

-- A text with no `/` before `/h` does not begin with `p//`, where `p` has no `/`.
no_scheme :
    (p host rest : Str)
    → All (λ x. x ≢ b'/') p
    → All (λ x. x ≢ b'/') host
    → after_prefix (p ++ (b'/' ∷ b'/' ∷ [])) (host ++ (b'/' ∷ b'h' ∷ rest)) ≡ none
unfolding after_prefix
no_scheme [] [] rest ap ah = refl
no_scheme [] (x ∷ xs) rest ap ah = ground arith
no_scheme (c ∷ cs) [] rest ap ah = ground arith
no_scheme (c ∷ cs) (x ∷ xs) rest ap ah = ground (arith, no_scheme cs xs rest ap.1 ah.1)

no_https :
    (host : Str)
    → All (λ x. x ≢ b'/') host
    → trim_prefix (codes "https://") (host ++ codes "/health") ≡ host ++ codes "/health"
unfolding trim_prefix
no_https host a = rw (no_scheme (codes "https:") host (codes "ealth") (omega arith) a)

trim_http : (s : Str) → trim_prefix (codes "http://") (codes "http://" ++ s) ≡ s
unfolding trim_prefix after_prefix
trim_http s = refl

before_slash-host :
    (host rest : Str)
    → All (λ x. x ≢ b'/') host
    → 0 < length host
    → before_slash (host ++ (b'/' ∷ rest)) ≡ host
unfolding before_slash
before_slash-host host rest a h =
    ground (arith, index-append b'/' host rest a, take_bytes-length host (b'/' ∷ rest))

target_address-host :
    (host : Str)
    → All (λ x. x ≢ b'/') host
    → 0 < length host
    → target_address (codes "http://" ++ (host ++ codes "/health")) ≡ host
unfolding target_address
target_address-host host a h =
    ap (λ s. before_slash (trim_prefix (codes "https://") s)) (trim_http (host ++ codes "/health"))
    ∙ ap before_slash (no_https host a)
    ∙ before_slash-host host (codes "health") a h

-- The URL `http://host/health`, for a non-empty host without a `/`, registers that host, in the
-- region that the node's name suggests.
pub add_target-host :
    (name host : Str) (c : Checker)
    → All (λ x. x ≢ b'/') host
    → 0 < length host
    → add_target name (codes "http://" ++ (host ++ codes "/health")) c
      ≡ register_node host (infer_region name) c
unfolding add_target
add_target-host name host c a h =
    ap (λ addr. register_node addr (infer_region name) c) (target_address-host host a h)
