-- ===== src/Edge/Types.antt =====
-- The content type of a body from the origin, and of the same body from the cache.
use edge_cdn.Base.{
  ℕ, suc, ◌+◌, ◌≤◌, ◌≡◌, refl, some, [], ◌∷◌, ◌++◌, true, false, arith, length, length-append,
  Option-cases, inl, inr,
}
use edge_cdn.Base.Text.{Str, str_dec, codes}
use edge_cdn.Base.Bytes.{has_suffix, after_prefix, to_lower}
use edge_cdn.Origin.{ext_from, ext, generate_content}
use edge_cdn.Edge.{detect_content_type}

length-after_prefix :
    (p s rest : Str) → after_prefix p s ≡ some rest → length s ≡ length p + length rest
unfolding after_prefix
length-after_prefix [] s rest e = ground arith
length-after_prefix (c ∷ p) [] rest e = absurd (ground arith)
length-after_prefix (c ∷ p) (x ∷ s) rest e = ground (arith, length-after_prefix p s rest)

-- Whether a text ends with a suffix shows at its end.
no_suffix :
    (suffix t : Str)
    → length suffix ≤ suc (length t)
    → has_suffix suffix t ≡ false
    → ((x : ℕ) → has_suffix suffix (x ∷ t) ≡ false)
    → (s : Str) → has_suffix suffix (s ++ t) ≡ false
unfolding has_suffix
no_suffix suffix t h none_here one [] = none_here
no_suffix suffix t h none_here one (x ∷ []) = one x
no_suffix suffix t h none_here one (x ∷ y ∷ s) =
    let rest = no_suffix suffix t h none_here one (y ∷ s) in
    elim (Option-cases (after_prefix suffix (x ∷ y ∷ (s ++ t)))) [
      | inl e ↦ rw e rest
      | inr (r, e) ↦ longer rest r e
    ]
  where
    longer :
        has_suffix suffix (y ∷ (s ++ t)) ≡ false
        → (r : Str) → after_prefix suffix (x ∷ y ∷ (s ++ t)) ≡ some r
        → has_suffix suffix (x ∷ y ∷ (s ++ t)) ≡ false
    longer rest [] e =
        absurd
          (omega (arith, length-after_prefix suffix (x ∷ y ∷ (s ++ t)) [] e, length-append s t))
    longer rest (c ∷ r) e = rw e rest

after_prefix_self : (t : Str) → after_prefix t t ≡ some []
unfolding after_prefix
after_prefix_self [] = refl
after_prefix_self (x ∷ t) = ground (arith, after_prefix_self t)

has_suffix-append : (c : ℕ) (t s : Str) → has_suffix (c ∷ t) (s ++ (c ∷ t)) ≡ true
unfolding has_suffix
has_suffix-append c t [] = rw (after_prefix_self (c ∷ t)) refl
has_suffix-append c t (x ∷ s) = ground (arith, has_suffix-append c t s)

to_lower-append : (s t : Str) → to_lower (s ++ t) ≡ to_lower s ++ to_lower t
unfolding to_lower
to_lower-append [] t = refl
to_lower-append (x ∷ s) t = rw (to_lower-append s t) refl

ext_from-jpg : (p current : Str) → ext_from current (p ++ codes ".jpg") ≡ codes ".jpg"
unfolding ext_from
ext_from-jpg [] current = refl
ext_from-jpg (c ∷ p) current = ext_from-jpg p _

jpg_lower : to_lower (codes ".jpg") ≡ codes ".jpg"
unfolding to_lower
jpg_lower = refl

-- A text that ends with `.jpg` ends with no suffix that is not an end of `.jpg` itself.
jpg_only :
    (suffix s : Str)
    → length suffix ≤ 5
    → has_suffix suffix (codes ".jpg") ≡ false
    → ((x : ℕ) → has_suffix suffix (x ∷ codes ".jpg") ≡ false)
    → has_suffix suffix (to_lower (s ++ codes ".jpg")) ≡ false
jpg_only suffix s h e f =
    rw (to_lower-append s (codes ".jpg"), jpg_lower)
      (no_suffix suffix (codes ".jpg") h e f (to_lower s))

jpg_generated :
    (etag clock p : Str) → (generate_content etag clock (p ++ codes ".jpg")).0 ≡ codes "image/png"
unfolding generate_content ext str_dec
jpg_generated etag clock p = rw (ext_from-jpg p [], jpg_lower) refl

jpg_detected :
    (p body : Str) (sniff : Str → Str)
    → detect_content_type sniff (p ++ codes ".jpg") body ≡ codes "image/jpeg"
unfolding detect_content_type has_suffix after_prefix
jpg_detected p body sniff =
    let is_jpg : has_suffix (codes ".jpg") (to_lower (p ++ codes ".jpg")) ≡ true =
      rw (to_lower-append p (codes ".jpg"), jpg_lower)
        (has_suffix-append b'.' (codes "jpg") (to_lower p)) in
    rw
      (
        jpg_only (codes ".html") p (omega arith) refl (λ x. ground arith),
        jpg_only (codes ".htm") p (omega arith) refl (λ x. ground arith),
        jpg_only (codes ".json") p (omega arith) refl (λ x. ground arith),
        jpg_only (codes ".css") p (omega arith) refl (λ x. ground arith),
        jpg_only (codes ".js") p (omega arith) refl (λ x. ground arith),
        jpg_only (codes ".png") p (omega arith) refl (λ x. ground arith),
        is_jpg,
      )
      refl

-- The image of a path that ends with `.jpg` has the type `image/png` from the origin, and
-- `image/jpeg` from the cache, whatever its bytes.
pub jpg_types :
    (etag clock p body : Str) (sniff : Str → Str)
    → ((generate_content etag clock (p ++ codes ".jpg")).0 ≡ codes "image/png")
      × (detect_content_type sniff (p ++ codes ".jpg") body ≡ codes "image/jpeg")
jpg_types etag clock p body sniff = (jpg_generated etag clock p, jpg_detected p body sniff)
