-- ===== src/Metrics/Paths.antt =====
-- The labels of paths: how many segments they have, and that a label is its own label.
use mathlib.Core.List.{append_assoc, append-nil}
use edge_cdn.Base.{
  ◌≤◌, ◌<◌, ◌≡◌, ◌≢◌, refl, sym, ◌∙◌, ap, ◌⊎◌, inl, inr, false, List, [], ◌∷◌, ◌++◌, arith, ◌==◌,
  if_neg, length, All, Bool-cases,
}
use edge_cdn.Base.Text.{Str, str_dec, codes}
use edge_cdn.Metrics.{split_loop, split_path, label_loop, normalize_path}

IsSegment : Str → Type 0
IsSegment s = (0 < length s) × All (λ c. c ≢ b'/') s

All-snoc {ℓ κ} :
    {A : Type ℓ} (P : A → Type κ) (xs : List A) (x : A) → All P xs → P x → All P (xs ++ (x ∷ []))
All-snoc P [] x a p = (p, tt)
All-snoc P (y ∷ ys) x a p = (a.0, All-snoc P ys x a.1 p)

split_loop-All :
    (p current : Str) (segments : List Str)
    → All (λ c. c ≢ b'/') current
    → All IsSegment segments
    → All IsSegment (split_loop p current segments)
unfolding split_loop IsSegment
split_loop-All [] current segments c s = elim (Bool-cases (length current == 0)) [
  | inl z ↦ rw z s
  | inr nz ↦ rw nz (All-snoc IsSegment segments current s (ground arith, c))
]
split_loop-All (x ∷ p) current segments c s = elim (Bool-cases (x == b'/')) [
  | inr other ↦
      let fresh : x ≢ b'/' = ground arith in
      rw other (
        split_loop-All p (current ++ (x ∷ [])) segments (All-snoc (λ y. y ≢ b'/') current x c fresh)
          s)
  | inl slash ↦ elim (Bool-cases (length current == 0)) [
    | inl z ↦ rw (slash, z) (split_loop-All p current segments c s)
    | inr nz ↦
        rw (slash, nz)
          (split_loop-All p [] (segments ++ (current ∷ [])) tt
            (All-snoc IsSegment segments current s (ground arith, c)))
  ]
]

split_loop-append :
    (s rest current : Str) (segments : List Str)
    → All (λ c. c ≢ b'/') s
    → split_loop (s ++ rest) current segments ≡ split_loop rest (current ++ s) segments
unfolding split_loop
split_loop-append [] rest current segments a =
    ap (λ c. split_loop rest c segments) (sym (append-nil current))
split_loop-append (x ∷ s) rest current segments a = ground (
  arith,
  split_loop-append s rest (current ++ (x ∷ [])) segments a.1,
  append_assoc current (x ∷ []) s,
)

-- A segment behind a slash, after the segments so far.
split_loop-segment :
    (s rest : Str) (segments : List Str)
    → IsSegment s
    → split_loop (s ++ (b'/' ∷ rest)) [] segments ≡ split_loop rest [] (segments ++ (s ∷ []))
unfolding split_loop IsSegment
split_loop-segment s rest segments v =
    let z : (length s == 0) ≡ false = ground (arith, v.0) in
    split_loop-append s (b'/' ∷ rest) [] segments v.1 ∙ rw z refl

split_path-label :
    (a b : Str)
    → IsSegment a
    → IsSegment b
    → split_path (label_loop 0 (a ∷ b ∷ codes "*" ∷ []) []) ≡ a ∷ b ∷ codes "*" ∷ []
unfolding split_path label_loop split_loop
split_path-label a b va vb =
    ap split_path (append_assoc (codes "/" ++ a) (codes "/" ++ b) (codes "/*"))
    ∙ split_loop-segment a (b ++ codes "/*") [] va
    ∙ split_loop-segment b (codes "*") (a ∷ []) vb

label_loop-rest :
    (a b c : Str) (rest : List Str)
    → label_loop 0 (a ∷ b ∷ c ∷ rest) [] ≡ label_loop 0 (a ∷ b ∷ codes "*" ∷ []) []
unfolding label_loop
label_loop-rest a b c rest = refl

split_path-slash : split_path (codes "/") ≡ []
unfolding split_path split_loop
split_path-slash = refl

split_path-empty : split_path [] ≡ []
unfolding split_path split_loop
split_path-empty = refl

-- A path of more than two segments is counted under its first two and a star.
normalize_path-long :
    (p a b c : Str) (rest : List Str)
    → split_path p ≡ a ∷ b ∷ c ∷ rest
    → normalize_path p ≡ label_loop 0 (a ∷ b ∷ codes "*" ∷ []) []
unfolding normalize_path
normalize_path-long [] a b c rest e = absurd (ground (arith, split_path-empty))
normalize_path-long (x ∷ p) a b c rest e = elim (str_dec (x ∷ p) (codes "/")) [
  | yes q ↦
      let slash : [] ≡ a ∷ b ∷ c ∷ rest = sym split_path-slash ∙ ap split_path (sym q) ∙ e in
      absurd (ground arith)
  | no q ↦
      rw (if_neg (str_dec (x ∷ p) (codes "/")) q, e) (ground (arith, label_loop-rest a b c rest))
]

normalize_path-short :
    (p : Str) → length (split_path p) ≤ 2 → (normalize_path p ≡ p) ⊎ (normalize_path p ≡ codes "/")
unfolding normalize_path
normalize_path-short p h = ground arith

path_cases :
    (p : Str) (segs : List Str)
    → split_path p ≡ segs
    → All IsSegment segs
    → ((length segs ≤ 2) × ((normalize_path p ≡ p) ⊎ (normalize_path p ≡ codes "/")))
      ⊎ ((a : Str) × (b : Str) × IsSegment a
          × IsSegment b
          × (normalize_path p ≡ label_loop 0 (a ∷ b ∷ codes "*" ∷ []) []))
path_cases p (a ∷ b ∷ c ∷ rest) e v = inr (a, b, v.0, v.1.0, normalize_path-long p a b c rest e)
path_cases p [] e v = inl (omega arith, normalize_path-short p (rw e (omega arith)))
path_cases p (a ∷ []) e v = inl (omega arith, normalize_path-short p (rw e (omega arith)))
path_cases p (a ∷ b ∷ []) e v = inl (omega arith, normalize_path-short p (rw e (omega arith)))

split_path-All : (p : Str) → All IsSegment (split_path p)
unfolding split_path
split_path-All p = split_loop-All p [] [] tt tt

normalize_path-slash : normalize_path (codes "/") ≡ codes "/"
unfolding normalize_path
normalize_path-slash = ground arith

-- The label of a path is its own label.
pub normalize_path-normalize_path : (p : Str) → normalize_path (normalize_path p) ≡ normalize_path p
normalize_path-normalize_path p = elim (path_cases p (split_path p) refl (split_path-All p)) [
  | inl (h, inl same) ↦ ap normalize_path same
  | inl (h, inr slash) ↦ ap normalize_path slash ∙ normalize_path-slash ∙ sym slash
  | inr (a, b, va, vb, e) ↦
      ap normalize_path e
      ∙ normalize_path-long _ a b (codes "*") [] (split_path-label a b va vb)
      ∙ sym e
]

-- The label of a path has at most three segments.
pub normalize_path-segments_le : (p : Str) → length (split_path (normalize_path p)) ≤ 3
normalize_path-segments_le p = elim (path_cases p (split_path p) refl (split_path-All p)) [
  | inl (h, inl same) ↦ rw same (omega arith)
  | inl (h, inr slash) ↦ rw (slash, split_path-slash) (omega arith)
  | inr (a, b, va, vb, e) ↦ rw (e, split_path-label a b va vb) (omega arith)
]
