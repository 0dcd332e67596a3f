-- ===== src/Command/Pairs.antt =====
-- EDGE_NODES as it is written and as it is read.
use edge_cdn.Base.{ℕ, ◌≡◌, ◌≢◌, refl, ap, ◌∙◌, false, some, List, [], ◌∷◌, ◌++◌, map, All, arith}
use edge_cdn.Base.Text.{Str}
use edge_cdn.Base.Floats.{Float}
use edge_cdn.Command.{split, is_space, trim_left, trim_right, trim_space}
use edge_cdn.Command.Nodes.{cut_at, node_entry, parse_pairs, parse_nodes}

-- A byte of an address: no comma, and no space. A byte of a region's name is also no `=`.
abbrev pub IsPlain : ℕ → Type 0
IsPlain c = (c ≢ b',') × (is_space c ≡ false)

abbrev pub IsEntry : Str × Str → Type 0
IsEntry (reg, addr) = All (λ c. (c ≢ b'=') × IsPlain c) reg × All IsPlain addr

-- `region=host`, and such pairs with commas between them.
abbrev pub pair_text : Str × Str → Str
pair_text (reg, addr) = reg ++ (b'=' ∷ addr)

abbrev pub nodes_text : Str × Str → List (Str × Str) → Str
nodes_text p [] = pair_text p
nodes_text p (q ∷ qs) = pair_text p ++ (b',' ∷ nodes_text q qs)

All-append : (P : ℕ → Type 0) (s t : Str) → All P s → All P t → All P (s ++ t)
All-append P [] t a b = b
All-append P (x ∷ s) t a b = (a.0, All-append P s t a.1 b)

All-IsPlain : (s : Str) → All (λ c. (c ≢ b'=') × IsPlain c) s → All IsPlain s
All-IsPlain [] a = tt
All-IsPlain (x ∷ s) a = (a.0.1, All-IsPlain s a.1)

pair-IsPlain : (p : Str × Str) → IsEntry p → All IsPlain (pair_text p)
pair-IsPlain (reg, addr) (r, a) =
    All-append IsPlain reg (b'=' ∷ addr) (All-IsPlain reg r)
      (((λ h. absurd (ground (arith, h))), refl), a)

split_plain : (s : Str) → All IsPlain s → split b',' s ≡ s ∷ []
unfolding split
split_plain [] a = refl
split_plain (x ∷ s) a = ground (arith, split_plain s a.1, a.0.0)

split_front : (s t : Str) → All IsPlain s → split b',' (s ++ (b',' ∷ t)) ≡ s ∷ split b',' t
unfolding split
split_front [] t a = refl
split_front (x ∷ s) t a = ground (arith, split_front s t a.1, a.0.0)

trim_left_plain : (s : Str) → All IsPlain s → trim_left s ≡ s
unfolding trim_left
trim_left_plain [] a = refl
trim_left_plain (x ∷ s) a = ground (arith, a.0.1)

trim_right_plain : (s : Str) → All IsPlain s → trim_right s ≡ s
unfolding trim_right
trim_right_plain [] a = refl
trim_right_plain (x ∷ s) a = ground (arith, trim_right_plain s a.1, a.0.1)

trim_space_plain : (s : Str) → All IsPlain s → trim_space s ≡ s
unfolding trim_space
trim_space_plain s a = ap trim_right (trim_left_plain s a) ∙ trim_right_plain s a

cut_at_pair :
    (reg addr : Str)
    → All (λ c. (c ≢ b'=') × IsPlain c) reg
    → cut_at b'=' (reg ++ (b'=' ∷ addr)) ≡ some (reg, addr)
unfolding cut_at
cut_at_pair [] addr a = refl
cut_at_pair (x ∷ reg) addr a = ground (arith, cut_at_pair reg addr a.1, a.0.0)

module _ (F : Float) where
  parse_pair :
      (p : Str × Str) (rest : List Str)
      → IsEntry p
      → parse_pairs F (pair_text p ∷ rest) ≡ node_entry F p.0 p.1 ∷ parse_pairs F rest
  unfolding parse_pairs
  parse_pair (reg, addr) rest e =
      rw
        (
          parse_pairs,
          trim_space_plain (pair_text (reg, addr)) (pair-IsPlain (reg, addr) e),
          cut_at_pair reg addr e.0,
        )
        refl

  -- The nodes are read back, in their order, from EDGE_NODES as pairs with commas between them, where
  -- no name or address has a comma or a space, and no name has a `=`.
  pub parse_nodes-nodes_text :
      (p : Str × Str) (ps : List (Str × Str))
      → IsEntry p
      → All IsEntry ps
      → parse_nodes F (nodes_text p ps) ≡ map (λ (q : Str × Str). node_entry F q.0 q.1) (p ∷ ps)
  unfolding parse_nodes parse_pairs
  parse_nodes-nodes_text p [] e es =
      ap (parse_pairs F) (split_plain (pair_text p) (pair-IsPlain p e)) ∙ parse_pair p [] e
  parse_nodes-nodes_text p (q ∷ qs) e es =
      ap (parse_pairs F) (split_front (pair_text p) (nodes_text q qs) (pair-IsPlain p e))
      ∙ parse_pair p _ e
      ∙ ap (λ r. node_entry F p.0 p.1 ∷ r) (parse_nodes-nodes_text q qs es.0 es.1)
