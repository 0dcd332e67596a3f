-- ===== src/Ring/Made.antt =====
-- Rings whose points are those of their members, and what joins and removals leave of that.
use edge_cdn.Base.{
  ℕ, ◌≡◌, ◌≢◌, refl, sym, ◌∙◌, ◌⊎◌, inl, inr, true, false, List, [], ◌∷◌, ◌++◌, arith, elem,
  ℕ_discrete, Bool-cases, elem-append_left, elem-append_right,
}
use edge_cdn.Base.Int.{ℤ, positive_or}
use edge_cdn.Base.Text.{Str, str_dec}
use edge_cdn.Ring.{Ring, owner, default_vnodes, new_ring, remove_name, with_node, without_node}
use edge_cdn.Ring.Moves.{points, with_node-ring}
use edge_cdn.Ring.Removal.{
  IsIncreasing, keep, keep-IsIncreasing, remove_points-keep, owner-remove_points,
}
use edge_cdn.Ring.Changes.{with_node-owner, with_node-elem, elem-remove_name}
use edge_cdn.Ring.Distinct.{
  Has, IsDistinct, Has-append, append-IsDistinct, append-IsDistinct_left, append-IsDistinct_right,
  append-IsDistinct_apart, sort-IsIncreasing, IsIncreasing-IsDistinct,
}

keep-Has :
    (p : ℕ) (node : Str) (m : List (ℕ × Str)) (hs : List ℕ)
    → Has p (keep node m hs)
    → Has p hs × (owner m p ≢ node)
unfolding keep
keep-Has p node m [] h = absurd (ground (arith, h))
keep-Has p node m (x ∷ xs) h = ground (arith, h, keep-Has p node m xs)

Has-keep :
    (p : ℕ) (node : Str) (m : List (ℕ × Str)) (hs : List ℕ)
    → Has p hs
    → owner m p ≢ node
    → Has p (keep node m hs)
unfolding keep
Has-keep p node m [] h other = h
Has-keep p node m (x ∷ xs) h other = ground (arith, h, Has-keep p node m xs)

remove_name-elem :
    (a n : Str) (l : List Str)
    → elem str_dec a (remove_name n l) ≡ true
    → (elem str_dec a l ≡ true) × (a ≢ n)
unfolding remove_name
remove_name-elem a n [] e = absurd (ground (arith, e))
remove_name-elem a n (x ∷ xs) e = ground (arith, e, remove_name-elem a n xs)

elem_last :
    (a n : Str) (l : List Str)
    → elem str_dec a (l ++ (n ∷ [])) ≡ true
    → (elem str_dec a l ≡ true) ⊎ (a ≡ n)
elem_last a n [] e = ground (arith, e)
elem_last a n (x ∷ xs) e = ground (arith, e, elem_last a n xs)

module _ (hash : Str → ℕ) where
  -- The points of some nodes, one after the other.
  unfoldable pub all_points : ℕ → List Str → List ℕ
  all_points v [] = []
  all_points v (n ∷ ns) = points hash v 0 n ++ all_points v ns

  all_points-Has :
      (v p : ℕ) (a : Str) (ns : List Str)
      → elem str_dec a ns ≡ true
      → Has p (points hash v 0 a)
      → Has p (all_points v ns)
  unfolding all_points
  all_points-Has v p a [] e h = absurd (ground (arith, e))
  all_points-Has v p a (n ∷ ns) e h = elim (str_dec a n) [
    | yes same ↦
        elem-append_left ℕ_discrete p (points hash v 0 n) (all_points v ns) (rw (sym same) h)
    | no other ↦
        elem-append_right ℕ_discrete p (points hash v 0 n) (all_points v ns)
          (all_points-Has v p a ns (ground (arith, e)) h)
  ]

  points-IsDistinct :
      (v : ℕ) (a : Str) (ns : List Str)
      → IsDistinct (all_points v ns)
      → elem str_dec a ns ≡ true
      → IsDistinct (points hash v 0 a)
  unfolding all_points
  points-IsDistinct v a [] d e = absurd (ground (arith, e))
  points-IsDistinct v a (n ∷ ns) d e = elim (str_dec a n) [
    | yes same ↦ rw same (append-IsDistinct_left (points hash v 0 n) (all_points v ns) d)
    | no other ↦
        points-IsDistinct v a ns (append-IsDistinct_right (points hash v 0 n) (all_points v ns) d)
          (ground (arith, e))
  ]

  one_owner :
      (v p : ℕ) (a b : Str) (ns : List Str)
      → IsDistinct (all_points v ns)
      → elem str_dec a ns ≡ true
      → elem str_dec b ns ≡ true
      → Has p (points hash v 0 a)
      → Has p (points hash v 0 b)
      → a ≡ b
  unfolding all_points
  one_owner v p a b [] d ea eb ha hb = absurd (ground (arith, ea))
  one_owner v p a b (n ∷ ns) d ea eb ha hb =
      let apart = append-IsDistinct_apart p (points hash v 0 n) (all_points v ns) d in
      elim (str_dec a n) [
        | yes a_n ↦ elim (str_dec b n) [
          | yes b_n ↦ a_n ∙ sym b_n
          | no b_other ↦
              absurd (apart (rw (sym a_n) ha) (all_points-Has v p b ns (ground (arith, eb)) hb))
        ]
        | no a_other ↦ elim (str_dec b n) [
          | yes b_n ↦
              absurd (apart (rw (sym b_n) hb) (all_points-Has v p a ns (ground (arith, ea)) ha))
          | no b_other ↦
              one_owner v p a b ns (append-IsDistinct_right (points hash v 0 n) (all_points v ns) d)
                (ground (arith, ea)) (ground (arith, eb)) ha hb
        ]
      ]

  -- The points of a ring are those of its members, each owned by the node that it is a point of.
  pub record IsMade (names : List Str) (r : Ring) : Type 0 where
    pub distinct : IsDistinct (all_points r.vnodes names)
    pub increasing : IsIncreasing r.ring
    pub named : (a : Str) → elem str_dec a r.nodes ≡ true → elem str_dec a names ≡ true
    pub pointed :
        (p : ℕ)
        → Has p r.ring
        → (a : Str) × (elem str_dec a r.nodes ≡ true) × Has p (points hash r.vnodes 0 a)
    pub full :
        (p : ℕ) (a : Str)
        → elem str_dec a r.nodes ≡ true
        → Has p (points hash r.vnodes 0 a)
        → Has p r.ring × (owner r.ring_map p ≡ a)

  pub new_ring-IsMade :
      (names : List Str) (v : ℤ)
      → IsDistinct (all_points (positive_or default_vnodes v) names)
      → IsMade names (new_ring v)
  unfolding new_ring
  new_ring-IsMade names v d = record {
    distinct = d;
    increasing = tt;
    named = λ a h. absurd (ground (arith, h));
    pointed = λ p h. absurd (ground (arith, h));
    full = λ p a h. absurd (ground (arith, h));
  }

  module _ (names : List Str) (n : Str) (r : Ring) (m : IsMade names r) where
    pub with_node-IsMade :
        elem str_dec n names ≡ true
        → elem str_dec n r.nodes ≡ false
        → IsMade names (with_node hash n r)
    unfolding with_node
    with_node-IsMade known new =
        let ps = points hash r.vnodes 0 n in
        let apart : (p : ℕ) → Has p r.ring → elem ℕ_discrete p ps ≡ false = λ p h.
          let (a, member, at) = m.pointed p h in
          elim (Bool-cases (elem ℕ_discrete p ps)) [
            | inl y ↦
                let e = one_owner r.vnodes p a n names m.distinct (m.named a member) known at y in
                absurd (ground (arith, e, member, new))
            | inr no_ ↦ no_
          ] in
        record {
          distinct = m.distinct;
          increasing = rw (with_node-ring hash r n) (
              sort-IsIncreasing (r.ring ++ ps) (
                append-IsDistinct r.ring ps (IsIncreasing-IsDistinct r.ring m.increasing)
                  (points-IsDistinct r.vnodes n names m.distinct known) apart));
          named = λ a h. elim (elem_last a n r.nodes h) [
            | inl old ↦ m.named a old
            | inr e ↦ rw e known
          ];
          pointed = λ p h. elim (Has-append p r.ring ps (sym (with_node-elem hash n r p) ∙ h)) [
            | inl old ↦
                let (a, member, at) = m.pointed p old in
                (a, elem-append_left str_dec a r.nodes (n ∷ []) member, at)
            | inr at ↦ (n, elem-append_right str_dec n r.nodes (n ∷ []) (ground arith), at)
          ];
          full = λ p a h at. elim (elem_last a n r.nodes h) [
            | inl old ↦
                let (on, own) = m.full p a old at in
                (
                  with_node-elem hash n r p ∙ elem-append_left ℕ_discrete p r.ring ps on,
                  with_node-owner hash n r p ∙ rw (apart p on) own,
                )
            | inr e ↦
                let at' : Has p ps = rw (sym e) at in
                (
                  with_node-elem hash n r p ∙ elem-append_right ℕ_discrete p r.ring ps at',
                  with_node-owner hash n r p ∙ rw (at', e) refl,
                )
          ];
        }

    pub without_node-IsMade : IsMade names (without_node n r)
    unfolding without_node
    without_node-IsMade =
        let kept = remove_points-keep n r.ring r.ring_map m.increasing in
        record {
          distinct = m.distinct;
          increasing = rw kept (keep-IsIncreasing n r.ring_map r.ring m.increasing);
          named = λ a h. m.named a (remove_name-elem a n r.nodes h).0;
          pointed = λ p h.
              let (on, other) = keep-Has p n r.ring_map r.ring (rw (sym kept) h) in
              let (a, member, at) = m.pointed p on in
              let (_, own) = m.full p a member at in
              (a, elem-remove_name a n r.nodes member (λ e. other (own ∙ e)), at);
          full = λ p a h at.
              let (member, other) = remove_name-elem a n r.nodes h in
              let (on, own) = m.full p a member at in
              let other' : owner r.ring_map p ≢ n = λ e. other (sym own ∙ e) in
              (
                rw kept (Has-keep p n r.ring_map r.ring on other'),
                owner-remove_points n r.ring r.ring_map p other' ∙ own,
              );
        }
