-- ===== src/Ring/History.antt =====
-- Rings that nodes joined and left, by their members.
use edge_cdn.Base.{
  ℕ, ◌≡◌, refl, sym, ◌∙◌, ap, inl, inr, true, Option, none, some, List, [], ◌∷◌, arith, elem,
  ℕ_discrete, Bool-cases, Option-cases,
}
use edge_cdn.Base.Int.{ℤ, positive_or}
use edge_cdn.Base.Text.{Str, str_dec}
use edge_cdn.Ring.{
  Ring, owner, default_vnodes, new_ring, with_node, without_node, add_node, remove_node, get_node,
}
use edge_cdn.Ring.Points.{IsSorted, first_ge, first_ge-least, least-elem}
use edge_cdn.Ring.Lookup.{successor, owner_of, get_node-eq-owner_of}
use edge_cdn.Ring.Moves.{points}
use edge_cdn.Ring.Removal.{IsIncreasing-IsSorted}
use edge_cdn.Ring.Changes.{Change, joins, leaves, changes}
use edge_cdn.Ring.Distinct.{Has, IsDistinct, least-ext}
use edge_cdn.Ring.Made.{all_points, IsMade, new_ring-IsMade, with_node-IsMade, without_node-IsMade}

successor-ext :
    (h : ℕ) (xs ys : List ℕ)
    → IsSorted xs
    → IsSorted ys
    → ((p : ℕ) → Has p xs → Has p ys)
    → ((p : ℕ) → Has p ys → Has p xs)
    → successor h xs ≡ successor h ys
unfolding successor
successor-ext h xs ys s s' there back =
    let same : (k : ℕ) → first_ge k xs ≡ first_ge k ys =
      λ k. first_ge-least k xs s ∙ least-ext k xs ys there back ∙ sym (first_ge-least k ys s') in
    ground (arith, same h, same 0)

first_ge-Has : (h : ℕ) (xs : List ℕ) {p : ℕ} → IsSorted xs → first_ge h xs ≡ some p → Has p xs
first_ge-Has h xs s e = least-elem h xs (sym (first_ge-least h xs s) ∙ e)

successor-Has : (h : ℕ) (xs : List ℕ) {p : ℕ} → IsSorted xs → successor h xs ≡ some p → Has p xs
unfolding successor
successor-Has h xs {p} s e = ground (
  arith,
  e,
  first_ge-Has h xs {p = p} s,
  first_ge-Has 0 xs {p = p} s,
  Option-cases (first_ge h xs),
)

module _ (hash : Str → ℕ) where
  -- The nodes that a change names are among some.
  abbrev pub IsAmong : List Str → List (Change hash) → Type 0
  IsAmong names [] = Unit {0}
  IsAmong names (joins n ∷ cs) = (elem str_dec n names ≡ true) × IsAmong names cs
  IsAmong names (leaves n ∷ cs) = IsAmong names cs

  add_node-IsMade :
      (names : List Str) (n : Str) (r : Ring)
      → elem str_dec n names ≡ true
      → IsMade hash names r
      → IsMade hash names (add_node hash n r).0
  unfolding add_node
  add_node-IsMade names n r known m = elim (Bool-cases (elem str_dec n r.nodes)) [
    | inl old ↦ rw old m
    | inr new ↦ rw new (with_node-IsMade hash names n r m known new)
  ]

  remove_node-IsMade :
      (names : List Str) (n : Str) (r : Ring)
      → IsMade hash names r
      → IsMade hash names (remove_node n r).0
  unfolding remove_node
  remove_node-IsMade names n r m = elim (Bool-cases (elem str_dec n r.nodes)) [
    | inl old ↦ rw old (without_node-IsMade hash names n r m)
    | inr new ↦ rw new m
  ]

  changes-IsMade :
      (names : List Str) (cs : List (Change hash)) (r : Ring)
      → IsAmong names cs
      → IsMade hash names r
      → IsMade hash names (changes hash cs r)
  unfolding changes
  changes-IsMade names [] r among m = m
  changes-IsMade names (joins n ∷ cs) r among m =
      changes-IsMade names cs _ among.1 (add_node-IsMade names n r among.0 m)
  changes-IsMade names (leaves n ∷ cs) r among m =
      changes-IsMade names cs _ among (remove_node-IsMade names n r m)

  changes-vnodes : (cs : List (Change hash)) (r : Ring) → (changes hash cs r).vnodes ≡ r.vnodes
  unfolding changes add_node remove_node with_node without_node
  changes-vnodes [] r = refl
  changes-vnodes (joins n ∷ cs) r = changes-vnodes cs (add_node hash n r).0 ∙ ground arith
  changes-vnodes (leaves n ∷ cs) r = changes-vnodes cs (remove_node n r).0 ∙ ground arith

  -- What two rings with the same members have in common.
  module _ (names : List Str) (r r' : Ring) (m : IsMade hash names r) (m' : IsMade hash names r')
      (count : r.vnodes ≡ r'.vnodes)
      (members : (a : Str) → elem str_dec a r.nodes ≡ elem str_dec a r'.nodes) where
    same_point : (p : ℕ) → Has p r.ring → Has p r'.ring × (owner r.ring_map p ≡ owner r'.ring_map p)
    same_point p h =
        let (a, member, at) = m.pointed p h in
        let (on, own) =
          m'.full p a (sym (members a) ∙ member)
            (rw (ap (λ v. elem ℕ_discrete p (points hash v 0 a)) (sym count)) at) in
        (on, (m.full p a member at).1 ∙ sym own)

  same_node :
      (names : List Str) (r r' : Ring) (key : Str)
      → IsMade hash names r
      → IsMade hash names r'
      → r.vnodes ≡ r'.vnodes
      → ((a : Str) → elem str_dec a r.nodes ≡ elem str_dec a r'.nodes)
      → get_node hash r key ≡ get_node hash r' key
  same_node names r r' key m m' count members =
      let there = same_point names r r' m m' count members in
      let back = same_point names r' r m' m (sym count) (λ a. sym (members a)) in
      let sorted = IsIncreasing-IsSorted r.ring m.increasing in
      let sorted' = IsIncreasing-IsSorted r'.ring m'.increasing in
      let at =
        successor-ext (hash key) r.ring r'.ring sorted sorted' (λ p h. (there p h).0)
          (λ p h. (back p h).0) in
      get_node-eq-owner_of hash r key sorted
      ∙ own (successor (hash key) r.ring)
          (λ p e. (there p (successor-Has (hash key) r.ring sorted e)).1)
      ∙ ap (owner_of r'.ring_map) at
      ∙ sym (get_node-eq-owner_of hash r' key sorted')
    where
      own :
          (o : Option ℕ)
          → ((p : ℕ) → o ≡ some p → owner r.ring_map p ≡ owner r'.ring_map p)
          → owner_of r.ring_map o ≡ owner_of r'.ring_map o
      own none f = refl
      own (some p) f = f p refl

  -- Two rings made by `NewRing` that nodes joined and left send every key to the same node when they
  -- have the same members at the end, whatever the order was. The nodes that joined are among `names`,
  -- no two of whose points collide.
  pub history_irrelevant :
      (v : ℤ) (names : List Str) (cs cs' : List (Change hash)) (key : Str)
      → IsDistinct (all_points hash (positive_or default_vnodes v) names)
      → IsAmong names cs
      → IsAmong names cs'
      → ((a : Str)
          → elem str_dec a (changes hash cs (new_ring v)).nodes
            ≡ elem str_dec a (changes hash cs' (new_ring v)).nodes)
      → get_node hash (changes hash cs (new_ring v)) key
        ≡ get_node hash (changes hash cs' (new_ring v)) key
  history_irrelevant v names cs cs' key d among among' members =
      let made = new_ring-IsMade hash names v d in
      same_node names (changes hash cs (new_ring v)) (changes hash cs' (new_ring v)) key
        (changes-IsMade names cs (new_ring v) among made)
        (changes-IsMade names cs' (new_ring v) among' made)
        (changes-vnodes cs (new_ring v) ∙ sym (changes-vnodes cs' (new_ring v))) members
