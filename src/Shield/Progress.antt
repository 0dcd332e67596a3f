-- ===== src/Shield/Progress.antt =====
-- internal/shield/shield.go: how many steps the requests have before them, and which one is open to a
-- request that has not returned.
use edge_cdn.Base.{
  ℕ, suc, ◌+◌, ◌≤◌, ◌<◌, ◌≡◌, refl, ◌⊎◌, inl, inr, arith, Bool-cases, Option-cases, leb,
}
use edge_cdn.Base.Text.{Str, str_dec}
use edge_cdn.Base.Int.{ℤ}
use edge_cdn.Base.Maps.{lookup}
use edge_cdn.Shield.{
  fetching, signalled, Reply, own, coalesced, Phase, idle, leads, waits, returned, Shield, update,
  new_shield, join, lead, arrive, finish, clear, deliver, cancel,
}
use edge_cdn.Shield.Steps.{
  Step, arrives, finishes, clears, delivers, cancels, Reach, start, later, IsValid,
}
use edge_cdn.Shield.Totals.{total, total-update}
use edge_cdn.Shield.Reached.{Reach-IsValid}

-- The steps that a request has before it at most.
abbrev pub weight : {A : Type 0} → Phase A → ℕ
weight idle = 0
weight (leads fetching c p) = 2
weight (leads signalled c p) = 1
weight (waits c) = 1
weight (returned r) = 0

module _ {A : Type 0} where
  -- The steps before the requests below a number.
  abbrev pub work : ℕ → (ℕ → Phase A) → ℕ
  work n rs = total weight n rs

  -- No request from a number on is open.
  abbrev pub IsWithin : ℕ → (ℕ → Phase A) → Type 0
  IsWithin n rs = (i : ℕ) → n ≤ i → weight (rs i) ≡ 0

  IsWithin-update :
      (n i : ℕ) (rs : ℕ → Phase A) (p : Phase A)
      → IsWithin n rs
      → weight p ≡ 0 ⊎ (i < n)
      → IsWithin n (update rs i p)
  IsWithin-update n i rs p w h j le = ground (arith, w j, h)

  -- A step that is not an arrival.
  abbrev pub IsMove : {s t : Shield A} → Step s t → Type 0
  IsMove (arrives i path e) = ⊥
  IsMove (finishes i c path r e) = Unit {0}
  IsMove (clears i c path r e d) = Unit {0}
  IsMove (delivers i c r e d) = Unit {0}
  IsMove (cancels i c e) = Unit {0}

  -- A step by which a fetch ends or a result is handed on.
  abbrev pub IsAnswer : {s t : Shield A} → Step s t → Type 0
  IsAnswer (arrives i path e) = ⊥
  IsAnswer (finishes i c path r e) = Unit {0}
  IsAnswer (clears i c path r e d) = Unit {0}
  IsAnswer (delivers i c r e d) = Unit {0}
  IsAnswer (cancels i c e) = ⊥

  -- A number of steps that are not arrivals.
  pub data Moves (s : Shield A) : ℕ → Shield A → Type 0 where
    still : Moves s 0 s
    then_ : {k : ℕ} {t u : Shield A} → Moves s k t → (st : Step t u) → IsMove st → Moves s (suc k) u

  move :
      (n i : ℕ) (rs : ℕ → Phase A) (p : Phase A)
      → IsWithin n rs
      → weight p < weight (rs i)
      → IsWithin n (update rs i p) × (work n (update rs i p) < work n rs)
  move n i rs p w less =
      let lt : i < n = elim (Bool-cases (leb n i)) [
        | inl y ↦ absurd (ground (arith, w i))
        | inr y ↦ ground arith
      ] in
      (IsWithin-update n i rs p w (inr lt), omega (arith, total-update weight n i rs p lt))

  Step-work :
      (n : ℕ) {s t : Shield A} (st : Step s t)
      → IsMove st
      → IsWithin n s.requests
      → IsWithin n t.requests × (work n t.requests < work n s.requests)
  unfolding finish clear deliver cancel
  Step-work n {s} (arrives i path e) m w = absurd m
  Step-work n {s} (finishes i c path r e) m w =
      move n i s.requests (leads signalled c path) w (rw e (omega arith))
  Step-work n {s} (clears i c path r e d) m w =
      move n i s.requests (returned (own r)) w (rw e (omega arith))
  Step-work n {s} (delivers i c r e d) m w =
      move n i s.requests (returned (coalesced r)) w (rw e (omega arith))
  Step-work n {s} (cancels i c e) m w =
      move n i s.requests (returned Reply.context_done) w (rw e (omega arith))

  Moves-work :
      (n : ℕ) {s t : Shield A} {k : ℕ}
      → IsWithin n s.requests
      → Moves s k t
      → IsWithin n t.requests × (k + work n t.requests ≤ work n s.requests)
  Moves-work n w still = (w, omega arith)
  Moves-work n w (then_ ms st m) =
      let (w', le) = Moves-work n w ms in let (w'', lt) = Step-work n st m w' in (w'', omega arith)

  Moves-Reach : {limit : ℤ} {s t : Shield A} {k : ℕ} → Reach limit s → Moves s k t → Reach limit t
  Moves-Reach r still = r
  Moves-Reach r (then_ ms st m) = later (Moves-Reach r ms) st

  arrive-IsWithin :
      (n i : ℕ) (path : Str) (s : Shield A)
      → IsWithin n s.requests
      → IsWithin (n + i + 1) (arrive i path s).requests
  unfolding arrive join lead
  arrive-IsWithin n i path s w j le =
      ground (arith, w j, Option-cases (lookup str_dec path s.inflight))

  Step-IsWithin :
      (n : ℕ) {s t : Shield A} → Step s t → IsWithin n s.requests → (m : ℕ) × IsWithin m t.requests
  Step-IsWithin n {s} (arrives i path e) w = (n + i + 1, arrive-IsWithin n i path s w)
  Step-IsWithin n (finishes i c path r e) w = (n, (Step-work n (finishes i c path r e) tt w).0)
  Step-IsWithin n (clears i c path r e d) w = (n, (Step-work n (clears i c path r e d) tt w).0)
  Step-IsWithin n (delivers i c r e d) w = (n, (Step-work n (delivers i c r e d) tt w).0)
  Step-IsWithin n (cancels i c e) w = (n, (Step-work n (cancels i c e) tt w).0)

  pub Reach-IsWithin : {limit : ℤ} {s : Shield A} → Reach limit s → (n : ℕ) × IsWithin n s.requests
  unfolding new_shield
  Reach-IsWithin start = (0, λ i h. refl)
  Reach-IsWithin (later r st) = let (n, w) = Reach-IsWithin r in Step-IsWithin n st w

  -- A request that is not over has such a step, or waits for a fetch that has one.
  can_go_on :
      (outcome : A) (s : Shield A) (i : ℕ) (p : Phase A)
      → IsValid s
      → s.requests i ≡ p
      → 0 < weight p
      → (t : Shield A) × (st : Step s t) × IsAnswer st
  can_go_on outcome s i idle v e h = absurd (omega (arith, h))
  can_go_on outcome s i (returned r) v e h = absurd (omega (arith, h))
  can_go_on outcome s i (leads fetching c p) v e h =
      (finish i c p outcome s, finishes i c p outcome e, tt)
  can_go_on outcome s i (leads signalled c p) v e h =
      let (r, d) = v.done i c p e in (clear i c p r s, clears i c p r e d, tt)
  can_go_on outcome s i (waits c) v e h = elim (v.awaited i c e).1 [
    | inl (r, d) ↦ (deliver i r s, delivers i c r e d, tt)
    | inr (j, p, l) ↦ (finish j c p outcome s, finishes j c p outcome l, tt)
  ]

  -- The steps that the requests of a reached state have before them at most.
  unfoldable pub steps_left : {limit : ℤ} {s : Shield A} → Reach limit s → ℕ
  steps_left {limit} {s} reached = work (Reach-IsWithin reached).0 s.requests

  weight_cases : (p : Phase A) → (weight p ≡ 0) ⊎ (0 < weight p)
  weight_cases p = elim (Bool-cases (leb (weight p) 0)) [
    | inl y ↦ inl (ground arith)
    | inr n ↦ inr (ground arith)
  ]

  -- From a state that is reached, the steps but for arrivals are at most `steps_left`, a number that
  -- only the way to the state settles; and after any of them a request is over, or a fetch can end, with
  -- any outcome, or a result can be handed on.
  pub shield_ends :
      (limit : ℤ) (s t : Shield A) (reached : Reach limit s) (k : ℕ)
      → Moves s k t
      → (outcome : A) (i : ℕ)
      → (k ≤ steps_left reached)
        × ((weight (t.requests i) ≡ 0) ⊎ ((u : Shield A) × (st : Step t u) × IsAnswer st))
  unfolding steps_left
  shield_ends limit s t reached k ms outcome i =
      let (n, w) = Reach-IsWithin reached in
      (
        omega (arith, (Moves-work n w ms).1),
        elim (weight_cases (t.requests i)) [
          | inl e ↦ inl e
          | inr h ↦
              inr (
                can_go_on outcome t i (t.requests i) (Reach-IsValid (Moves-Reach reached ms)) refl
                  h)
        ],
      )
