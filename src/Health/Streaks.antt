-- ===== src/Health/Streaks.antt =====
-- One node under a sequence of probes: its health changes after a streak of equal outcomes, and
-- only then.
use mathlib.Core.Path.{subst}
use mathlib.Core.List.{append_assoc}
use edge_cdn.Base.{
  ℕ, zero, suc, ◌<◌, ◌≡◌, refl, sym, ap, ◌∙◌, ◌⊎◌, inl, inr, Bool, true, false, List, [], ◌∷◌, ◌++◌,
  arith, replicate,
}
use edge_cdn.Health.{Config, NodeHealth, Probe, update_node}

unfoldable pub probes : Config → List Probe → NodeHealth → NodeHealth
probes cfg [] n = n
probes cfg (p ∷ ps) n = probes cfg ps (update_node cfg p n).0

abbrev pub outcomes : List Probe → List Bool
outcomes [] = []
outcomes (p ∷ ps) = p.healthy ∷ outcomes ps

-- `k` equal outcomes stand in a row.
abbrev pub HasStreak : Bool → ℕ → List Bool → Type 0
HasStreak b k os = (xs ys : List Bool) × (os ≡ xs ++ (replicate k b ++ ys))

replicate_end :
    (b : Bool) (f : ℕ) (os : List Bool) → replicate f b ++ (b ∷ os) ≡ replicate (suc f) b ++ os
replicate_end b zero os = refl
replicate_end b (suc f) os = ap (◌∷◌ b) (replicate_end b f os)

HasStreak-behind :
    (b : Bool) (k : ℕ) (pre os : List Bool) → HasStreak b k os → HasStreak b k (pre ++ os)
HasStreak-behind b k pre os (xs, ys, e) =
    (pre ++ xs, ys, ap (◌++◌ pre) e ∙ sym (append_assoc pre xs (replicate k b ++ ys)))

step_up :
    (cfg : Config) (p : Probe) (n : NodeHealth)
    → n.is_healthy ≡ true
    → n.fail_count < cfg.fail_threshold
    → let n' = (update_node cfg p n).0 in
      ((p.healthy ≡ true) × (n'.is_healthy ≡ true) × (n'.fail_count ≡ 0))
      ⊎ ((p.healthy ≡ false)
          × (n'.is_healthy ≡ true)
          × (n'.fail_count ≡ suc n.fail_count)
          × (suc n.fail_count < cfg.fail_threshold))
      ⊎ ((p.healthy ≡ false) × (n'.is_healthy ≡ false) × (suc n.fail_count ≡ cfg.fail_threshold))
unfolding update_node
step_up cfg p n u h = ground arith

step_down :
    (cfg : Config) (p : Probe) (n : NodeHealth)
    → n.is_healthy ≡ false
    → n.success_count < cfg.success_threshold
    → let n' = (update_node cfg p n).0 in
      ((p.healthy ≡ false) × (n'.is_healthy ≡ false) × (n'.success_count ≡ 0))
      ⊎ ((p.healthy ≡ true)
          × (n'.is_healthy ≡ false)
          × (n'.success_count ≡ suc n.success_count)
          × (suc n.success_count < cfg.success_threshold))
      ⊎ ((p.healthy ≡ true)
          × (n'.is_healthy ≡ true)
          × (suc n.success_count ≡ cfg.success_threshold))
unfolding update_node
step_down cfg p n u h = ground arith

module _ (b : Bool) (k f : ℕ) (o : Bool) (os : List Bool) where
  broken :
      (f' : ℕ)
      → f' ≡ 0
      → HasStreak b k (replicate f' b ++ os)
      → HasStreak b k (replicate f b ++ (o ∷ os))
  broken f' z s = subst (HasStreak b k) (append_assoc (replicate f b) (o ∷ []) os) (
      HasStreak-behind b k (replicate f b ++ (o ∷ [])) os
        (subst (λ (m : ℕ). HasStreak b k (replicate m b ++ os)) z s))

  longer :
      o ≡ b
      → (f' : ℕ) → f' ≡ suc f
      → HasStreak b k (replicate f' b ++ os)
      → HasStreak b k (replicate f b ++ (o ∷ os))
  longer e f' e' s =
      subst (λ c. HasStreak b k (replicate f b ++ (c ∷ os))) (sym e)
        (subst (HasStreak b k) (sym (replicate_end b f os))
          (subst (λ (m : ℕ). HasStreak b k (replicate m b ++ os)) e' s))

  full : o ≡ b → suc f ≡ k → HasStreak b k (replicate f b ++ (o ∷ os))
  full e e' = longer e (suc f) refl ([], os, ap (λ (m : ℕ). replicate m b ++ os) e')

down_streak :
    (cfg : Config) (ps : List Probe) (n : NodeHealth)
    → n.is_healthy ≡ true
    → n.fail_count < cfg.fail_threshold
    → (probes cfg ps n).is_healthy ≡ false
    → HasStreak false cfg.fail_threshold (replicate n.fail_count false ++ outcomes ps)
unfolding probes
down_streak cfg [] n u h d = absurd (ground arith)
down_streak cfg (p ∷ ps) n u h d =
    let n' = (update_node cfg p n).0 in
    let k = cfg.fail_threshold in
    elim (step_up cfg p n u h) [
      | inl (o, u', z) ↦
          broken false k n.fail_count p.healthy (outcomes ps) n'.fail_count z
            (down_streak cfg ps n' u' (omega arith) d)
      | inr (inl (o, u', f, h')) ↦
          longer false k n.fail_count p.healthy (outcomes ps) o n'.fail_count f
            (down_streak cfg ps n' u' (omega arith) d)
      | inr (inr (o, d', f)) ↦ full false k n.fail_count p.healthy (outcomes ps) o f
    ]

up_streak :
    (cfg : Config) (ps : List Probe) (n : NodeHealth)
    → n.is_healthy ≡ false
    → n.success_count < cfg.success_threshold
    → (probes cfg ps n).is_healthy ≡ true
    → HasStreak true cfg.success_threshold (replicate n.success_count true ++ outcomes ps)
unfolding probes
up_streak cfg [] n u h d = absurd (ground arith)
up_streak cfg (p ∷ ps) n u h d =
    let n' = (update_node cfg p n).0 in
    let k = cfg.success_threshold in
    elim (step_down cfg p n u h) [
      | inl (o, u', z) ↦
          broken true k n.success_count p.healthy (outcomes ps) n'.success_count z
            (up_streak cfg ps n' u' (omega arith) d)
      | inr (inl (o, u', f, h')) ↦
          longer true k n.success_count p.healthy (outcomes ps) o n'.success_count f
            (up_streak cfg ps n' u' (omega arith) d)
      | inr (inr (o, d', f)) ↦ full true k n.success_count p.healthy (outcomes ps) o f
    ]

-- No flapping: with a positive threshold, a healthy node without counted failures is down after some
-- probes only if `fail_threshold` of them in a row failed.
pub down_needs_streak :
    (cfg : Config) (ps : List Probe) (n : NodeHealth)
    → 0 < cfg.fail_threshold
    → n.is_healthy ≡ true
    → n.fail_count ≡ 0
    → (probes cfg ps n).is_healthy ≡ false
    → HasStreak false cfg.fail_threshold (outcomes ps)
down_needs_streak cfg ps n hf u z d =
    subst (λ (m : ℕ). HasStreak false cfg.fail_threshold (replicate m false ++ outcomes ps)) z
      (down_streak cfg ps n u (omega arith) d)

-- With a positive threshold, an unhealthy node without counted successes is up after some probes only if
-- `success_threshold` of them in a row passed.
pub up_needs_streak :
    (cfg : Config) (ps : List Probe) (n : NodeHealth)
    → 0 < cfg.success_threshold
    → n.is_healthy ≡ false
    → n.success_count ≡ 0
    → (probes cfg ps n).is_healthy ≡ true
    → HasStreak true cfg.success_threshold (outcomes ps)
up_needs_streak cfg ps n hs u z d =
    subst (λ (m : ℕ). HasStreak true cfg.success_threshold (replicate m true ++ outcomes ps)) z
      (up_streak cfg ps n u (omega arith) d)
