-- ===== src/Warming/Loop.antt =====
-- internal/warming/warming.go, `Start` and `Stop` with their goroutines. A cycle is one step that leaves the
-- two flags as they are; it may also happen after `stopCh` was closed, since `select` takes either of
-- two channels that are ready. `Start` and `Stop` are called one after the other.
use edge_cdn.Base.{
  ℕ, ◌+◌, ◌-◌, ◌⊎◌, ◌≤◌, ◌<◌, ◌≡◌, true, false, if◌then◌else◌, arith, Bool-cases, inl, inr,
}
use edge_cdn.Base.Int.{ℤ}
use edge_cdn.Warming.{Warmer, new_warmer, start, stop}

-- A warmer and the number of its goroutines.
pub record Loops : Type 0 where
  pub warmer : Warmer
  pub running : ℕ

unfoldable pub launch : Loops → Loops
launch s =
    if s.warmer.is_running then s else record { warmer = start s.warmer; running = s.running + 1 }

unfoldable pub halt : Loops → Loops
halt s = record s { warmer = stop s.warmer }

-- A goroutine returns.
unfoldable pub leave : Loops → Loops
leave s = record s { running = s.running - 1 }

pub data Step (s : Loops) : Loops → Type 0 where
  launches : Step s (launch s)
  halts : Step s (halt s)
  cycles :
      (w : Warmer)
      → 0 < s.running
      → w.is_running ≡ s.warmer.is_running
      → w.stopped ≡ s.warmer.stopped
      → Step s (record s { warmer = w })
  leaves : s.warmer.stopped ≡ true → 0 < s.running → Step s (leave s)

pub data Steps (s : Loops) : Loops → Type 0 where
  here : Steps s s
  then_ : {t u : Loops} → Steps s t → Step t u → Steps s u

-- Until `Stop`, one goroutine runs if the flag says so, and afterwards there is at most one more.
abbrev IsSound : Loops → Type 0
IsSound s =
    (s.warmer.stopped ≡ false → s.running ≡ (if s.warmer.is_running then 1 else 0))
    × (s.running ≤ (if s.warmer.is_running then 2 else 1))

Step-IsSound : {s t : Loops} → Step s t → IsSound s → IsSound t
unfolding launch halt leave start stop
Step-IsSound {s} launches v = ground (arith, v)
Step-IsSound {s} halts v = ground (arith, v)
Step-IsSound {s} (cycles w h e e') v = ground (arith, v, e, e')
Step-IsSound {s} (leaves e h) v = ground (arith, v, e)

Steps-IsSound : {s t : Loops} → Steps s t → IsSound s → IsSound t
Steps-IsSound here v = v
Steps-IsSound (then_ ss st) v = Step-IsSound st (Steps-IsSound ss v)

unfoldable pub fresh : ℤ → ℤ → ℤ → Loops
fresh paths threshold window = record { warmer = new_warmer paths threshold window; running = 0 }

-- After any calls of `Start` and `Stop` and any cycles of a warmer made by `New`, at most one goroutine
-- runs until `Stop` is called, just when the warmer says that it is running, and at most two run
-- afterwards.
pub few_loops :
    (paths threshold window : ℤ) (s : Loops)
    → Steps (fresh paths threshold window) s
    → (s.warmer.stopped ≡ false) × (s.running ≡ (if s.warmer.is_running then 1 else 0))
      ⊎ (s.warmer.stopped ≡ true) × (s.running ≤ 2)
unfolding fresh new_warmer
few_loops paths threshold window s ss =
    let v = Steps-IsSound ss (ground arith) in
    elim (Bool-cases s.warmer.stopped) [
      | inl y ↦ inr (y, ground (arith, v))
      | inr n ↦ inl (n, v.0 n)
    ]

abbrev IsDead : Loops → Type 0
IsDead s = (s.warmer.is_running ≡ true) × (s.warmer.stopped ≡ true) × (s.running ≡ 0)

Step-IsDead : {s t : Loops} → Step s t → IsDead s → IsDead t
unfolding launch halt leave start stop
Step-IsDead {s} launches v = ground (arith, v)
Step-IsDead {s} halts v = ground (arith, v)
Step-IsDead {s} (cycles w h e e') v = absurd (ground (arith, v, h))
Step-IsDead {s} (leaves e h) v = absurd (ground (arith, v, h))

Steps-IsDead : {s t : Loops} → Steps s t → IsDead s → IsDead t
Steps-IsDead here d = d
Steps-IsDead (then_ ss st) d = Step-IsDead st (Steps-IsDead ss d)

-- When a warmer that was stopped, and whose goroutine returned, is started again, the new goroutine can
-- return at once; from then on no goroutine runs, and the warmer says for ever that it is running,
-- whatever calls of `Start` and `Stop` follow.
pub restart_is_dead :
    (s t : Loops)
    → s.warmer.stopped ≡ true
    → s.warmer.is_running ≡ false
    → s.running ≡ 0
    → Steps (leave (launch s)) t
    → Step (launch s) (leave (launch s)) × (t.warmer.is_running ≡ true) × (t.running ≡ 0)
unfolding launch leave start
restart_is_dead s t stopped idle none_runs ss =
    let (says, _, none_) = Steps-IsDead ss (ground (arith, stopped, idle, none_runs)) in
    (leaves (ground (arith, stopped, idle)) (ground (arith, idle)), says, none_)
