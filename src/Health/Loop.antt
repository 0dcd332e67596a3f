-- ===== src/Health/Loop.antt =====
-- internal/health/health.go, `Start` and `Stop`, and with them those of internal/gateway/gateway.go, which
-- only call them: the goroutines that sweep, the contexts that end them, and the channel `done`. A
-- context and the goroutine that `Start` makes with it have one number. A sweep is one step; after its
-- context is cancelled it probes nothing. What a sweep does to the nodes is `check_all`.
use edge_cdn.Base.{
  ℕ, suc, ◌+◌, ◌≡◌, ◌≢◌, refl, ◌⊎◌, inl, inr, Bool, true, false, Option, none, some, ite, arith,
  ℕ_discrete,
}

-- A call of `Stop`: not made, waiting for `done`, or over.
pub data Call : Type 0 where
  uncalled waiting over : Call

-- `cancel` is the number of the context that `c.cancel` ends, `none` for nil; `closed` says whether `done`
-- is closed, and `panicked` whether it was closed twice.
pub record Loops : Type 0 where
  pub cancel : Option ℕ
  pub cancelled : ℕ → Bool
  pub running : ℕ → Bool
  pub next : ℕ
  pub closed : Bool
  pub panicked : Bool
  pub stops : ℕ → Call
  pub sweeps : ℕ

abbrev pub put {ℓ} : {B : Type ℓ} → (ℕ → B) → ℕ → B → ℕ → B
put f i b j = ite (ℕ_discrete i j) b (f j)

unfoldable pub no_loops : Loops
no_loops = record {
  cancel = none;
  cancelled = λ i. false;
  running = λ i. false;
  next = 0;
  closed = false;
  panicked = false;
  stops = λ j. uncalled;
  sweeps = 0;
}

unfoldable pub start : Loops → Loops
start s = record s { cancel = some s.next; running = put s.running s.next true; next = s.next + 1 }

unfoldable pub sweep : Loops → Loops
sweep s = record s { sweeps = s.sweeps + 1 }

-- The goroutine returns, and its deferred call closes `done`.
unfoldable pub leave : ℕ → Loops → Loops
leave i s = record s { running = put s.running i false; closed = true; panicked = s.closed }

-- `Stop` up to its wait for `done`.
unfoldable pub stop : ℕ → Loops → Loops
stop j s = elim s.cancel [
  | none ↦ record s { stops = put s.stops j over }
  | some i ↦ record s { cancelled = put s.cancelled i true; stops = put s.stops j waiting }
]

unfoldable pub resume : ℕ → Loops → Loops
resume j s = record s { stops = put s.stops j over }

-- What happens but for calls of `Start`; nothing does after a panic, which ends the program.
pub data Move (s : Loops) : Loops → Type 0 where
  sweeps :
      (i : ℕ) → s.panicked ≡ false → s.running i ≡ true → s.cancelled i ≡ false → Move s (sweep s)
  leaves :
      (i : ℕ) → s.panicked ≡ false → s.running i ≡ true → s.cancelled i ≡ true → Move s (leave i s)
  stops : (j : ℕ) → s.panicked ≡ false → s.stops j ≡ uncalled → Move s (stop j s)
  resumes :
      (j : ℕ) → s.panicked ≡ false → s.stops j ≡ waiting → s.closed ≡ true → Move s (resume j s)

pub data Moves (s : Loops) : Loops → Type 0 where
  here : Moves s s
  then_ : {t u : Loops} → Moves s t → Move t u → Moves s u

-- The states that a number of calls of `Start` reach.
pub data Reach : ℕ → Loops → Type 0 where
  first : Reach 0 no_loops
  started : {n : ℕ} {s : Loops} → Reach n s → s.panicked ≡ false → Reach (suc n) (start s)
  moved : {n : ℕ} {s t : Loops} → Reach n s → Move s t → Reach n t

-- Before the first call of `Start`.
record IsNew (s : Loops) : Type 0 where
  no_cancel : s.cancel ≡ none
  none_runs : (i : ℕ) → s.running i ≡ false
  none_cancelled : (i : ℕ) → s.cancelled i ≡ false
  no_next : s.next ≡ 0
  is_open : s.closed ≡ false
  calm : s.panicked ≡ false
  none_waits : (j : ℕ) → s.stops j ≢ waiting

-- After it: the goroutine 0 runs until `done` is closed, and a call of `Stop` waits once the context is
-- cancelled.
record IsOnce (s : Loops) : Type 0 where
  its_cancel : s.cancel ≡ some 0
  others : (i : ℕ) → i ≢ 0 → (s.running i ≡ false) × (s.cancelled i ≡ false)
  its_next : s.next ≡ 1
  runs_open : (s.running 0 ≡ true) × (s.closed ≡ false) ⊎ (s.running 0 ≡ false) × (s.closed ≡ true)
  calm : s.panicked ≡ false
  waits_cancelled : (j : ℕ) → s.stops j ≡ waiting → s.cancelled 0 ≡ true
  closed_cancelled : s.closed ≡ true → s.cancelled 0 ≡ true

no_loops-IsNew : IsNew no_loops
unfolding no_loops
no_loops-IsNew = ground arith

start-IsOnce : (s : Loops) → IsNew s → IsOnce (start s)
unfolding start
start-IsOnce s v = record {
  its_cancel = ground (arith, v.no_next);
  others = λ i ne. ground (arith, v.no_next, v.none_runs i, v.none_cancelled i);
  its_next = ground (arith, v.no_next);
  runs_open = ground (arith, v.no_next, v.is_open);
  calm = v.calm;
  waits_cancelled = λ j w. absurd (v.none_waits j w);
  closed_cancelled = λ e. ground (arith, e, v.is_open);
}

Move-IsNew : {s t : Loops} → IsNew s → Move s t → IsNew t
unfolding sweep leave stop resume
Move-IsNew {s} v (sweeps i p r c) = absurd (ground (arith, r, v.none_runs i))
Move-IsNew {s} v (leaves i p r c) = absurd (ground (arith, r, v.none_runs i))
Move-IsNew {s} v (stops j p u) =
    rw (stop, v.no_cancel)
      (record {
        no_cancel = v.no_cancel;
        none_runs = v.none_runs;
        none_cancelled = v.none_cancelled;
        no_next = v.no_next;
        is_open = v.is_open;
        calm = v.calm;
        none_waits = λ k. ground (arith, v.none_waits k);
      })
Move-IsNew {s} v (resumes j p w c) = absurd (v.none_waits j w)

Move-IsOnce : {s t : Loops} → IsOnce s → Move s t → IsOnce t
unfolding sweep leave stop resume
Move-IsOnce {s} v (sweeps i p r c) = record {
  its_cancel = v.its_cancel;
  others = v.others;
  its_next = v.its_next;
  runs_open = v.runs_open;
  calm = v.calm;
  waits_cancelled = v.waits_cancelled;
  closed_cancelled = v.closed_cancelled;
}
Move-IsOnce {s} v (leaves i p r c) =
    let at : i ≡ 0 = elim (ℕ_discrete i 0) [
      | yes e ↦ e
      | no ne ↦ absurd (ground (arith, r, (v.others i ne).0))
    ] in
    record {
      its_cancel = v.its_cancel;
      others = λ k ne. ground (arith, at, ne, v.others k);
      its_next = v.its_next;
      runs_open = ground (arith, at);
      calm = ground (arith, at, r, v.runs_open);
      waits_cancelled = v.waits_cancelled;
      closed_cancelled = λ e. ground (arith, at, c);
    }
Move-IsOnce {s} v (stops j p u) =
    rw (stop, v.its_cancel)
      (record {
        its_cancel = v.its_cancel;
        others = λ k ne. ground (arith, ne, v.others k);
        its_next = v.its_next;
        runs_open = v.runs_open;
        calm = v.calm;
        waits_cancelled = λ k w. ground arith;
        closed_cancelled = λ e. ground arith;
      })
Move-IsOnce {s} v (resumes j p w c) = record {
  its_cancel = v.its_cancel;
  others = v.others;
  its_next = v.its_next;
  runs_open = v.runs_open;
  calm = v.calm;
  waits_cancelled = λ k. ground (arith, v.waits_cancelled k);
  closed_cancelled = v.closed_cancelled;
}

Reach-IsNew : {s : Loops} → Reach 0 s → IsNew s
Reach-IsNew first = no_loops-IsNew
Reach-IsNew (moved r m) = Move-IsNew (Reach-IsNew r) m

Reach-IsOnce : {s : Loops} → Reach 1 s → IsOnce s
Reach-IsOnce (started {s = s} r p) = start-IsOnce s (Reach-IsNew r)
Reach-IsOnce (moved r m) = Move-IsOnce (Reach-IsOnce r) m

-- After one call of `Start`, a call of `Stop` that waits can be let go, by the end of the goroutine if
-- need be, without a panic, and then no goroutine sweeps.
pub stop_returns :
    (s : Loops) (j : ℕ)
    → Reach 1 s
    → s.stops j ≡ waiting
    → (t : Loops) × Moves s t
      × (t.stops j ≡ over)
      × (t.panicked ≡ false)
      × ((i : ℕ) → t.running i ≡ false)
unfolding leave resume
stop_returns s j reached w =
    let v = Reach-IsOnce reached in
    elim v.runs_open [
      | inl (r, o) ↦
          let out = leaves 0 v.calm r (v.waits_cancelled j w) in
          (
            resume j (leave 0 s),
            then_ (then_ here out) (resumes j o w refl),
            ground arith,
            o,
            λ i. elim (ℕ_discrete i 0) [
              | yes e ↦ ground (arith, e)
              | no ne ↦ ground (arith, ne, v.others i ne)
            ],
          )
      | inr (r, c) ↦ (
        resume j s,
        then_ here (resumes j v.calm w c),
        ground arith,
        v.calm,
        λ i. elim (ℕ_discrete i 0) [
          | yes e ↦ ground (arith, e, r)
          | no ne ↦ ground (arith, ne, v.others i ne)
        ],
      )
    ]

-- A checker that was started, stopped and started again panics, closing `done` twice, once it is stopped
-- again and its goroutine returns.
pub restart_panics :
    (s : Loops) (j : ℕ)
    → Reach 1 s
    → s.closed ≡ true
    → s.stops j ≡ uncalled
    → (t : Loops) × Moves (start s) t × (t.panicked ≡ true)
unfolding start stop leave
restart_panics s j reached c u =
    let v = Reach-IsOnce reached in
    (
      leave s.next (stop j (start s)),
      then_ (then_ here (stops j v.calm u)) (leaves s.next v.calm (ground arith) (ground arith)),
      c,
    )
