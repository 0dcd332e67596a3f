-- ===== src/Shield/Steps.antt =====
-- The steps of the shield, the states that they reach, and what such a state keeps.
use edge_cdn.Base.{ℕ, ◌≤◌, ◌<◌, ◌≡◌, ◌⊎◌, some, List}
use edge_cdn.Base.Text.{Str, str_dec}
use edge_cdn.Base.Int.{ℤ}
use edge_cdn.Base.Maps.{lookup}
use edge_cdn.Shield.{
  Call, Stage, fetching, signalled, Phase, idle, leads, waits, Shield, new_shield, arrive, finish,
  clear, deliver, cancel,
}

module _ {A : Type 0} where
  pub data Step (s : Shield A) : Shield A → Type 0 where
    arrives : (i : ℕ) (path : Str) → s.requests i ≡ idle → Step s (arrive i path s)
    finishes :
        (i c : ℕ) (path : Str) (r : A)
        → s.requests i ≡ leads fetching c path
        → Step s (finish i c path r s)
    clears :
        (i c : ℕ) (path : Str) (r : A)
        → s.requests i ≡ leads signalled c path
        → (s.calls c).result ≡ some r
        → Step s (clear i c path r s)
    delivers :
        (i c : ℕ) (r : A)
        → s.requests i ≡ waits c
        → (s.calls c).result ≡ some r
        → Step s (deliver i r s)
    cancels : (i c : ℕ) → s.requests i ≡ waits c → Step s (cancel i s)

  pub data Reach (limit : ℤ) : Shield A → Type 0 where
    start : Reach limit (new_shield limit)
    later : {s t : Shield A} → Reach limit s → Step s t → Reach limit t

  -- Some steps, one after the other.
  pub data Runs (s : Shield A) : Shield A → Type 0 where
    here : Runs s s
    then_ : {t u : Shield A} → Runs s t → Step t u → Runs s u

-- What the map, the calls and the requests say of each other.
module _ {A : Type 0} where
  abbrev pub HasLeader : (ℕ → Phase A) → ℕ → Str → Type 0
  HasLeader rs c p = (j : ℕ) × (st : Stage) × (rs j ≡ leads st c p)

  abbrev pub IsDone : (ℕ → Call A) → ℕ → Type 0
  IsDone calls c = (r : A) × ((calls c).result ≡ some r)

  abbrev pub IsFetched : (ℕ → Phase A) → ℕ → Type 0
  IsFetched rs c = (j : ℕ) × (p : Str) × (rs j ≡ leads fetching c p)

  -- The map and the leaders agree, a path has one leader, and no waiter is left behind.
  pub record Inv (limit : ℕ) (m : List (Str × ℕ)) (calls : ℕ → Call A) (next : ℕ) (rs : ℕ → Phase A)
      : Type 0 where
    pub led : (p : Str) (c : ℕ) → lookup str_dec p m ≡ some c → HasLeader rs c p
    pub mapped :
        (i c : ℕ) (st : Stage) (p : Str)
        → rs i ≡ leads st c p
        → (lookup str_dec p m ≡ some c) × (c < next)
    pub one :
        (i j c d : ℕ) (st st' : Stage) (p : Str)
        → rs i ≡ leads st c p
        → rs j ≡ leads st' d p
        → i ≡ j
    pub done : (i c : ℕ) (p : Str) → rs i ≡ leads signalled c p → IsDone calls c
    pub awaited : (i c : ℕ) → rs i ≡ waits c → (c < next) × (IsDone calls c ⊎ IsFetched rs c)
    pub bounded : (c : ℕ) → (calls c).shared ≤ limit

  abbrev pub IsValid : Shield A → Type 0
  IsValid s = Inv s.max_waiters s.inflight s.calls s.next s.requests
