-- ===== src/Shield.antt =====
-- internal/shield/shield.go: request coalescing. A `Fetch` is a request, by its number, that goes
-- through phases; each step is what the code does between two waits, so that requests interleave in
-- any way. A pointer to a `call` is its number. `A` is the type of what a fetch comes to, a response or
-- an error. The paths are the keys.
pub mod Steps
pub mod Invariant
pub mod Reached
pub mod Waiters
pub mod Totals
pub mod Progress
pub mod Agreement
pub mod Cancelled
pub mod Keys
pub mod Counters
pub mod Peak
use edge_cdn.Base.{
  ℕ, zero, suc, ◌+◌, ◌-◌, ◌≡◌, Bool, true, false, Option, none, some, List, [], ◌∷◌, ltb, leb,
  if◌then◌else◌, ite, length, ℕ_discrete,
}
use edge_cdn.Base.Text.{Str, str_dec}
use edge_cdn.Base.Int.{ℤ, pos, positive_or}
use edge_cdn.Base.Maps.{lookup, insert, delete}

pub record Config : Type 0 where
  pub fetch_timeout : ℤ
  pub max_waiters_per_key : ℤ

-- `DefaultConfig`; the times are nanoseconds.
unfoldable pub default_config : Config
default_config = record { fetch_timeout = pos 10_000_000_000; max_waiters_per_key = pos 1000 }

-- The timeout that `New` leaves.
unfoldable pub timeout_of : Config → ℕ
timeout_of cfg = positive_or 10_000_000_000 cfg.fetch_timeout

-- `call`: what the fetch came to, once its wait group is done, and how many requests joined it.
pub record Call (A : Type 0) : Type 0 where
  pub result : Option A
  pub shared : ℕ

-- A leader before and after it signals the waiters.
pub data Stage : Type 0 where
  fetching signalled : Stage

-- What `Fetch` returns.
pub data Reply (A : Type 0) : Type 0 where
  own : A → Reply A
  coalesced : A → Reply A
  context_done : Reply A
  too_many_waiters : Reply A

-- A request: not yet made; the leader of a call for a path; a waiter on a call; or returned.
pub data Phase (A : Type 0) : Type 0 where
  idle : Phase A
  leads : Stage → ℕ → Str → Phase A
  waits : ℕ → Phase A
  returned : Reply A → Phase A

-- `calls` are the calls by their numbers, and `next` is the number of the next one. The last three
-- fields are the gauge and the counters; `fetch_total` has an entry for each increment of the counter, the
-- reply that it is made for. `peakInFlight`, which is not under the lock, is in Shield/Peak.
pub record Shield (A : Type 0) : Type 0 where
  pub max_waiters : ℕ
  pub inflight : List (Str × ℕ)
  pub calls : ℕ → Call A
  pub next : ℕ
  pub requests : ℕ → Phase A
  pub inflight_gauge : ℕ
  pub coalesced_total : ℕ
  pub fetch_total : List (Reply A)

abbrev pub update {ℓ} : {B : Type ℓ} → (ℕ → B) → ℕ → B → ℕ → B
update f i b j = ite (ℕ_discrete i j) b (f j)

abbrev pub no_call : {A : Type 0} → Call A
no_call = record { result = none; shared = 0 }

module _ {A : Type 0} where
  unfoldable pub new_shield : ℤ → Shield A
  new_shield max_waiters_per_key = record {
    max_waiters = positive_or 1000 max_waiters_per_key;
    inflight = [];
    calls = λ c. no_call;
    next = 0;
    requests = λ i. idle;
    inflight_gauge = 0;
    coalesced_total = 0;
    fetch_total = [];
  }

  -- `Fetch` where the path has a call in flight.
  unfoldable pub join : ℕ → ℕ → Shield A → Shield A
  join i c s =
      if leb s.max_waiters (s.calls c).shared
      then record s {
        requests = update s.requests i (returned too_many_waiters);
        fetch_total = too_many_waiters ∷ s.fetch_total;
      }
      else record s {
        requests = update s.requests i (waits c);
        calls = update s.calls c (record (s.calls c) { shared = (s.calls c).shared + 1 });
      }

  -- `Fetch` where it has none: the request leads.
  unfoldable pub lead : ℕ → Str → Shield A → Shield A
  lead i path s =
      let inflight = insert str_dec path s.next s.inflight in
      record s {
        inflight = inflight;
        calls = update s.calls s.next no_call;
        next = s.next + 1;
        requests = update s.requests i (leads fetching s.next path);
        inflight_gauge = s.inflight_gauge + 1;
      }

  -- `Fetch` up to its wait.
  unfoldable pub arrive : ℕ → Str → Shield A → Shield A
  arrive i path s = elim (lookup str_dec path s.inflight) [
    | some c ↦ join i c s
    | none ↦ lead i path s
  ]

  -- The leader's fetch is over, by its result or by its context, and the waiters are signalled.
  unfoldable pub finish : ℕ → ℕ → Str → A → Shield A → Shield A
  finish i c path r s = record s {
    calls = update s.calls c (record (s.calls c) { result = some r });
    requests = update s.requests i (leads signalled c path);
  }

  -- The leader takes the call out of the map and returns.
  unfoldable pub clear : ℕ → ℕ → Str → A → Shield A → Shield A
  clear i c path r s = record s {
    inflight = delete str_dec path s.inflight;
    inflight_gauge = s.inflight_gauge - 1;
    requests = update s.requests i (returned (own r));
    fetch_total = own r ∷ s.fetch_total;
  }

  -- A waiter gets the call's result, or its context is done first.
  unfoldable pub deliver : ℕ → A → Shield A → Shield A
  deliver i r s = record s {
    requests = update s.requests i (returned (coalesced r));
    coalesced_total = s.coalesced_total + 1;
    fetch_total = coalesced r ∷ s.fetch_total;
  }

  unfoldable pub cancel : ℕ → Shield A → Shield A
  cancel i s = record s {
    requests = update s.requests i (returned context_done);
    fetch_total = context_done ∷ s.fetch_total;
  }

  unfoldable pub in_flight_count : Shield A → ℕ
  in_flight_count s = length s.inflight
