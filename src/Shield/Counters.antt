-- ===== src/Shield/Counters.antt =====
-- internal/shield/shield.go: the gauge and the counters.
use edge_cdn.Base.{
  ℕ, zero, suc, ◌+◌, ◌≤◌, ◌<◌, ◌≡◌, ◌≢◌, refl, ◌∙◌, sym, ap, inl, inr, Bool, true, false, none,
  some, List, [], ◌∷◌, length, if◌then◌else◌, leb, arith, Bool-cases, Option-cases,
}
use edge_cdn.Base.Text.{Str, str_dec, codes}
use edge_cdn.Base.Int.{ℤ}
use edge_cdn.Base.Maps.{lookup}
use edge_cdn.Shield.{
  fetching, signalled, Reply, own, coalesced, context_done, too_many_waiters, Phase, idle, leads,
  waits, returned, Shield, update, new_shield, join, lead, arrive, finish, clear, deliver, cancel,
  in_flight_count,
}
use edge_cdn.Shield.Steps.{
  Step, arrives, finishes, clears, delivers, cancels, Reach, start, later, IsValid,
}
use edge_cdn.Shield.Totals.{total, total-update}
use edge_cdn.Shield.Keys.{IsMap, insert-IsMap, delete-IsMap, length-insert, length-delete}
use edge_cdn.Shield.Reached.{Reach-IsValid}

-- The label of `shield_fetch_total` that a reply is counted under.
unfoldable pub fetch_type : {A : Type 0} → (A → Bool) → Reply A → Str
fetch_type is_error (own r) = if is_error r then codes "error" else codes "success"
fetch_type is_error (coalesced r) = codes "coalesced"
fetch_type is_error context_done = codes "context_cancelled"
fetch_type is_error too_many_waiters = codes "rejected"

module _ {A : Type 0} where
  -- How many entries pass a test.
  unfoldable pub count_replies : (Reply A → Bool) → List (Reply A) → ℕ
  count_replies t [] = 0
  count_replies t (r ∷ rs) = (if t r then 1 else 0) + count_replies t rs

  abbrev pub tally : (Reply A → Bool) → Phase A → ℕ
  tally t (returned r) = if t r then 1 else 0
  tally t idle = 0
  tally t (leads st c p) = 0
  tally t (waits c) = 0

  unfoldable pub is_coalesced : Reply A → Bool
  is_coalesced (own r) = false
  is_coalesced (coalesced r) = true
  is_coalesced context_done = false
  is_coalesced too_many_waiters = false

  record IsCounted (t : Reply A → Bool) (n : ℕ) (s : Shield A) : Type 0 where
    keys : IsMap s.inflight
    gauge : s.inflight_gauge ≡ length s.inflight
    shared : s.coalesced_total ≡ count_replies is_coalesced s.fetch_total
    once : count_replies t s.fetch_total ≡ total (tally t) n s.requests

  -- A request returns.
  returns :
      (t : Reply A → Bool) (n i : ℕ) (r : Reply A) (rs : ℕ → Phase A)
      → i < n
      → tally t (rs i) ≡ 0
      → total (tally t) n (update rs i (returned r)) ≡ (if t r then 1 else 0) + total (tally t) n rs
  returns t n i r rs lt z = omega (arith, total-update (tally t) n i rs (returned r) lt, z)

  -- A request goes on.
  goes_on :
      (t : Reply A → Bool) (n i : ℕ) (p : Phase A) (rs : ℕ → Phase A)
      → i < n
      → tally t (rs i) ≡ 0
      → tally t p ≡ 0
      → total (tally t) n (update rs i p) ≡ total (tally t) n rs
  goes_on t n i p rs lt z z' = omega (arith, total-update (tally t) n i rs p lt, z, z')

  module _ (t : Reply A → Bool) (n i : ℕ) (s : Shield A) (lt : i < n) (v : IsCounted t n s) where
    join-IsCounted : (c : ℕ) → s.requests i ≡ idle → IsCounted t n (join i c s)
    unfolding join count_replies is_coalesced
    join-IsCounted c e = ground (
      arith,
      v.keys,
      v.gauge,
      v.shared,
      v.once,
      returns t n i too_many_waiters s.requests lt (rw e refl),
      goes_on t n i (waits c) s.requests lt (rw e refl) refl,
    )

    lead-IsCounted :
        (path : Str)
        → s.requests i ≡ idle
        → lookup str_dec path s.inflight ≡ none
        → IsCounted t n (lead i path s)
    unfolding lead
    lead-IsCounted path e free = record {
      keys = insert-IsMap path s.next s.inflight v.keys;
      gauge = omega (arith, v.gauge, length-insert path s.next s.inflight free);
      shared = v.shared;
      once =
          v.once ∙ sym (goes_on t n i (leads fetching s.next path) s.requests lt (rw e refl) refl);
    }

    arrive-IsCounted : (path : Str) → s.requests i ≡ idle → IsCounted t n (arrive i path s)
    unfolding arrive
    arrive-IsCounted path e = elim (Option-cases (lookup str_dec path s.inflight)) [
      | inl free ↦ rw (arrive, free) (lead-IsCounted path e free)
      | inr (c, taken) ↦ rw (arrive, taken) (join-IsCounted c e)
    ]

    finish-IsCounted :
        (c : ℕ) (path : Str) (r : A)
        → s.requests i ≡ leads fetching c path
        → IsCounted t n (finish i c path r s)
    unfolding finish
    finish-IsCounted c path r e = record {
      keys = v.keys;
      gauge = v.gauge;
      shared = v.shared;
      once = v.once ∙ sym (goes_on t n i (leads signalled c path) s.requests lt (rw e refl) refl);
    }

    clear-IsCounted :
        (c : ℕ) (path : Str) (r : A)
        → s.requests i ≡ leads signalled c path
        → lookup str_dec path s.inflight ≡ some c
        → IsCounted t n (clear i c path r s)
    unfolding clear count_replies is_coalesced
    clear-IsCounted c path r e mapped = record {
      keys = delete-IsMap path s.inflight v.keys;
      gauge = omega (arith, v.gauge, length-delete path c s.inflight v.keys mapped);
      shared = omega (arith, v.shared);
      once = omega (arith, v.once, returns t n i (own r) s.requests lt (rw e refl));
    }

    deliver-IsCounted : (c : ℕ) (r : A) → s.requests i ≡ waits c → IsCounted t n (deliver i r s)
    unfolding deliver count_replies is_coalesced
    deliver-IsCounted c r e = record {
      keys = v.keys;
      gauge = v.gauge;
      shared = omega (arith, v.shared);
      once = omega (arith, v.once, returns t n i (coalesced r) s.requests lt (rw e refl));
    }

    cancel-IsCounted : (c : ℕ) → s.requests i ≡ waits c → IsCounted t n (cancel i s)
    unfolding cancel count_replies is_coalesced
    cancel-IsCounted c e = record {
      keys = v.keys;
      gauge = v.gauge;
      shared = omega (arith, v.shared);
      once = omega (arith, v.once, returns t n i context_done s.requests lt (rw e refl));
    }

  -- No request from a number on was made.
  abbrev pub AreIdle : ℕ → (ℕ → Phase A) → Type 0
  AreIdle n rs = (j : ℕ) → n ≤ j → rs j ≡ idle

  before :
      (n i : ℕ) (rs : ℕ → Phase A) (p : Phase A)
      → p ≢ idle
      → AreIdle n (update rs i p)
      → (i < n) × AreIdle n rs
  before n i rs p ne a =
      let lt : i < n = elim (Bool-cases (leb n i)) [
        | inl y ↦ absurd (ground (arith, ne, a i))
        | inr y ↦ ground arith
      ] in
      (lt, λ j h. ground (arith, a j, lt))

  arrived :
      (i : ℕ) (path : Str) (s : Shield A)
      → (p : Phase A) × (p ≢ idle) × ((arrive i path s).requests ≡ update s.requests i p)
  unfolding join lead arrive
  arrived i path s = elim (Option-cases (lookup str_dec path s.inflight)) [
    | inl free ↦ (leads fetching s.next path, (λ e. cc), rw (arrive, free) refl)
    | inr (c, taken) ↦ elim (Bool-cases (leb s.max_waiters (s.calls c).shared)) [
      | inl y ↦ (returned too_many_waiters, (λ e. cc), rw (arrive, taken) (rw y refl))
      | inr y ↦ (waits c, (λ e. cc), rw (arrive, taken) (rw y refl))
    ]
  ]

  Step-IsCounted :
      (t : Reply A → Bool) (n : ℕ) {s u : Shield A}
      → IsValid s
      → Step s u
      → AreIdle n u.requests
      → AreIdle n s.requests × (IsCounted t n s → IsCounted t n u)
  unfolding finish clear deliver cancel
  Step-IsCounted t n {s} iv (arrives i path e) a =
      let (p, ne, eq) = arrived i path s in
      let (lt, a') = before n i s.requests p ne (λ j h. ap (λ rs. rs j) (sym eq) ∙ a j h) in
      (a', λ v. arrive-IsCounted t n i s lt v path e)
  Step-IsCounted t n {s} iv (finishes i c path r e) a =
      let (lt, a') = before n i s.requests (leads signalled c path) (λ x. cc) a in
      (a', λ v. finish-IsCounted t n i s lt v c path r e)
  Step-IsCounted t n {s} iv (clears i c path r e d) a =
      let (lt, a') = before n i s.requests (returned (own r)) (λ x. cc) a in
      (a', λ v. clear-IsCounted t n i s lt v c path r e (iv.mapped i c signalled path e).0)
  Step-IsCounted t n {s} iv (delivers i c r e d) a =
      let (lt, a') = before n i s.requests (returned (coalesced r)) (λ x. cc) a in
      (a', λ v. deliver-IsCounted t n i s lt v c r e)
  Step-IsCounted t n {s} iv (cancels i c e) a =
      let (lt, a') = before n i s.requests (returned context_done) (λ x. cc) a in
      (a', λ v. cancel-IsCounted t n i s lt v c e)

  total_idle : (t : Reply A → Bool) (n : ℕ) → total (tally t) n (λ i. idle) ≡ 0
  unfolding total
  total_idle t zero = refl
  total_idle t (suc n) = omega (arith, total_idle t n)

  Reach-IsCounted :
      (t : Reply A → Bool) (n : ℕ) {limit : ℤ} {s : Shield A}
      → Reach limit s
      → AreIdle n s.requests
      → IsCounted t n s
  unfolding new_shield count_replies
  Reach-IsCounted t n start a = record {
    keys = tt;
    gauge = refl;
    shared = refl;
    once = sym (total_idle t n);
  }
  Reach-IsCounted t n (later r st) a =
      let (a', on) = Step-IsCounted t n (Reach-IsValid r) st a in on (Reach-IsCounted t n r a')

  -- In every state that is reached, the gauge is the number of calls in flight, and for any test of
  -- replies, such as a label, the counter of the fetches has as many entries that pass it as requests
  -- returned with a reply that does; so has the counter of the coalesced ones.
  pub counted_once :
      (limit : ℤ) (s : Shield A) (t : Reply A → Bool) (n : ℕ)
      → Reach limit s
      → AreIdle n s.requests
      → (s.inflight_gauge ≡ in_flight_count s)
        × (count_replies t s.fetch_total ≡ total (tally t) n s.requests)
        × (s.coalesced_total ≡ total (tally is_coalesced) n s.requests)
  unfolding in_flight_count
  counted_once limit s t n reached a =
      let v = Reach-IsCounted t n reached a in
      let w = Reach-IsCounted is_coalesced n reached a in (v.gauge, v.once, w.shared ∙ w.once)
