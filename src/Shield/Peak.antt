-- ===== src/Shield/Peak.antt =====
-- internal/shield/shield.go, `peakInFlight`. A leader reads the size of the map after it released the lock,
-- loads the peak, and stores its own size if that is larger: three steps, which those of other requests
-- may come between. The fetch of a leader comes after them.
use edge_cdn.Base.{
  ℕ, ◌≤◌, ◌≡◌, ◌≢◌, refl, ◌⊎◌, none, some, if◌then◌else◌, ltb, arith, ℕ_discrete, Option-cases,
}
use edge_cdn.Base.Text.{Str, str_dec}
use edge_cdn.Base.Int.{ℤ}
use edge_cdn.Base.Maps.{lookup, insert}
use edge_cdn.Shield.{
  fetching, idle, leads, Shield, update, new_shield, lead, arrive, finish, in_flight_count,
}
use edge_cdn.Shield.Steps.{Step, arrives, finishes, clears, delivers, cancels}

-- Where a leader is: not begun, before it reads the size, with the size read, about to store it, or through.
pub data Watch : Type 0 where
  unwatched : Watch
  to_read : Watch
  has_read : ℕ → Watch
  to_store : ℕ → Watch
  watched : Watch

-- `most` is the highest number in flight so far, for the statements.
pub record Watched (A : Type 0) : Type 0 where
  pub shield : Shield A
  pub watch : ℕ → Watch
  pub peak : ℕ
  pub most : ℕ

abbrev larger : ℕ → ℕ → ℕ
larger a b = if ltb a b then b else a

module _ {A : Type 0} where
  unfoldable pub unseen : ℤ → Watched A
  unfolding new_shield
  unseen limit = record { shield = new_shield limit; watch = λ i. unwatched; peak = 0; most = 0 }

  -- The shield takes a step.
  unfoldable pub becomes : Shield A → Watched A → Watched A
  unfolding in_flight_count
  becomes t w = record w { shield = t; most = larger w.most (in_flight_count t) }

  -- A request that leads begins its three steps.
  unfoldable pub begins : ℕ → Str → Watched A → Watched A
  unfolding becomes arrive
  begins i path w = record (becomes (arrive i path w.shield) w) {
    watch = elim (lookup str_dec path w.shield.inflight) [
      | none ↦ update w.watch i to_read
      | some c ↦ w.watch
    ];
  }

  unfoldable pub read_size : ℕ → Watched A → Watched A
  unfolding in_flight_count
  read_size i w = record w { watch = update w.watch i (has_read (in_flight_count w.shield)) }

  unfoldable pub load_peak : ℕ → ℕ → Watched A → Watched A
  load_peak i current w = record w {
    watch = update w.watch i (if ltb w.peak current then to_store current else watched);
  }

  unfoldable pub store_peak : ℕ → ℕ → Watched A → Watched A
  store_peak i current w = record w { watch = update w.watch i watched; peak = current }

  -- The steps of the shield that are neither an arrival nor the end of a fetch.
  abbrev pub IsOther : {s t : Shield A} → Step s t → Type 0
  IsOther (arrives i path e) = ⊥
  IsOther (finishes i c path r e) = ⊥
  IsOther (clears i c path r e d) = Unit {0}
  IsOther (delivers i c r e d) = Unit {0}
  IsOther (cancels i c e) = Unit {0}

  pub data Watches (w : Watched A) : Watched A → Type 0 where
    comes : (i : ℕ) (path : Str) → w.shield.requests i ≡ idle → Watches w (begins i path w)
    reads : (i : ℕ) → w.watch i ≡ to_read → Watches w (read_size i w)
    loads : (i current : ℕ) → w.watch i ≡ has_read current → Watches w (load_peak i current w)
    stores : (i current : ℕ) → w.watch i ≡ to_store current → Watches w (store_peak i current w)
    fetches :
        (i c : ℕ) (path : Str) (r : A)
        → w.shield.requests i ≡ leads fetching c path
        → w.watch i ≡ watched
        → Watches w (becomes (finish i c path r w.shield) w)
    others : (t : Shield A) (st : Step w.shield t) → IsOther st → Watches w (becomes t w)

  pub data Seen (limit : ℤ) : Watched A → Type 0 where
    first : Seen limit (unseen limit)
    next : {w w' : Watched A} → Seen limit w → Watches w w' → Seen limit w'

  record IsBelow (w : Watched A) : Type 0 where
    peak_le : w.peak ≤ w.most
    size_le : in_flight_count w.shield ≤ w.most
    read_le : (i n : ℕ) → w.watch i ≡ has_read n → n ≤ w.most
    store_le : (i n : ℕ) → w.watch i ≡ to_store n → n ≤ w.most

  Watches-IsBelow : {w w' : Watched A} → Watches w w' → IsBelow w → IsBelow w'
  unfolding begins becomes read_size load_peak store_peak
  Watches-IsBelow {w} (comes i path e) v = record {
    peak_le = ground (arith, v.peak_le);
    size_le = ground arith;
    read_le = λ j n h.
        ground (arith, v.read_le j n, Option-cases (lookup str_dec path w.shield.inflight));
    store_le = λ j n h.
        ground (arith, v.store_le j n, Option-cases (lookup str_dec path w.shield.inflight));
  }
  Watches-IsBelow {w} (reads i e) v = record {
    peak_le = v.peak_le;
    size_le = v.size_le;
    read_le = λ j n h. ground (arith, v.size_le, v.read_le j n);
    store_le = λ j n h. ground (arith, v.store_le j n);
  }
  Watches-IsBelow {w} (loads i current e) v = record {
    peak_le = v.peak_le;
    size_le = v.size_le;
    read_le = λ j n h. ground (arith, v.read_le j n);
    store_le = λ j n h. ground (arith, v.store_le j n, v.read_le i current);
  }
  Watches-IsBelow {w} (stores i current e) v = record {
    peak_le = v.store_le i current e;
    size_le = v.size_le;
    read_le = λ j n h. ground (arith, v.read_le j n);
    store_le = λ j n h. ground (arith, v.store_le j n);
  }
  Watches-IsBelow {w} (fetches i c path r e e') v = record {
    peak_le = ground (arith, v.peak_le);
    size_le = ground arith;
    read_le = λ j n h. ground (arith, v.read_le j n);
    store_le = λ j n h. ground (arith, v.store_le j n);
  }
  Watches-IsBelow {w} (others t st o) v = record {
    peak_le = ground (arith, v.peak_le);
    size_le = ground arith;
    read_le = λ j n h. ground (arith, v.read_le j n);
    store_le = λ j n h. ground (arith, v.store_le j n);
  }

  unseen-IsBelow : (limit : ℤ) → IsBelow (unseen limit)
  unfolding unseen in_flight_count
  unseen-IsBelow limit = record {
    peak_le = omega arith;
    size_le = omega arith;
    read_le = λ j n h. absurd (ground (arith, h));
    store_le = λ j n h. absurd (ground (arith, h));
  }

  Seen-IsBelow : {limit : ℤ} {w : Watched A} → Seen limit w → IsBelow w
  Seen-IsBelow {limit} first = unseen-IsBelow limit
  Seen-IsBelow (next s st) = Watches-IsBelow st (Seen-IsBelow s)

  -- The peak is never above the highest number of calls in flight so far.
  pub peak-le-most : (limit : ℤ) (w : Watched A) → Seen limit w → w.peak ≤ w.most
  peak-le-most limit w seen = (Seen-IsBelow seen).peak_le

  -- For any two paths a state is reached where both are in flight, each in the map with its own call, and no
  -- other path is; no leader has a step of the peak before it, and the peak is 1.
  pub peak_lost :
      (limit : ℤ) (p q : Str)
      → p ≢ q
      → (w : Watched A) × Seen limit w
        × ((c : ℕ) × (d : ℕ) × (c ≢ d)
            × (lookup str_dec p w.shield.inflight ≡ some c)
            × (lookup str_dec q w.shield.inflight ≡ some d))
        × (in_flight_count w.shield ≡ 2)
        × (w.peak ≡ 1)
        × ((i : ℕ) → (w.watch i ≡ watched) ⊎ (w.watch i ≡ unwatched))
  unfolding unseen begins read_size load_peak store_peak becomes new_shield arrive lead
      in_flight_count insert ℕ_discrete
  peak_lost limit p q ne =
      let w1 = begins 0 p (unseen limit) in
      let w2 = read_size 0 w1 in
      let w3 = load_peak 0 1 w2 in
      let w4 = begins 1 q w3 in
      let w5 = read_size 1 w4 in
      let w6 = load_peak 1 2 w5 in
      let w7 = store_peak 1 2 w6 in
      let s1 : Seen limit w1 = next first (comes 0 p refl) in
      let s3 : Seen limit w3 = next (next s1 (reads 0 refl)) (loads 0 1 refl) in
      let s4 : Seen limit w4 = next s3 (comes 1 q refl) in
      let s5 : Seen limit w5 = next s4 (reads 1 ground (arith, ne)) in
      let s6 : Seen limit w6 = next s5 (loads 1 2 ground (arith, ne)) in
      let s7 : Seen limit w7 = next s6 (stores 1 2 ground (arith, ne)) in
      (
        store_peak 0 1 w7,
        next s7 (stores 0 1 ground (arith, ne)),
        (0, 1, ground arith, ground (arith, ne), ground (arith, ne)),
        ground (arith, ne),
        refl,
        λ i. ground (arith, ne),
      )
