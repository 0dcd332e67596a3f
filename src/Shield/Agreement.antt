-- ===== src/Shield/Agreement.antt =====
-- internal/shield/shield.go: the results that the requests of one call get.
use edge_cdn.Base.{ℕ, ◌≤◌, ◌≡◌, refl, inl, inr, none, some, arith, Option-cases}
use edge_cdn.Base.Text.{Str, str_dec}
use edge_cdn.Base.Int.{ℤ}
use edge_cdn.Base.Maps.{lookup}
use edge_cdn.Shield.{
  Stage, fetching, signalled, Reply, leads, waits, returned, Shield, update, new_shield, join, lead,
  arrive, finish, clear, deliver, cancel,
}
use edge_cdn.Shield.Steps.{
  Step, arrives, finishes, clears, delivers, cancels, Reach, start, later, IsValid,
}
use edge_cdn.Shield.Reached.{Reach-IsValid}
use edge_cdn.Shield.Steps.{Runs, here, then_}

module _ {A : Type 0} where
  -- A call has one leader, no result while it is fetched, and none before it is made.
  record IsFresh (s : Shield A) : Type 0 where
    unfetched : (i c : ℕ) (p : Str) → s.requests i ≡ leads fetching c p → (s.calls c).result ≡ none
    unmade : (c : ℕ) → s.next ≤ c → (s.calls c).result ≡ none
    owner :
        (i j c : ℕ) (st st' : Stage) (p q : Str)
        → s.requests i ≡ leads st c p
        → s.requests j ≡ leads st' c q
        → i ≡ j

  new_shield-IsFresh : (limit : ℤ) → IsFresh (new_shield limit)
  unfolding new_shield
  new_shield-IsFresh limit = record {
    unfetched = λ i c p e. cc;
    unmade = λ c h. refl;
    owner = λ i j c st st' p q e e'. cc;
  }

  -- A request ends, the calls being as they were.
  retire-IsFresh :
      (s t : Shield A) (i : ℕ) (reply : Reply A)
      → IsFresh s
      → t.requests ≡ update s.requests i (returned reply)
      → t.calls ≡ s.calls
      → t.next ≡ s.next
      → IsFresh t
  retire-IsFresh s t i reply v er ec en = record {
    unfetched = λ j c p e. ground (arith, er, ec, v.unfetched j c p);
    unmade = λ c h. ground (arith, ec, en, v.unmade c);
    owner = λ j k c st st' p q e e'. ground (arith, er, v.owner j k c st st' p q);
  }

  join-IsFresh : (i c : ℕ) (s : Shield A) → IsFresh s → IsFresh (join i c s)
  unfolding join
  join-IsFresh i c s v = record {
    unfetched = λ j d p e. ground (arith, v.unfetched j d p);
    unmade = λ d h. ground (arith, v.unmade d);
    owner = λ j k d st st' p q e e'. ground (arith, v.owner j k d st st' p q);
  }

  lead-IsFresh :
      (i : ℕ) (path : Str) (s : Shield A) → IsValid s → IsFresh s → IsFresh (lead i path s)
  unfolding lead
  lead-IsFresh i path s iv v = record {
    unfetched = λ j d p e. ground (arith, v.unfetched j d p);
    unmade = λ d h. ground (arith, v.unmade d);
    owner = λ j k d st st' p q e e'.
        ground (arith, v.owner j k d st st' p q, iv.mapped j d st p, iv.mapped k d st' q);
  }

  arrive-IsFresh :
      (i : ℕ) (path : Str) (s : Shield A) → IsValid s → IsFresh s → IsFresh (arrive i path s)
  unfolding arrive
  arrive-IsFresh i path s iv v = elim (Option-cases (lookup str_dec path s.inflight)) [
    | inl e ↦ rw (arrive, e) (lead-IsFresh i path s iv v)
    | inr (c, e) ↦ rw (arrive, e) (join-IsFresh i c s v)
  ]

  finish-IsFresh :
      (i c : ℕ) (path : Str) (r : A) (s : Shield A)
      → IsValid s
      → s.requests i ≡ leads fetching c path
      → IsFresh s
      → IsFresh (finish i c path r s)
  unfolding finish
  finish-IsFresh i c path r s iv e v = record {
    unfetched =
        λ j d p h. ground (arith, v.unfetched j d p, v.owner i j c fetching fetching path p);
    unmade = λ d h. ground (arith, v.unmade d, iv.mapped i c fetching path e);
    owner = λ j k d st st' p q h h'. ground (
      arith,
      v.owner j k d st st' p q,
      v.owner i k d fetching st' path q,
      v.owner j i d st fetching p path,
    );
  }

  Step-IsFresh : {s t : Shield A} → IsValid s → IsFresh s → Step s t → IsFresh t
  unfolding clear deliver cancel
  Step-IsFresh {s} iv v (arrives i path e) = arrive-IsFresh i path s iv v
  Step-IsFresh {s} iv v (finishes i c path r e) = finish-IsFresh i c path r s iv e v
  Step-IsFresh {s} iv v (clears i c path r e d) =
      retire-IsFresh s (clear i c path r s) i (Reply.own r) v refl refl refl
  Step-IsFresh {s} iv v (delivers i c r e d) =
      retire-IsFresh s (deliver i r s) i (Reply.coalesced r) v refl refl refl
  Step-IsFresh {s} iv v (cancels i c e) =
      retire-IsFresh s (cancel i s) i Reply.context_done v refl refl refl

  Reach-IsFresh : {limit : ℤ} {s : Shield A} → Reach limit s → IsFresh s
  Reach-IsFresh {limit} start = new_shield-IsFresh limit
  Reach-IsFresh (later r st) = Step-IsFresh (Reach-IsValid r) (Reach-IsFresh r) st

  arrive-result :
      (i c : ℕ) (path : Str) (r : A) (s : Shield A)
      → IsFresh s
      → (s.calls c).result ≡ some r
      → ((arrive i path s).calls c).result ≡ some r
  unfolding arrive join lead
  arrive-result i c path r s v e =
      ground (arith, e, v.unmade c, Option-cases (lookup str_dec path s.inflight))

  -- No step changes the result of a call.
  Step-result :
      {s t : Shield A} (c : ℕ) (r : A)
      → IsFresh s
      → Step s t
      → (s.calls c).result ≡ some r
      → (t.calls c).result ≡ some r
  unfolding finish clear deliver cancel
  Step-result {s} c r v (arrives i path e) d = arrive-result i c path r s v d
  Step-result {s} c r v (finishes i b path r' e) d = ground (arith, v.unfetched i b path e, d)
  Step-result c r v (clears i b path r' e d') d = d
  Step-result c r v (delivers i b r' e d') d = d
  Step-result c r v (cancels i b e) d = d

  Runs-result :
      {limit : ℤ} {s t : Shield A} (c : ℕ) (r : A)
      → Reach limit s
      → Runs s t
      → (s.calls c).result ≡ some r
      → Reach limit t × ((t.calls c).result ≡ some r)
  Runs-result c r reached here d = (reached, d)
  Runs-result c r reached (then_ rs st) d =
      let (reached', d') = Runs-result c r reached rs d in
      (later reached' st, Step-result c r (Reach-IsFresh reached') st d')

  -- A request that a step gives a result of a call: its leader, or one that waits on it.
  pub data Gets (s : Shield A) (c : ℕ) (r : A) : ℕ → Type 0 where
    leader :
        (i : ℕ) (path : Str)
        → s.requests i ≡ leads signalled c path
        → (s.calls c).result ≡ some r
        → Gets s c r i
    waiter : (i : ℕ) → s.requests i ≡ waits c → (s.calls c).result ≡ some r → Gets s c r i

  result_of : (s : Shield A) (c i : ℕ) (r : A) → Gets s c r i → (s.calls c).result ≡ some r
  result_of s c i r (leader _ path e d) = d
  result_of s c i r (waiter _ e d) = d

  -- From a state that is reached, all the requests of a call that get a result, then or after any
  -- steps, its leader among them, get the same one.
  pub results_agree :
      (limit : ℤ) (s t : Shield A)
      → Reach limit s
      → Runs s t
      → (c i j : ℕ) (r r' : A) → Gets s c r i
      → Gets t c r' j
      → r ≡ r'
  results_agree limit s t reached runs c i j r r' g g' =
      let d = (Runs-result c r reached runs (result_of s c i r g)).1 in
      let d' = result_of t c j r' g' in cc
