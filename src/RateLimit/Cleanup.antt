-- ===== src/RateLimit/Cleanup.antt =====
-- internal/ratelimit/ratelimit.go: requests with the ticks of the cleanup among them, and what the clients
-- see of the cleanup.
use edge_cdn.Base.{
  ℕ, ◌+◌, ◌-◌, ◌*◌, ◌≤◌, ◌≡◌, refl, ap, ◌∙◌, sym, ite, Bool, Option, none, some, List, [], ◌∷◌, ltb,
  arith, Bool-cases, inl, inr,
}
use mathlib.Core.Path.{subst₂}
use native.Mathlib.Nat.{mul-le-mul_right}
use edge_cdn.RateLimit.Bucket.{zero_elapsed}
use edge_cdn.Base.Text.{Str, str_dec}
use edge_cdn.Base.Int.{ℤ}
use edge_cdn.Base.Maps.{lookup}
use edge_cdn.RateLimit.{
  TokenBucket, Limiter, new_limiter, token, allow, fresh_bucket, allow_key, five_minutes, cleanup,
}
use edge_cdn.RateLimit.Idle.{IsMap, kept, lookup-drop_idle, drop_idle-IsMap, allow_key-IsMap}
use edge_cdn.RateLimit.Clients.{bucket_in, bucket_for, allow_key-buckets, IsFor}

module _ (burst rps : ℕ) where
  -- A client's bucket with and without the cleanups: the same, or dropped where it is full again.
  abbrev Agrees : ℕ → Option TokenBucket → Option TokenBucket → Type 0
  Agrees t o none = o ≡ none
  Agrees t none (some b) =
      IsFor t burst rps (some b) × (burst * token ≤ b.tokens + (t - b.last_refill) * rps)
  Agrees t (some a) (some b) = (a ≡ b) × IsFor t burst rps (some b)

  longer : (t t' last : ℕ) → t ≤ t' → t - last ≤ t' - last
  longer t t' last h = omega arith

  full_later :
      (t t' last tokens n : ℕ)
      → t ≤ t'
      → n ≤ tokens + (t - last) * rps
      → n ≤ tokens + (t' - last) * rps
  full_later t t' last tokens n h f = omega (arith, f, mul-le-mul_right rps (longer t t' last h))

  Agrees-later : (t t' : ℕ) (o o' : Option TokenBucket) → t ≤ t' → Agrees t o o' → Agrees t' o o'
  Agrees-later t t' o none h a = a
  Agrees-later t t' none (some b) h a =
      ground (arith, a, full_later t t' b.last_refill b.tokens (burst * token))
  Agrees-later t t' (some a) (some b) h g = ground (arith, g)

  Agrees-kept :
      (t : ℕ) (o o' : Option TokenBucket)
      → burst * token ≤ five_minutes * rps
      → Agrees t o o'
      → Agrees t (kept t o) o'
  Agrees-kept t o none small a = ground (arith, a)
  Agrees-kept t none (some b) small a = a
  Agrees-kept t (some a) (some b) small g =
      let e : a.last_refill ≡ b.last_refill = ap (λ (c : TokenBucket). c.last_refill) g.0 in
      elim (Bool-cases (ltb five_minutes (t - a.last_refill))) [
        | inr n ↦ rw n g
        | inl y ↦
            let idle : five_minutes ≤ t - b.last_refill = ground arith in
            rw y (g.1, omega (arith, small, mul-le-mul_right rps idle))
      ]

  -- A request is answered alike, and leaves the same bucket.
  Agrees-allow :
      (t : ℕ) (l l' : Limiter) (o o' : Option TokenBucket)
      → l.burst ≡ burst
      → l.rps ≡ rps
      → l'.burst ≡ burst
      → l'.rps ≡ rps
      → Agrees t o o'
      → (allow t (bucket_in t l o) ≡ allow t (bucket_in t l' o'))
        × IsFor t burst rps (some (allow t (bucket_in t l' o')).0)
  unfolding allow fresh_bucket
  Agrees-allow t l l' none none eb er eb' er' a = ground (arith, zero_elapsed t rps)
  Agrees-allow t l l' (some b) none eb er eb' er' a = absurd (ground (arith, a))
  Agrees-allow t l l' none (some b) eb er eb' er' a =
      ground (arith, zero_elapsed t rps, ap (λ (r : ℕ). (t - b.last_refill) * r) a.0.1)
  Agrees-allow t l l' (some b) (some b') eb er eb' er' a = ground arith

  -- Two limiters of this burst and rate whose clients' buckets agree.
  record Alike (t : ℕ) (l l' : Limiter) : Type 0 where
    unique : IsMap l.buckets
    burst_of : l.burst ≡ burst
    rps_of : l.rps ≡ rps
    burst_of' : l'.burst ≡ burst
    rps_of' : l'.rps ≡ rps
    buckets : (k : Str) → Agrees t (lookup str_dec k l.buckets) (lookup str_dec k l'.buckets)

  Alike-allow_key :
      (t t' : ℕ) (k : Str) (l l' : Limiter)
      → t ≤ t'
      → Alike t l l'
      → Alike t' (allow_key t' k l).0 (allow_key t' k l').0
        × ((allow_key t' k l).1 ≡ (allow_key t' k l').1)
  Alike-allow_key t t' k l l' h v =
      let o = lookup str_dec k l.buckets in
      let o' = lookup str_dec k l'.buckets in
      let (same, for) =
        Agrees-allow t' l l' o o' v.burst_of v.rps_of v.burst_of' v.rps_of'
          (Agrees-later t t' o o' h (v.buckets k)) in
      let (_, ok, eb, er) = allow_key-buckets t' k k l in
      let (_, ok', eb', er') = allow_key-buckets t' k k l' in
      (
        record {
          unique = allow_key-IsMap t' k l v.unique;
          burst_of = eb ∙ v.burst_of;
          rps_of = er ∙ v.rps_of;
          burst_of' = eb' ∙ v.burst_of';
          rps_of' = er' ∙ v.rps_of';
          buckets = λ j.
              let (b, _, _, _) = allow_key-buckets t' k j l in
              let (b', _, _, _) = allow_key-buckets t' k j l' in
              subst₂ (Agrees t') (sym b) (sym b')
                (elim (str_dec j k)
                  as (λ d.
                    Agrees t'
                      (ite d (some (allow t' (bucket_for t' k l)).0) (lookup str_dec j l.buckets))
                      (ite d (some (allow t' (bucket_for t' k l')).0)
                        (lookup str_dec j l'.buckets))) [
                          | yes p ↦ (ap (λ (r : TokenBucket × Bool). r.0) same, for)
                          | no p ↦
                              Agrees-later t t' (lookup str_dec j l.buckets)
                                (lookup str_dec j l'.buckets) h (v.buckets j)
                        ]);
        },
        ok ∙ ap (λ (r : TokenBucket × Bool). r.1) same ∙ sym ok',
      )

  Alike-cleanup :
      (t t' : ℕ) (l l' : Limiter)
      → burst * token ≤ five_minutes * rps
      → t ≤ t'
      → Alike t l l'
      → Alike t' (cleanup t' l) l'
  unfolding cleanup
  Alike-cleanup t t' l l' small h v = record {
    unique = drop_idle-IsMap t' l.buckets v.unique;
    burst_of = v.burst_of;
    rps_of = v.rps_of;
    burst_of' = v.burst_of';
    rps_of' = v.rps_of';
    buckets = λ k. rw (lookup-drop_idle t' k l.buckets v.unique) (
        Agrees-kept t' (lookup str_dec k l.buckets) (lookup str_dec k l'.buckets) small (
          Agrees-later t t' (lookup str_dec k l.buckets) (lookup str_dec k l'.buckets) h
            (v.buckets k)));
  }

-- What reaches the limiter: requests of clients, and the ticks of the cleanup.
pub data Event : Type 0 where
  ask : ℕ → Str → Event
  clean : ℕ → Event

-- The answers to the requests.
unfoldable pub answers : List Event → Limiter → List Bool
answers [] l = []
answers (ask t k ∷ es) l = let (l', ok) = allow_key t k l in ok ∷ answers es l'
answers (clean t ∷ es) l = answers es (cleanup t l)

pub without_cleanups : List Event → List Event
without_cleanups [] = []
without_cleanups (ask t k ∷ es) = ask t k ∷ without_cleanups es
without_cleanups (clean t ∷ es) = without_cleanups es

abbrev pub InOrder : ℕ → List Event → Type 0
InOrder t [] = Unit {0}
InOrder t (ask t' k ∷ es) = (t ≤ t') × InOrder t' es
InOrder t (clean t' ∷ es) = (t ≤ t') × InOrder t' es

answers-Alike :
    (burst rps t : ℕ) (es : List Event) (l l' : Limiter)
    → burst * token ≤ five_minutes * rps
    → InOrder t es
    → Alike burst rps t l l'
    → answers es l ≡ answers (without_cleanups es) l'
unfolding answers without_cleanups
answers-Alike burst rps t [] l l' small w v = refl
answers-Alike burst rps t (ask t' k ∷ es) l l' small w v =
    let (v', ok) = Alike-allow_key burst rps t t' k l l' w.0 v in
    ground (
      arith,
      ok,
      answers-Alike burst rps t' es (allow_key t' k l).0 (allow_key t' k l').0 small w.1 v',
    )
answers-Alike burst rps t (clean t' ∷ es) l l' small w v =
    answers-Alike burst rps t' es (cleanup t' l) l' small w.1
      (Alike-cleanup burst rps t t' l l' small w.0 v)

-- With a burst of at most 300 seconds' requests, a limiter made by `New` answers the requests of all
-- clients, in the order of their times, as if its cleanups never ran.
pub answers-without_cleanups :
    (rps burst : ℤ) (t : ℕ) (es : List Event)
    → let l = new_limiter rps burst in
      l.burst ≤ 300 * l.rps → InOrder t es → answers es l ≡ answers (without_cleanups es) l
unfolding new_limiter
answers-without_cleanups rps burst t es small w =
    let l = new_limiter rps burst in
    answers-Alike l.burst l.rps t es l l (omega arith) w (record {
      unique = tt;
      burst_of = refl;
      rps_of = refl;
      burst_of' = refl;
      rps_of' = refl;
      buckets = λ k. refl;
    })
