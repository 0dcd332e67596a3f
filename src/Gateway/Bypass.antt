-- ===== src/Gateway/Bypass.antt =====
-- internal/gateway/gateway.go with internal/ratelimit/ratelimit.go: the clients of a node behind the
-- gateway, as the node's rate limiter tells them apart.
use edge_cdn.Base.{
  ℕ, ◌<◌, ◌≡◌, ◌≢◌, refl, ap, ◌∙◌, Bool, true, none, List, [], ◌∷◌, ◌++◌, map, length, All, arith,
}
use edge_cdn.Base.Headers.{
  get_header, set_header, get_header-set_header, get_header-set_header_self,
}
use edge_cdn.Base.Text.{Str, str_dec, codes}
use edge_cdn.Base.Maps.{lookup}
use edge_cdn.RateLimit.{Limiter, allow, fresh_bucket, allow_key, extract_ip, until_first}
use edge_cdn.RateLimit.Bucket.{zero_elapsed}
use edge_cdn.RateLimit.Clients.{allow_key-buckets}
use edge_cdn.RateLimit.Cleanup.{Event, ask, answers}
use edge_cdn.Gateway.Forward.{proxy_request, client_of}

until_first_none : (s : Str) → All (λ x. x ≢ b',') s → until_first b',' s ≡ s
unfolding until_first
until_first_none [] a = refl
until_first_none (x ∷ s) a = ground (arith, until_first_none s a.1, a.0)

names_differ : codes "X-Forwarded-For" ≢ codes "X-Request-Id"
names_differ h = absurd (omega (arith, ap length h))

-- The key of the limiter for a request behind the gateway is the client's address with its port.
forwarded_address :
    (node uri remote id peer : Str) (hs : List (Str × Str))
    → All (λ x. x ≢ b',') remote
    → 0 < length remote
    → extract_ip (client_of peer (proxy_request node uri remote id hs).headers) ≡ remote
unfolding extract_ip client_of proxy_request
forwarded_address node uri remote id peer hs a h =
    let e : get_header (codes "X-Forwarded-For")
          (set_header (codes "X-Request-Id") id (set_header (codes "X-Forwarded-For") remote hs))
        ≡ remote =
      get_header-set_header (codes "X-Forwarded-For") (codes "X-Request-Id") id
        (set_header (codes "X-Forwarded-For") remote hs) names_differ
      ∙ get_header-set_header_self (codes "X-Forwarded-For") remote hs in
    ground (arith, e, until_first_none remote a)

abbrev pub AllDiffer : List Str → Type 0
AllDiffer [] = Unit {0}
AllDiffer (k ∷ ks) = All (λ j. j ≢ k) ks × AllDiffer ks

abbrev asks : ℕ → List Str → List Event
asks t [] = []
asks t (k ∷ ks) = ask t k ∷ asks t ks

abbrev pub trues : List Str → List Bool
trues [] = []
trues (k ∷ ks) = true ∷ trues ks

fresh_allowed : (t : ℕ) (l : Limiter) → 0 < l.burst → (allow t (fresh_bucket t l)).1 ≡ true
unfolding allow fresh_bucket
fresh_allowed t l h = ground (arith, zero_elapsed t l.rps)

-- Every first request of a key is allowed, whatever the others were.
fresh_answers :
    (t : ℕ) (ks : List Str) (l : Limiter)
    → 0 < l.burst
    → AllDiffer ks
    → All (λ k. lookup str_dec k l.buckets ≡ none) ks
    → answers (asks t ks) l ≡ trues ks
unfolding answers
fresh_answers t [] l h d a = refl
fresh_answers t (k ∷ ks) l h d a =
    let (_, ok, burst, _) = allow_key-buckets t k k l in
    let now : (allow_key t k l).1 ≡ true = ground (arith, ok, a.0, fresh_allowed t l h) in
    ground (arith, now, fresh_answers t ks (allow_key t k l).0 (rw burst h) d.1 (still ks d.0 a.1))
  where
    still :
        (js : List Str)
        → All (λ j. j ≢ k) js
        → All (λ j. lookup str_dec j l.buckets ≡ none) js
        → All (λ j. lookup str_dec j (allow_key t k l).0.buckets ≡ none) js
    still [] d a = tt
    still (j ∷ js) d a =
        let (b, _, _, _) = allow_key-buckets t k j l in
        (ground (arith, b, d.0, a.0), still js d.1 a.1)

-- The peer's address of a connection from a client's port.
abbrev pub address : Str → Str → Str
address ip port = ip ++ (b':' ∷ port)

append_cancel : (s t u : Str) → s ++ t ≡ s ++ u → t ≡ u
append_cancel [] t u e = e
append_cancel (x ∷ s) t u e = append_cancel s t u (cc)

differ_addresses :
    (ip : Str) (ports : List Str) → AllDiffer ports → AllDiffer (map (address ip) ports)
differ_addresses ip [] d = tt
differ_addresses ip (p ∷ ps) d = (differ_from ps d.0, differ_addresses ip ps d.1)
  where
    differ_from :
        (qs : List Str) → All (λ q. q ≢ p) qs → All (λ a. a ≢ address ip p) (map (address ip) qs)
    differ_from [] a = tt
    differ_from (q ∷ qs) a =
        ((λ h. a.0 (ap_tail (append_cancel ip (b':' ∷ q) (b':' ∷ p) h))), differ_from qs a.1)
      where
        ap_tail : b':' ∷ q ≡ b':' ∷ p → q ≡ p
        ap_tail e = cc

-- The requests that reach a node from one client behind the gateway, each over a connection of its own.
abbrev pub from_ports : ℕ → Str → Str → Str → Str → List (Str × Str) → Str → List Str → List Event
from_ports t node uri id peer hs ip [] = []
from_ports t node uri id peer hs ip (port ∷ ports) =
    ask t (extract_ip (client_of peer (proxy_request node uri (address ip port) id hs).headers))
    ∷ from_ports t node uri id peer hs ip ports

differs : ◌≢◌ {A = ℕ} 58 44
differs e = omega (arith, e)

from_ports-asks :
    (t : ℕ) (node uri id peer : Str) (hs : List (Str × Str)) (ip : Str) (ports : List Str)
    → All (λ x. x ≢ b',') ip
    → All (All (λ x. x ≢ b',')) ports
    → from_ports t node uri id peer hs ip ports ≡ asks t (map (address ip) ports)
from_ports-asks t node uri id peer hs ip [] a cs = refl
from_ports-asks t node uri id peer hs ip (port ∷ ports) a cs =
    let key =
      forwarded_address node uri (address ip port) id peer hs (no_commas ip a cs.0)
        (some_length ip) in
    let rest = from_ports-asks t node uri id peer hs ip ports a cs.1 in cc
  where
    no_commas :
        (s : Str)
        → All (λ x. x ≢ b',') s
        → All (λ x. x ≢ b',') port
        → All (λ x. x ≢ b',') (address s port)
    no_commas [] a b = ((λ e. differs e), b)
    no_commas (x ∷ s) a b = (a.0, no_commas s a.1 b)

    some_length : (s : Str) → 0 < length (address s port)
    some_length [] = omega arith
    some_length (x ∷ s) = omega arith

trues-map : (f : Str → Str) (ks : List Str) → trues (map f ks) ≡ trues ks
trues-map f [] = refl
trues-map f (k ∷ ks) = ap (λ bs. true ∷ bs) (trues-map f ks)

-- A client behind the gateway whose connections come from ports that all differ, none of which the
-- node's limiter has a bucket for, is allowed every first request of each, however many they are, when
-- the burst is positive and neither its IP address nor its ports hold a comma.
pub ports_bypass :
    (t : ℕ) (node uri id peer : Str) (hs : List (Str × Str)) (ip : Str) (ports : List Str)
    (l : Limiter)
    → 0 < l.burst
    → All (λ x. x ≢ b',') ip
    → All (All (λ x. x ≢ b',')) ports
    → AllDiffer ports
    → All (λ k. lookup str_dec k l.buckets ≡ none) (map (address ip) ports)
    → answers (from_ports t node uri id peer hs ip ports) l ≡ trues ports
ports_bypass t node uri id peer hs ip ports l burst a cs d new =
    ap (λ es. answers es l) (from_ports-asks t node uri id peer hs ip ports a cs)
    ∙ fresh_answers t (map (address ip) ports) l burst (differ_addresses ip ports d) new
    ∙ trues-map (address ip) ports
