-- ===== src/Gateway/Failover.antt =====
-- Whom a request is sent to: only healthy nodes that answer, and one of them whenever there is one.
use edge_cdn.Base.{
  ℕ, ◌<◌, ◌≡◌, ◌≢◌, refl, sym, ◌⊎◌, inl, inr, true, false, Option, none, some, List, [], ◌∷◌, arith,
  length, get_or, elem, Option-cases,
}
use mathlib.Core.Path.{subst}
use edge_cdn.Base.Text.{Str, str_dec}
use edge_cdn.Base.Maps.{lookup}
use edge_cdn.Health.{Checker, is_healthy_node}
use edge_cdn.Base.Floats.{Float}
use edge_cdn.Region.{
  Region, Router, routable_at, is_empty, keys, get_nearest_region, get_node_for_key, snapshots,
  get_all_regions,
}
use edge_cdn.Region.Choice.{get_nearest_region-routable}
use edge_cdn.Gateway.{
  Gateway, Request, Answer, proxied, refused, proxy_to, try_nodes, try_target, try_others,
  fail_over, try_primary, hint, handle_proxy,
}

module _ (reply : Str → Option ℕ) (c : Checker) where
  -- The answer comes from a node that passed its health checks and that replied with the status.
  abbrev pub IsServed : Answer → Type 0
  IsServed (proxied node region status failed_over) =
      (is_healthy_node node c ≡ true) × (reply node ≡ some status)
  IsServed (refused status) = ⊥

  abbrev ServedIfAny : Option Answer → Type 0
  ServedIfAny none = Unit {0}
  ServedIfAny (some a) = IsServed a

  try_nodes-IsServed :
      (skip : Option Str) (region : Str) (nodes : List Str)
      → ServedIfAny (try_nodes reply c skip region nodes)
  unfolding try_nodes proxy_to
  try_nodes-IsServed skip region [] = tt
  try_nodes-IsServed skip region (n ∷ nodes) =
      ground (arith, try_nodes-IsServed skip region nodes, Option-cases (reply n))

  try_target-IsServed :
      {Real : Type 0} (primary target : Str) (regs : List (Region Real))
      → ServedIfAny (try_target reply c primary target regs)
  unfolding try_target
  try_target-IsServed primary target [] = tt
  try_target-IsServed primary target (reg ∷ regs) = ground (
    arith,
    try_target-IsServed primary target regs,
    try_nodes-IsServed (some primary) target reg.nodes,
  )

  try_others-IsServed :
      {Real : Type 0} (target : Str) (regs : List (Region Real))
      → ServedIfAny (try_others reply c target regs)
  unfolding try_others
  try_others-IsServed target [] = tt
  try_others-IsServed target (reg ∷ regs) =
      ground (arith, try_others-IsServed target regs, try_nodes-IsServed none reg.name reg.nodes)

  try_primary-IsServed : (primary target : Str) → ServedIfAny (try_primary reply c primary target)
  unfolding try_primary proxy_to
  try_primary-IsServed primary target = ground (arith, Option-cases (reply primary))

  fail_over-IsServed :
      {Real : Type 0} (primary target : Str) (regs : List (Region Real))
      → IsServed (fail_over reply c primary target regs)
        ⊎ (fail_over reply c primary target regs ≡ refused 502)
  unfolding fail_over
  fail_over-IsServed primary target regs =
      ground (arith, try_target-IsServed primary target regs, try_others-IsServed target regs)

  -- A node of the list that is healthy, that answers and that is not skipped is enough.
  try_nodes_finds :
      (skip : Option Str) (region : Str) (nodes : List Str) (n : Str) (s : ℕ)
      → elem str_dec n nodes ≡ true
      → is_healthy_node n c ≡ true
      → reply n ≡ some s
      → skip ≢ some n
      → try_nodes reply c skip region nodes ≢ none
  unfolding try_nodes proxy_to
  try_nodes_finds skip region [] n s m up ok other = absurd (ground arith)
  try_nodes_finds none region (x ∷ nodes) n s m up ok other =
      ground (arith, try_nodes_finds none region nodes n s)
  try_nodes_finds (some k) region (x ∷ nodes) n s m up ok other =
      ground (arith, try_nodes_finds (some k) region nodes n s)

  try_target_finds :
      {Real : Type 0} (primary : Str) (ks : List Str) (m : List (Str × Region Real)) (name : Str)
      (reg : Region Real)
      → elem str_dec name ks ≡ true
      → lookup str_dec name m ≡ some reg
      → reg.name ≡ name
      → try_nodes reply c (some primary) name reg.nodes ≢ none
      → try_target reply c primary name (snapshots ks m) ≢ none
  unfolding try_target snapshots
  try_target_finds primary [] m name reg k e e' f = absurd (ground arith)
  try_target_finds primary (k ∷ ks) m name reg h e e' f =
      ground (arith, Option-cases (lookup str_dec k m), try_target_finds primary ks m name reg)

  try_others_finds :
      {Real : Type 0} (target : Str) (ks : List Str) (m : List (Str × Region Real)) (name : Str)
      (reg : Region Real)
      → elem str_dec name ks ≡ true
      → lookup str_dec name m ≡ some reg
      → reg.name ≡ name
      → name ≢ target
      → reg.healthy ≡ true
      → try_nodes reply c none reg.name reg.nodes ≢ none
      → try_others reply c target (snapshots ks m) ≢ none
  unfolding try_others snapshots
  try_others_finds target [] m name reg k e e' q up f = absurd (ground arith)
  try_others_finds target (k ∷ ks) m name reg h e e' q up f =
      ground (arith, Option-cases (lookup str_dec k m), try_others_finds target ks m name reg)

keys-elem :
    {V : Type 0} (name : Str) (m : List (Str × V)) (v : V)
    → lookup str_dec name m ≡ some v
    → elem str_dec name (keys m) ≡ true
keys-elem name [] v e = absurd (ground arith)
keys-elem name ((k, w) ∷ m) v e = ground (arith, keys-elem name m v)

nonempty_of_elem : (n : Str) (l : List Str) → elem str_dec n l ≡ true → is_empty l ≡ false
nonempty_of_elem n [] m = absurd (ground arith)
nonempty_of_elem n (x ∷ xs) m = refl

routable_of :
    {Real : Type 0} (name : Str) (m : List (Str × Region Real)) (reg : Region Real) (n : Str)
    → lookup str_dec name m ≡ some reg
    → reg.healthy ≡ true
    → elem str_dec n reg.nodes ≡ true
    → routable_at name m ≡ true
routable_of name m reg n e up mem = ground (arith, e, nonempty_of_elem n reg.nodes mem)

nonempty_of_routable :
    {Real : Type 0} (name : Str) (m : List (Str × Region Real))
    → lookup str_dec [] m ≡ none
    → routable_at name m ≡ true
    → is_empty name ≡ false
nonempty_of_routable [] m e ok = ground (arith, e)
nonempty_of_routable (x ∷ xs) m e ok = refl

module _ (reply : Str → Option ℕ) (F : Float) (hash : Str → ℕ) (q : Request)
    (gw : Gateway F.Real) where
  -- A request is answered by a healthy node that replied, with that node's status, or it is
  -- refused with status 502 or 503.
  pub handle_proxy-IsServed :
      IsServed reply gw.health_checker (handle_proxy reply F hash q gw).1
      ⊎ ((handle_proxy reply F hash q gw).1 ≡ refused 502)
      ⊎ ((handle_proxy reply F hash q gw).1 ≡ refused 503)
  unfolding handle_proxy
  handle_proxy-IsServed =
      let (router, target) = get_nearest_region F (hint q) gw.region_router in
      let primary = get_node_for_key hash target q.path router in
      ground (
        arith,
        try_primary-IsServed reply gw.health_checker primary target,
        fail_over-IsServed reply gw.health_checker primary target (get_all_regions router),
      )

  try_primary_finds :
      (primary target : Str) (n : Str) (s : ℕ)
      → primary ≡ n
      → n ≢ []
      → is_healthy_node n gw.health_checker ≡ true
      → reply n ≡ some s
      → try_primary reply gw.health_checker primary target ≢ none
  unfolding try_primary proxy_to
  try_primary_finds [] target n s e named up ok = absurd (named (sym e))
  try_primary_finds (x ∷ xs) target n s e named up ok = ground arith

  fail_over_finds :
      (primary target name : Str) (m : List (Str × Region F.Real)) (reg : Region F.Real) (n : Str)
      (s : ℕ)
      → lookup str_dec name m ≡ some reg
      → reg.name ≡ name
      → reg.healthy ≡ true
      → elem str_dec n reg.nodes ≡ true
      → is_healthy_node n gw.health_checker ≡ true
      → reply n ≡ some s
      → primary ≢ n
      → IsServed reply gw.health_checker
          (fail_over reply gw.health_checker primary target (snapshots (keys m) m))
  unfolding fail_over
  fail_over_finds primary target name m reg n s e e' up mem ok re other =
      let c = gw.health_checker in
      let k = keys-elem name m reg e in
      elim (str_dec name target) [
        | yes same ↦
            let found = try_target_finds reply c primary (keys m) m name reg k e e' (
              try_nodes_finds reply c (some primary) name reg.nodes n s mem ok re
                (λ eq. other (some_inj primary n eq))) in
            ground (
              arith,
              try_target-IsServed reply c primary target (snapshots (keys m) m),
              subst (λ t. try_target reply c primary t (snapshots (keys m) m) ≢ none) same found,
            )
        | no q ↦ ground (
          arith,
          try_target-IsServed reply c primary target (snapshots (keys m) m),
          try_others-IsServed reply c target (snapshots (keys m) m),
          try_others_finds reply c target (keys m) m name reg k e e' q up
              (try_nodes_finds reply c none reg.name reg.nodes n s mem ok re (λ eq. cc)),
        )
      ]
    where
      some_inj : (a b : Str) → ◌≡◌ {A = Option Str} (some a) (some b) → a ≡ b
      some_inj a b eq = cc

  handle_proxy-IsServed_of :
      let (router, target) = get_nearest_region F (hint q) gw.region_router in
      let primary = get_node_for_key hash target q.path router in
      is_empty target ≡ false
      → (try_primary reply gw.health_checker primary target ≡ none
          → IsServed reply gw.health_checker
              (fail_over reply gw.health_checker primary target (get_all_regions router)))
      → IsServed reply gw.health_checker (handle_proxy reply F hash q gw).1
  unfolding handle_proxy
  handle_proxy-IsServed_of full rest =
      let (router, target) = get_nearest_region F (hint q) gw.region_router in
      let primary = get_node_for_key hash target q.path router in
      elim (Option-cases (try_primary reply gw.health_checker primary target)) [
        | inl e ↦ ground (arith, e, rest e)
        | inr (a, e) ↦
            ground (arith, e, try_primary-IsServed reply gw.health_checker primary target)
      ]

  -- Let the index of the rotation be within the order, no region have an empty name, and a healthy
  -- region of the order, stored under its name, have a node with a non-empty address that passes its
  -- health checks and answers. Then the request is served: by that node or by another one that
  -- passes its checks and answers.
  pub handle_proxy_finds :
      (p : ℕ) (name : Str) (reg : Region F.Real) (n : Str) (s : ℕ)
      → let r = gw.region_router in
        r.rr_index < length r.order
        → p < length r.order
        → get_or r.order p [] ≡ name
        → lookup str_dec [] r.regions ≡ none
        → lookup str_dec name r.regions ≡ some reg
        → reg.name ≡ name
        → reg.healthy ≡ true
        → elem str_dec n reg.nodes ≡ true
        → n ≢ []
        → is_healthy_node n gw.health_checker ≡ true
        → reply n ≡ some s
        → IsServed reply gw.health_checker (handle_proxy reply F hash q gw).1
  unfolding get_all_regions
  handle_proxy_finds p name reg n s h h' at unnamed e e' up mem named ok re =
      handle_proxy-IsServed_of (nonempty_of_routable target r.regions unnamed chosen.0) (λ first.
        subst
          (λ m.
            IsServed reply gw.health_checker
              (fail_over reply gw.health_checker primary target (snapshots (keys m) m)))
          (sym chosen.1)
          (fail_over_finds primary target name r.regions reg n s e e' up mem ok re
            (λ eq. try_primary_finds primary target n s eq named ok re first)))
    where
      r : Router F.Real
      r = gw.region_router

      target : Str
      target = (get_nearest_region F (hint q) r).1

      primary : Str
      primary = get_node_for_key hash target q.path (get_nearest_region F (hint q) r).0

      chosen :
          (routable_at target r.regions ≡ true)
          × ((get_nearest_region F (hint q) r).0.regions ≡ r.regions)
      chosen = get_nearest_region-routable F (hint q) r p h h' (
          subst (λ k. routable_at k r.regions ≡ true) (sym at)
            (routable_of name r.regions reg n e up mem))
