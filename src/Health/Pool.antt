-- ===== src/Health/Pool.antt =====
-- The pool of nodes: its invariant, and that an operation on one node leaves the others alone.
use mathlib.Core.Path.{subst}
use edge_cdn.Base.{
  ℕ, ◌+◌, ◌≤◌, ◌<◌, ◌≡◌, ◌⊎◌, inl, inr, refl, sym, ap, ◌∙◌, ite, Bool, true, false, Option, none,
  some, List, [], ◌∷◌, arith, if◌then◌else◌, Option-cases,
}
use edge_cdn.Base.Int.{ℤ, positive_or_pos}
use edge_cdn.Base.Text.{Str, str_dec}
use edge_cdn.Base.Maps.{lookup, insert, delete, lookup-insert, lookup-delete}
use edge_cdn.Health.{
  Config, NodeHealth, Checker, Probe, new_checker, fresh_node, register_node, unregister_node,
  update_node, report, check_node, check_each, check_all,
}

-- A node's counts against the thresholds.
pub record IsSound (cfg : Config) (n : NodeHealth) : Type 0 where
  pub up : n.is_healthy ≡ true → n.fail_count < cfg.fail_threshold
  pub down : n.is_healthy ≡ false → n.success_count < cfg.success_threshold
  pub one_streak : (n.fail_count ≡ 0) ⊎ (n.success_count ≡ 0)
  pub fails_within : n.total_fails ≤ n.total_checks
  pub recent : n.fail_count ≤ n.total_fails
  pub all_counted : n.fail_count + n.success_count ≤ n.total_checks

pub update_node-IsSound :
    (cfg : Config) (p : Probe) (n : NodeHealth)
    → 0 < cfg.fail_threshold
    → 0 < cfg.success_threshold
    → IsSound cfg n
    → IsSound cfg (update_node cfg p n).0
unfolding update_node
update_node-IsSound cfg p n hf hs v = ground arith

abbrev pub SoundAt : Config → Option NodeHealth → Type 0
SoundAt cfg none = Unit {0}
SoundAt cfg (some n) = IsSound cfg n

abbrev pub gauge_of : Option NodeHealth → Option ℕ
gauge_of none = none
gauge_of (some n) = some (if n.is_healthy then 1 else 0)

-- What the invariant says of one address: its node is sound and stands under its address, and the
-- gauge has an entry exactly where there is a node, which shows its health.
abbrev pub EntryValid : Config → Str → Option NodeHealth → Option ℕ → Type 0
EntryValid cfg a none g = g ≡ none
EntryValid cfg a (some n) g =
    IsSound cfg n × (g ≡ some (if n.is_healthy then 1 else 0)) × (n.address ≡ a)

pub record IsValid (c : Checker) : Type 0 where
  pub fails_pos : 0 < c.config.fail_threshold
  pub succs_pos : 0 < c.config.success_threshold
  pub entries :
      (a : Str) → EntryValid c.config a (lookup str_dec a c.nodes) (lookup str_dec a c.node_status)

pub new_checker-IsValid : (i t f s : ℤ) (b : Bool) → IsValid (new_checker i t f s b)
unfolding new_checker
new_checker-IsValid i t f s b = record {
  fails_pos = positive_or_pos 3 f (omega arith);
  succs_pos = positive_or_pos 2 s (omega arith);
  entries = λ a. refl;
}

fresh_node-IsSound :
    (cfg : Config) (a r : Str) → 0 < cfg.fail_threshold → IsSound cfg (fresh_node a r)
unfolding fresh_node
fresh_node-IsSound cfg a r h = ground arith

entry-insert :
    (cfg : Config) (j a : Str) (n : NodeHealth) (v : ℕ) (m : List (Str × NodeHealth))
    (g : List (Str × ℕ))
    → EntryValid cfg a (some n) (some v)
    → EntryValid cfg j (lookup str_dec j m) (lookup str_dec j g)
    → EntryValid cfg j
        (lookup str_dec j (insert str_dec a n m))
        (lookup str_dec j (insert str_dec a v g))
entry-insert cfg j a n v m g new old = rw (lookup-insert {V = NodeHealth} str_dec j a n m) (
    rw (lookup-insert {V = ℕ} str_dec j a v g)
      (elim (str_dec j a)
        as (λ d.
          EntryValid cfg j (ite d (some n) (lookup str_dec j m))
            (ite d (some v) (lookup str_dec j g))) [
              | yes p ↦ (new.0, new.1, new.2 ∙ sym p)
              | no q ↦ old
            ]))

-- A write of the node alone, with its gauge as it was.
entry-keep :
    (cfg : Config) (j a : Str) (n : NodeHealth) (m : List (Str × NodeHealth)) (g : List (Str × ℕ))
    → EntryValid cfg a (some n) (lookup str_dec a g)
    → EntryValid cfg j (lookup str_dec j m) (lookup str_dec j g)
    → EntryValid cfg j (lookup str_dec j (insert str_dec a n m)) (lookup str_dec j g)
entry-keep cfg j a n m g new old =
    rw (lookup-insert {V = NodeHealth} str_dec j a n m)
      (elim (str_dec j a)
        as (λ d. EntryValid cfg j (ite d (some n) (lookup str_dec j m)) (lookup str_dec j g)) [
          | yes p ↦ (new.0, ap (λ k. lookup str_dec k g) p ∙ new.1, new.2 ∙ sym p)
          | no q ↦ old
        ])

entry-delete :
    (cfg : Config) (j a : Str) (m : List (Str × NodeHealth)) (g : List (Str × ℕ))
    → EntryValid cfg j (lookup str_dec j m) (lookup str_dec j g)
    → EntryValid cfg j
        (lookup str_dec j (delete str_dec a m))
        (lookup str_dec j (delete str_dec a g))
entry-delete cfg j a m g old = rw (lookup-delete {V = NodeHealth} str_dec j a m) (
    rw (lookup-delete {V = ℕ} str_dec j a g)
      (elim (str_dec j a)
        as (λ d.
          EntryValid cfg j (ite d none (lookup str_dec j m)) (ite d none (lookup str_dec j g))) [
            | yes p ↦ refl
            | no q ↦ old
          ]))

pub register_node-IsValid : (a r : Str) (c : Checker) → IsValid c → IsValid (register_node a r c)
register_node-IsValid a r c v = elim (Option-cases (lookup str_dec a c.nodes)) [
  | inr (n, e) ↦ unfold register_node in rw (e, register_node) v
  | inl e ↦
      unfold register_node fresh_node in
      rw (e, register_node)
        (record {
          fails_pos = v.fails_pos;
          succs_pos = v.succs_pos;
          entries = λ j.
              entry-insert c.config j a (fresh_node a r) 1 c.nodes c.node_status
                (fresh_node-IsSound c.config a r v.fails_pos, refl, refl) (v.entries j);
        })
]

pub unregister_node-IsValid : (a : Str) (c : Checker) → IsValid c → IsValid (unregister_node a c)
unfolding unregister_node
unregister_node-IsValid a c v = elim (Option-cases (lookup str_dec a c.nodes)) [
  | inl e ↦ rw (e, unregister_node) v
  | inr (n, e) ↦
      rw (e, unregister_node)
        (record {
          fails_pos = v.fails_pos;
          succs_pos = v.succs_pos;
          entries = λ j. entry-delete c.config j a c.nodes c.node_status (v.entries j);
        })
]

update_node-change :
    (cfg : Config) (p : Probe) (n : NodeHealth)
    → ((update_node cfg p n).0.address ≡ n.address)
      × ((((update_node cfg p n).1 ≡ none) × ((update_node cfg p n).0.is_healthy ≡ n.is_healthy))
          ⊎ ((b : Bool) × ((update_node cfg p n).1 ≡ some b)
              × ((update_node cfg p n).0.is_healthy ≡ b)))
unfolding update_node
update_node-change cfg p n = ground arith

-- What the change of a node's health says of its gauge before.
abbrev ChangeFits : NodeHealth → Option ℕ → Option Bool → Type 0
ChangeFits n g none = g ≡ some (if n.is_healthy then 1 else 0)
ChangeFits n g (some b) = n.is_healthy ≡ b

report-IsValid :
    (a : Str) (n : NodeHealth) (change : Option Bool) (c : Checker)
    → IsValid c
    → IsSound c.config n
    → a ≡ n.address
    → ChangeFits n (lookup str_dec a c.node_status) change
    → IsValid (report n change (record c { nodes = insert str_dec a n c.nodes })).0
unfolding report
report-IsValid a n none c v s named fits = record {
  fails_pos = v.fails_pos;
  succs_pos = v.succs_pos;
  entries = λ j. entry-keep c.config j a n c.nodes c.node_status (s, fits, sym named) (v.entries j);
}
report-IsValid a n (some b) c v s named fits = record {
  fails_pos = v.fails_pos;
  succs_pos = v.succs_pos;
  entries = λ j.
      subst
        (λ k.
          EntryValid c.config j (lookup str_dec j (insert str_dec a n c.nodes))
            (lookup str_dec j (insert str_dec k (if b then 1 else 0) c.node_status)))
        named
        (entry-insert c.config j a n (if b then 1 else 0) c.nodes c.node_status
          (s, rw fits refl, sym named) (v.entries j));
}

change_fits :
    (a : Str) (p : Probe) (c : Checker) (n : NodeHealth)
    → EntryValid c.config a (some n) (lookup str_dec a c.node_status)
    → ChangeFits
        (update_node c.config p n).0
        (lookup str_dec a c.node_status)
        (update_node c.config p n).1
change_fits a p c n old = elim (update_node-change c.config p n).1 [
  | inl (e, same) ↦ rw (e, same) (old.1)
  | inr (b, e, now) ↦ rw e now
]

-- A probe keeps a valid pool valid: every node's counts stay on the right side of the thresholds,
-- and the gauge goes on showing the health of exactly the registered nodes.
pub check_node-IsValid :
    (a : Str) (p : Probe) (c : Checker) → IsValid c → IsValid (check_node a p c).0
unfolding check_node
check_node-IsValid a p c v = elim (Option-cases (lookup str_dec a c.nodes)) [
  | inl e ↦ rw (e, check_node) v
  | inr (n, e) ↦
      let old : EntryValid c.config a (some n) (lookup str_dec a c.node_status) =
        subst (λ o. EntryValid c.config a o (lookup str_dec a c.node_status)) e (v.entries a) in
      rw (e, check_node)
        (report-IsValid a (update_node c.config p n).0 (update_node c.config p n).1 c v
          (update_node-IsSound c.config p n v.fails_pos v.succs_pos old.0)
          (sym ((update_node-change c.config p n).0 ∙ old.2)) (change_fits a p c n old))
]

check_each-IsValid :
    (l : List Str) (probe : Str → Option Probe) (c : Checker)
    → IsValid c
    → IsValid (check_each l probe c).0
unfolding check_each
check_each-IsValid [] probe c v = v
check_each-IsValid (a ∷ l) probe c v = elim (Option-cases (probe a)) [
  | inl e ↦ rw (e, check_each) v
  | inr (p, e) ↦
      rw (e, check_each)
        (check_each-IsValid l probe (check_node a p c).0 (check_node-IsValid a p c v))
]

-- The operations of the checker, with what the environment gives them.
pub data Call : Type 0 where
  registers : Str → Str → Call
  unregisters : Str → Call
  checks : (Str → Option Probe) → Call

pub calls : List Call → Checker → Checker
calls [] c = c
calls (registers a r ∷ l) c = calls l (register_node a r c)
calls (unregisters a ∷ l) c = calls l (unregister_node a c)
calls (checks probe ∷ l) c = calls l (check_all probe c).0

calls-IsValid_from : (l : List Call) (c : Checker) → IsValid c → IsValid (calls l c)
unfolding calls check_all
calls-IsValid_from [] c v = v
calls-IsValid_from (registers a r ∷ l) c v = calls-IsValid_from l _ (register_node-IsValid a r c v)
calls-IsValid_from (unregisters a ∷ l) c v = calls-IsValid_from l _ (unregister_node-IsValid a c v)
calls-IsValid_from (checks probe ∷ l) c v = calls-IsValid_from l _ (check_each-IsValid _ probe c v)

-- A checker made by `New` from any configuration is valid after any registrations, removals and
-- sweeps: every node's counts stand on the right side of the thresholds, every node stands under
-- its address, and the gauge shows the health of exactly the registered nodes.
pub calls-IsValid :
    (i t f s : ℤ) (b : Bool) (l : List Call) → IsValid (calls l (new_checker i t f s b))
calls-IsValid i t f s b l = calls-IsValid_from l _ (new_checker-IsValid i t f s b)
