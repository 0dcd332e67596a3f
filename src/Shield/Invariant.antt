-- ===== src/Shield/Invariant.antt =====
-- The invariant of the shield, for each kind of change that a step makes.
use edge_cdn.Base.{ℕ, ◌+◌, ◌<◌, ◌≡◌, ◌≢◌, ◌⊎◌, inl, inr, none, some, List, arith, ℕ_discrete}
use edge_cdn.Base.Text.{Str, str_dec}
use edge_cdn.Base.Maps.{lookup, insert, delete, lookup-insert, lookup-delete}
use edge_cdn.Shield.{
  Call, Stage, fetching, signalled, Reply, Phase, idle, leads, waits, returned, update, no_call,
}
use edge_cdn.Shield.Steps.{IsDone, IsFetched, Inv}

module _ {A : Type 0} where
  module _ (limit : ℕ) (m : List (Str × ℕ)) (calls : ℕ → Call A) (next : ℕ) (rs : ℕ → Phase A)
      (v : Inv limit m calls next rs) where
    -- A request that does not lead returns.
    pub retire-Inv :
        (i : ℕ) (reply : Reply A)
        → ((c : ℕ) (st : Stage) (p : Str) → rs i ≢ leads st c p)
        → Inv limit m calls next (update rs i (returned reply))
    retire-Inv i reply other = record {
      led = λ p d e. let (j, st, h) = v.led p d e in (j, st, ground (arith, other d st p));
      mapped = λ j d st p e. ground (arith, v.mapped j d st p);
      one = λ j k d d' st st' p e e'. ground (arith, v.one j k d d' st st' p);
      done = λ j d p e. v.done j d p (ground arith);
      awaited = λ j d e.
          let (lt, o) = v.awaited j d (ground arith) in
          (
            lt,
            elim o [
              | inl r ↦ inl r
              | inr (k, p, h) ↦ inr (k, p, ground (arith, other d fetching p))
            ],
          );
      bounded = v.bounded;
    }

    led_call :
        (st : Stage) (k c : ℕ) (p : Str) → rs k ≡ leads st c p → IsDone calls c ⊎ IsFetched rs c
    led_call fetching k c p e = inr (k, p, e)
    led_call signalled k c p e = inl (v.done k c p e)

    mapped_call :
        (c : ℕ) (p : Str)
        → lookup str_dec p m ≡ some c
        → (c < next) × (IsDone calls c ⊎ IsFetched rs c)
    mapped_call c p e =
        let (k, st, l) = v.led p c e in ((v.mapped k c st p l).1, led_call st k c p l)

    -- A request that was not made joins a call.
    pub join-Inv :
        (i c : ℕ) (path : Str)
        → rs i ≡ idle
        → lookup str_dec path m ≡ some c
        → (calls c).shared < limit
        → Inv limit m
            (update calls c (record (calls c) { shared = (calls c).shared + 1 }))
            next
            (update rs i (waits c))
    join-Inv i c path free e room = record {
      led = λ p d e. let (j, st, h) = v.led p d e in (j, st, ground arith);
      mapped = λ j d st p e. ground (arith, v.mapped j d st p);
      one = λ j k d d' st st' p e e'. ground (arith, v.one j k d d' st st' p);
      done = λ j d p h. let (r, e') = v.done j d p (ground arith) in (r, ground arith);
      awaited = λ j d h.
          let (lt, o) : (d < next) × (IsDone calls d ⊎ IsFetched rs d) = elim (ℕ_discrete i j) [
            | yes q ↦ ground (arith, mapped_call c path e)
            | no n ↦ v.awaited j d (ground arith)
          ] in
          (
            lt,
            elim o [
              | inl (r, done) ↦ inl (r, ground arith)
              | inr (k, p, q) ↦ inr (k, p, ground arith)
            ],
          );
      bounded = λ d. ground (arith, v.bounded d);
    }

    pub lead-Inv :
        (i : ℕ) (path : Str)
        → rs i ≡ idle
        → lookup str_dec path m ≡ none
        → Inv limit
            (insert str_dec path next m)
            (update calls next no_call)
            (next + 1)
            (update rs i (leads fetching next path))
    lead-Inv i path free e = record {
      led = λ p d h. elim (str_dec p path) [
        | yes q ↦ (i, fetching, ground (arith, lookup-insert {V = ℕ} str_dec p path next m))
        | no n ↦
            let (j, st, l) =
              v.led p d (ground (arith, lookup-insert {V = ℕ} str_dec p path next m)) in
            (j, st, ground arith)
      ];
      mapped = λ j d st p h.
          ground (arith, lookup-insert {V = ℕ} str_dec p path next m, v.mapped j d st p);
      one = λ j k d d' st st' p h h'.
          ground (arith, v.one j k d d' st st' p, v.mapped j d st p, v.mapped k d' st' p);
      done = λ j d p h.
          let lt = v.mapped j d signalled p (ground arith) in
          let (r, q) = v.done j d p (ground arith) in (r, ground (arith, lt));
      awaited = λ j d h.
          let (lt, o) = v.awaited j d (ground arith) in
          (
            ground arith,
            elim o [
              | inl (r, q) ↦ inl (r, ground arith)
              | inr (k, p, q) ↦ inr (k, p, ground arith)
            ],
          );
      bounded = λ d. ground (arith, v.bounded d);
    }

    pub finish-Inv :
        (i c : ℕ) (path : Str) (r : A)
        → rs i ≡ leads fetching c path
        → Inv limit m
            (update calls c (record (calls c) { result = some r }))
            next
            (update rs i (leads signalled c path))
    finish-Inv i c path r e = record {
      led = λ p d h.
          let (j, st, l) = v.led p d h in
          elim (ℕ_discrete i j) [
            | yes q ↦ (j, signalled, ground arith)
            | no n ↦ (j, st, ground arith)
          ];
      mapped = λ j d st p h. elim (ℕ_discrete i j) [
        | yes q ↦ ground (arith, v.mapped i c fetching path e)
        | no n ↦ v.mapped j d st p (ground arith)
      ];
      one = λ j k d d' st st' p h h'. ground (
        arith,
        v.one j k d d' st st' p,
        v.one i k c d' fetching st' p,
        v.one j i d c st fetching p,
      );
      done = λ j d p h. elim (ℕ_discrete c d) [
        | yes q ↦ (r, ground arith)
        | no n ↦ let (x, q) = v.done j d p (ground arith) in (x, ground arith)
      ];
      awaited = λ j d h.
          let (lt, o) = v.awaited j d (ground arith) in
          (
            lt,
            elim o [
              | inl (q, h') ↦ elim (ℕ_discrete c d) [
                | yes q' ↦ inl (r, ground arith)
                | no n ↦ inl (q, ground arith)
              ]
              | inr (k, p, q) ↦ elim (ℕ_discrete c d) [
                | yes q' ↦ inl (r, ground arith)
                | no n ↦ inr (k, p, ground arith)
              ]
            ],
          );
      bounded = λ d. ground (arith, v.bounded d);
    }

    pub clear-Inv :
        (i c : ℕ) (path : Str) (reply : Reply A)
        → rs i ≡ leads signalled c path
        → Inv limit (delete str_dec path m) calls next (update rs i (returned reply))
    clear-Inv i c path reply e = record {
      led = λ p d h.
          let (j, st, l) = v.led p d (ground (arith, lookup-delete {V = ℕ} str_dec p path m)) in
          (j, st, ground (arith, lookup-delete {V = ℕ} str_dec p path m));
      mapped = λ j d st p h. ground (
        arith,
        lookup-delete {V = ℕ} str_dec p path m,
        v.mapped j d st p,
        v.one i j c d signalled st path,
      );
      one = λ j k d d' st st' p h h'. ground (arith, v.one j k d d' st st' p);
      done = λ j d p h. v.done j d p (ground arith);
      awaited = λ j d h.
          let (lt, o) = v.awaited j d (ground arith) in
          (lt, elim o [ inl q ↦ inl q | inr (k, p, q) ↦ inr (k, p, ground arith) ]);
      bounded = v.bounded;
    }
