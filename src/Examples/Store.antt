-- ===== src/Examples/Store.antt =====
-- A server that keeps its promises: a map from a key to its value and the end of its life.
use edge_cdn.Base.{
  ℕ, ◌≡◌, ◌≤◌, inl, inr, Option-cases, false, Option, none, some, List, if◌then◌else◌, length,
  arith,
}
use edge_cdn.Base.Text.{Str, str_dec}
use edge_cdn.Base.Int.{ℤ}
use edge_cdn.Base.Maps.{lookup, insert, delete, lookup-insert, lookup-delete}
use edge_cdn.Cache.Recency.{expired, expiry}
use edge_cdn.Cache.Redis.{Redis, IsRedis}

abbrev pub Held : Type 0
Held = Str × Option ℕ

abbrev pub alive_at : ℕ → Option Held → Option Str
alive_at now none = none
alive_at now (some (v, t)) = if expired now t then none else some v

abbrev pub toy_redis : Redis
toy_redis = record {
  Store = List (Str × Held);
  read = λ now k s. alive_at now (lookup str_dec k s);
  write = λ now k v ttl s. insert str_dec k (v, expiry now ttl) s;
  remove = λ k s. delete str_dec k s;
  size = λ s. length s;
}

read_write_toy :
    (now later : ℕ) (k v : Str) (ttl : ℤ) (s : List (Str × Held))
    → expired later (expiry now ttl) ≡ false
    → alive_at later (lookup str_dec k (insert str_dec k (v, expiry now ttl) s)) ≡ some v
read_write_toy now later k v ttl s alive =
    ground (arith, lookup-insert {V = Held} str_dec k k (v, expiry now ttl) s)

read_remove_toy :
    (now : ℕ) (k : Str) (s : List (Str × Held))
    → alive_at now (lookup str_dec k (delete str_dec k s)) ≡ none
read_remove_toy now k s = ground (arith, lookup-delete {V = Held} str_dec k k s)

read_absent_toy :
    (now later : ℕ) (k : Str) (s : List (Str × Held))
    → now ≤ later
    → alive_at now (lookup str_dec k s) ≡ none
    → alive_at later (lookup str_dec k s) ≡ none
read_absent_toy now later k s le gone = elim (Option-cases (lookup str_dec k s)) [
  | inl e ↦ ground (arith, e)
  | inr ((v, none), e) ↦ absurd (ground (arith, e, gone))
  | inr ((v, some t), e) ↦ ground (arith, e, gone, le)
]

pub toy_redis-IsRedis : IsRedis toy_redis
toy_redis-IsRedis = record {
  read_write = λ now later k v ttl s lives alive. read_write_toy now later k v ttl s alive;
  read_remove = λ now k s. read_remove_toy now k s;
  read_absent = λ now later k s le gone. read_absent_toy now later k s le gone;
}
