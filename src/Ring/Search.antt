-- ===== src/Ring/Search.antt =====
-- `sort.Search` of Go's standard library, by which `GetNode` finds the first point at or after a
-- hash. The gap `j - i` falls in every round, so `n` rounds are enough.
use edge_cdn.Base.{ℕ, zero, suc, ◌+◌, ◌/◌, ◌≤◌, ◌<◌, ◌≡◌, Bool, true, false, arith, ltb}

unfoldable pub search_loop : ℕ → (ℕ → Bool) → ℕ → ℕ → ℕ
search_loop zero f i j = i
search_loop (suc k) f i j = elim (ltb i j) [
  | true ↦ elim (f ((i + j) / 2)) [
    | true ↦ search_loop k f i ((i + j) / 2)
    | false ↦ search_loop k f ((i + j) / 2 + 1) j
  ]
  | false ↦ i
]

unfoldable pub search : ℕ → (ℕ → Bool) → ℕ
unfolding search_loop
search n f = search_loop n f 0 n

module _ (f : ℕ → Bool) (n r : ℕ) (below : (m : ℕ) → m < r → f m ≡ false)
    (above : (m : ℕ) → r ≤ m → m < n → f m ≡ true) where
  search_loop-eq : (k i j : ℕ) → i ≤ r → r ≤ j → j ≤ n → j ≤ i + k → search_loop k f i j ≡ r
  unfolding search_loop
  search_loop-eq zero i j h₁ h₂ h₃ h₄ = omega arith
  search_loop-eq (suc k) i j h₁ h₂ h₃ h₄ = ground (
    arith,
    below ((i + j) / 2),
    above ((i + j) / 2),
    search_loop-eq k i ((i + j) / 2),
    search_loop-eq k ((i + j) / 2 + 1) j,
  )

  -- A test that is false below `r` and true from `r` on is first true at `r`, and `search`
  -- returns `r`.
  pub search-eq : r ≤ n → search n f ≡ r
  unfolding search
  search-eq h = search_loop-eq n 0 n (omega arith) h (omega arith) (omega arith)
