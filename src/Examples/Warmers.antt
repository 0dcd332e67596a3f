-- ===== src/Examples/Warmers.antt =====
-- The cache warmer (internal/warming) with two places for hot paths.
use edge_cdn.Base.{ℕ, ◌≤◌, ◌≡◌, refl, ◌⊎◌, [], ◌∷◌, length, All}
use edge_cdn.Base.Text.{Str, codes}
use edge_cdn.Base.Int.{pos}
use edge_cdn.Warming.{
  PathAccess, Warmer, new_warmer, get_hot_paths, get_hot_paths_list, by_count, over_threshold,
  place, take,
}
use edge_cdn.Warming.Hot.{Stands, IsTracked, IsDescending, get_hot_paths_lem}

abbrev used : Str → ℕ → PathAccess
used p n = record { path = p; count = n; last_seen = 5; ttl = pos 10 }

abbrev busy : Warmer
busy = record (new_warmer (pos 2) (pos 3) (pos 100)) {
  accesses =
      (codes "/a", used (codes "/a") 4)
      ∷ (codes "/b", used (codes "/b") 2)
      ∷ (codes "/c", used (codes "/c") 9)
      ∷ (codes "/d", used (codes "/d") 5)
      ∷ [];
}

hot_of_busy : get_hot_paths_list (get_hot_paths busy) ≡ codes "/c" ∷ codes "/d" ∷ []
unfolding new_warmer get_hot_paths_list get_hot_paths by_count over_threshold place take
hot_of_busy = refl

get_hot_paths_lem_example :
    let hot = get_hot_paths busy in
    IsDescending hot
    × All (λ h. busy.cfg.prefetch_threshold ≤ h.count) hot
    × (length hot ≤ busy.cfg.max_prefetch_paths)
    × ((x : PathAccess)
        → IsTracked x busy.accesses
        → busy.cfg.prefetch_threshold ≤ x.count
        → Stands x hot
          ⊎ (All (λ h. x.count ≤ h.count) hot × (length hot ≡ busy.cfg.max_prefetch_paths)))
get_hot_paths_lem_example = get_hot_paths_lem busy
