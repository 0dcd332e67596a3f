-- ===== src/Examples/Labels.antt =====
-- The labels of paths (internal/metrics).
use edge_cdn.Base.{◌≡◌, refl}
use edge_cdn.Base.Text.{str_dec, codes}
use edge_cdn.Metrics.{split_loop, split_path, label_loop, normalize_path}

label_of_image : normalize_path (codes "/static/img/logo/a.png") ≡ codes "/static/img/*"
unfolding normalize_path split_path split_loop label_loop str_dec
label_of_image = refl
