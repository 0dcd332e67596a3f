-- ===== src/Command/Launch.antt =====
-- cmd/router/main.go, `main`: what it reads from the environment before it starts the handler and the
-- server. The environment is the parameter `env`, with `""` for a missing variable.
use edge_cdn.Base.{ℕ, Bool, ◌∷◌, if◌then◌else◌, length, ◌==◌}
use edge_cdn.Base.Text.{Str, codes}
use edge_cdn.Base.Bytes.{to_lower}
use edge_cdn.Origin.{is_text}
use edge_cdn.Command.{get_env}

pub data Level : Type 0 where
  debug info warn error : Level

-- The lower-case text of `LOG_LEVEL` as a level.
unfoldable pub level_of : Str → Level
level_of s =
    if is_text s (codes "debug")
    then debug
    else if is_text s (codes "warn")
    then warn
    else if is_text s (codes "error")
    then error
    else info

unfoldable pub mode_string : Bool → Str
mode_string is_gateway = if is_gateway then codes "gateway" else codes "edge"

-- The settings of the logger and of the server; the timeouts are seconds.
pub record Launch : Type 0 where
  pub log_level : Level
  pub json_logs : Bool
  pub is_gateway : Bool
  pub addr : Str
  pub read_timeout : ℕ
  pub write_timeout : ℕ
  pub idle_timeout : ℕ

unfoldable pub launch : (Str → Str) → Launch
unfolding level_of
launch env = record {
  log_level =
      if length (env (codes "LOG_LEVEL")) == 0
      then info
      else level_of (to_lower (env (codes "LOG_LEVEL")));
  json_logs = is_text (env (codes "LOG_FORMAT")) (codes "json");
  is_gateway = is_text (env (codes "IS_GATEWAY")) (codes "true");
  addr = b':' ∷ get_env env (codes "PORT") (codes "8080");
  read_timeout = 10;
  write_timeout = 30;
  idle_timeout = 120;
}
