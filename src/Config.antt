-- ===== src/Config.antt =====
-- agent_pinboard/config.py: the settings of the process.
use agent_pinboard.Prelude.{ℕ, Option, none, some, if◌then◌else◌, ltb}
use agent_pinboard.Models.{Result, ok, raise, value_error}

-- _Config
pub record Config : Type 0 where
  pub tool_log_soft_limit : ℕ

abbrev pub default_config : Config
default_config = record { tool_log_soft_limit = 500 }

unfoldable pub configure : Option ℕ → Config → Result Config
configure none config = ok config
configure (some limit) config =
    if ltb limit 1 then raise value_error else ok (record config { tool_log_soft_limit = limit })
