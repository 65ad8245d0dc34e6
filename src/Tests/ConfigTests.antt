-- ===== src/Tests/ConfigTests.antt =====
-- The default configuration, and one whose status port lies in the fleet's range.
use whyrouted.Prelude.{none, ◌≡◌, ◌↔◌, refl, ok}
use whyrouted.Config.{
  Config, pos, default_config, validate, pushed, Env, load_config, read_int, read_number,
  read_strategy,
}
use whyrouted.Config.Laws.{IsUsable, validate_iff}

abbrev unset : Env
unset name = none

load_default : load_config unset ≡ ok default_config
unfolding load_config validate read_int read_number read_strategy pushed
load_default = refl

abbrev crowded : Config
crowded = record default_config { status_port = pos 8003 }

validate_iff_example : (validate crowded ≡ ok crowded) ↔ IsUsable crowded
validate_iff_example = validate_iff crowded
