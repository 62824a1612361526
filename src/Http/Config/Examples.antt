-- ===== src/Http/Config/Examples.antt =====
-- The defaults are within the limits, and a configuration that is too large together is refused.
use final_weave.Prelude.{◌≡◌, refl, ◌↔◌, none, some, pos}
use final_weave.Http.Config.{
  Config, default_config, validate, validate_timeouts, aggregate_read_buffer_too_large,
}
use final_weave.Http.Config.Limits.{IsWithinLimits, http_config_iff}

default_config_accepted : validate default_config ≡ none
unfolding validate validate_timeouts default_config
default_config_accepted = refl

http_config_iff_example : (validate default_config ≡ none) ↔ IsWithinLimits default_config
http_config_iff_example = http_config_iff default_config

abbrev oversized : Config
oversized = record {
  read_buffer_bytes = pos 65536;
  max_connections = pos 1025;
  read_timeout = pos 1;
  write_timeout = pos 1;
  idle_timeout = pos 1;
  request_timeout = pos 1;
}

oversized_refused : validate oversized ≡ some aggregate_read_buffer_too_large
unfolding validate
oversized_refused = refl
