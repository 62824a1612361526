-- ===== src/Http/Config.antt =====
-- pkg/api/httpserver/server.go: `Config`, `DefaultConfig` and `validate`. Durations are nanoseconds.
-- The `uint64` conversions stand behind tests that the value is positive.
pub mod Limits
mod Examples
use Prim.Native.String.{String}
use final_weave.Prelude.{
  ◌*◌, ◌/◌, ◌^◌, ℕ, Option, none, List, [], ◌∷◌, leb, ℤ, pos, in_positive_range, uint64, second,
  minute, require,
}

abbrev pub max_read_buffer : ℕ
max_read_buffer = 64 * 2 ^ 10

abbrev pub max_connections : ℕ
max_connections = 65536

abbrev pub max_aggregate_read_buffer_size : ℕ
max_aggregate_read_buffer_size = 64 * 2 ^ 20

abbrev pub max_timeout : ℕ
max_timeout = 10 * minute

pub record Config : Type 0 where
  pub read_buffer_bytes : ℤ
  pub max_connections : ℤ
  pub read_timeout : ℤ
  pub write_timeout : ℤ
  pub idle_timeout : ℤ
  pub request_timeout : ℤ

unfoldable pub default_config : Config
default_config = record {
  read_buffer_bytes = pos (16 * 2 ^ 10);
  max_connections = pos 1024;
  read_timeout = pos (10 * second);
  write_timeout = pos (10 * second);
  idle_timeout = pos (2 * minute);
  request_timeout = pos (10 * second);
}

-- The errors of `validate`; each wraps `ErrInvalidConfig`.
pub data ConfigError : Type 0 where
  read_buffer_bytes_out_of_range : ConfigError
  max_connections_out_of_range : ConfigError
  aggregate_read_buffer_too_large : ConfigError
  timeout_out_of_range : String → ConfigError

-- The loop over `timeouts`.
unfoldable pub validate_timeouts : List (String × ℤ) → Option ConfigError
validate_timeouts [] = none
validate_timeouts ((name, value) ∷ rest) =
    require (in_positive_range max_timeout value) (timeout_out_of_range name)
      (validate_timeouts rest)

abbrev pub timeouts : Config → List (String × ℤ)
timeouts c =
    ("ReadTimeout", c.read_timeout)
    ∷ ("WriteTimeout", c.write_timeout)
    ∷ ("IdleTimeout", c.idle_timeout)
    ∷ ("RequestTimeout", c.request_timeout)
    ∷ []

unfoldable pub validate : Config → Option ConfigError
validate c =
    require (in_positive_range max_read_buffer c.read_buffer_bytes) read_buffer_bytes_out_of_range (
      require (in_positive_range max_connections c.max_connections) max_connections_out_of_range (
        require
          (leb (uint64 c.max_connections)
            (max_aggregate_read_buffer_size / uint64 c.read_buffer_bytes))
          aggregate_read_buffer_too_large (validate_timeouts (timeouts c))))
