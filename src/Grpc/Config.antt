-- ===== src/Grpc/Config.antt =====
-- pkg/api/grpcserver/config.go: `Config`, `DefaultConfig` and `validate`. A `uint32` is a number,
-- an `int` and a `time.Duration` (in nanoseconds) a signed integer.
pub mod Limits
pub mod Errors
mod Examples
use Prim.Native.String.{String}
use final_weave.Prelude.{
  ℕ, ◌*◌, ◌/◌, ◌^◌, Bool, ◌&&◌, Option, none, List, [], ◌∷◌, leb, ltb, ◌==◌, if◌then◌else◌, ℤ, pos,
  leb_ℤ, ltb_ℤ, in_range, in_positive_range, uint64, second, minute, hour, require, and_then, eqb_ℤ,
}

abbrev pub max_message_bytes : ℕ
max_message_bytes = 16 * 2 ^ 20

abbrev pub min_application_metadata_bytes : ℕ
min_application_metadata_bytes = 2 ^ 10

abbrev pub max_header_list_bytes : ℕ
max_header_list_bytes = 64 * 2 ^ 10

abbrev pub max_per_connection_receive_bytes : ℕ
max_per_connection_receive_bytes = 64 * 2 ^ 20

abbrev pub max_per_connection_send_bytes : ℕ
max_per_connection_send_bytes = 64 * 2 ^ 20

abbrev pub max_per_connection_header_bytes : ℕ
max_per_connection_header_bytes = 16 * 2 ^ 20

abbrev pub max_concurrent_streams : ℕ
max_concurrent_streams = max_per_connection_header_bytes / max_header_list_bytes

abbrev pub max_unary_request_timeout : ℕ
max_unary_request_timeout = 10 * minute

abbrev pub max_connection_idle : ℕ
max_connection_idle = hour

abbrev pub max_connection_age : ℕ
max_connection_age = 24 * hour

abbrev pub max_connection_age_grace : ℕ
max_connection_age_grace = 10 * minute

abbrev pub max_keepalive_time : ℕ
max_keepalive_time = hour

abbrev pub max_keepalive_timeout : ℕ
max_keepalive_timeout = minute

abbrev pub max_client_ping_interval : ℕ
max_client_ping_interval = hour

pub record Config : Type 0 where
  pub max_receive_message_bytes : ℤ
  pub max_send_message_bytes : ℤ
  pub max_header_list_bytes : ℕ  -- uint32
  pub max_concurrent_streams : ℕ  -- uint32
  pub unary_request_timeout : ℤ
  pub max_connection_idle : ℤ
  pub max_connection_age : ℤ
  pub max_connection_age_grace : ℤ
  pub keepalive_time : ℤ
  pub keepalive_timeout : ℤ
  pub min_client_ping_interval : ℤ

unfoldable pub default_config : Config
default_config = record {
  max_receive_message_bytes = pos (64 * 2 ^ 10);
  max_send_message_bytes = pos (64 * 2 ^ 10);
  max_header_list_bytes = 16 * 2 ^ 10;
  max_concurrent_streams = 128;
  unary_request_timeout = pos (10 * second);
  max_connection_idle = pos (2 * minute);
  max_connection_age = pos (30 * minute);
  max_connection_age_grace = pos (30 * second);
  keepalive_time = pos (2 * minute);
  keepalive_timeout = pos (10 * second);
  min_client_ping_interval = pos (30 * second);
}

-- The errors of `validate`; each wraps `ErrInvalidConfig`.
pub data ConfigError : Type 0 where
  int_out_of_range : String → ConfigError
  header_list_out_of_range : ConfigError
  streams_out_of_range : ConfigError
  receive_bytes_too_large : ConfigError
  send_bytes_too_large : ConfigError
  header_bytes_too_large : ConfigError
  duration_out_of_range : String → ConfigError
  age_grace_exceeds_age : ConfigError
  keepalive_timeout_not_less : ConfigError

unfoldable pub validate_int_range : String → ℤ → ℕ → Option ConfigError
validate_int_range name value maximum =
    require (in_positive_range maximum value) (int_out_of_range name) none

-- An entry of `durations`; a minimum of 0 stands for one nanosecond.
pub record Duration : Type 0 where
  pub name : String
  pub value : ℤ
  pub maximum : ℕ
  pub minimum : ℕ

abbrev pub least : Duration → ℕ
least d = if d.minimum == 0 then 1 else d.minimum

-- The loop over `durations`.
unfoldable pub validate_durations : List Duration → Option ConfigError
validate_durations [] = none
validate_durations (d ∷ rest) =
    require (in_range (least d) d.maximum d.value) (duration_out_of_range d.name)
      (validate_durations rest)

abbrev entry : String → ℤ → ℕ → ℕ → Duration
entry name value maximum minimum = record {
  name = name;
  value = value;
  maximum = maximum;
  minimum = minimum;
}

abbrev pub durations : Config → List Duration
durations c =
    entry "UnaryRequestTimeout" c.unary_request_timeout max_unary_request_timeout 0
    ∷ entry "MaxConnectionIdle" c.max_connection_idle max_connection_idle 0
    ∷ entry "MaxConnectionAge" c.max_connection_age max_connection_age 0
    ∷ entry "MaxConnectionAgeGrace" c.max_connection_age_grace max_connection_age_grace 0
    ∷ entry "KeepaliveTime" c.keepalive_time max_keepalive_time second
    ∷ entry "KeepaliveTimeout" c.keepalive_timeout max_keepalive_timeout 0
    ∷ entry "MinClientPingInterval" c.min_client_ping_interval max_client_ping_interval
        (10 * second)
    ∷ []

-- The last two tests, which relate durations to one another.
unfoldable pub validate_relations : Config → Option ConfigError
validate_relations c =
    require (leb_ℤ c.max_connection_age_grace c.max_connection_age) age_grace_exceeds_age
      (require (ltb_ℤ c.keepalive_timeout c.keepalive_time) keepalive_timeout_not_less none)

-- The limits on one connection: a size times the streams, tested by a division.
unfoldable pub validate_products : Config → Option ConfigError
validate_products c =
    let streams = c.max_concurrent_streams in
    require (leb (uint64 c.max_receive_message_bytes) (max_per_connection_receive_bytes / streams))
      receive_bytes_too_large
      (require (leb (uint64 c.max_send_message_bytes) (max_per_connection_send_bytes / streams))
        send_bytes_too_large
        (require (leb c.max_header_list_bytes (max_per_connection_header_bytes / streams))
          header_bytes_too_large none))

unfoldable pub validate : Config → Option ConfigError
validate c =
    and_then
      (validate_int_range "MaxReceiveMessageBytes" c.max_receive_message_bytes max_message_bytes)
      (and_then
        (validate_int_range "MaxSendMessageBytes" c.max_send_message_bytes max_message_bytes)
        (require
          (leb min_application_metadata_bytes c.max_header_list_bytes
            && leb c.max_header_list_bytes max_header_list_bytes)
          header_list_out_of_range
          (require
            (ltb 0 c.max_concurrent_streams && leb c.max_concurrent_streams max_concurrent_streams)
            streams_out_of_range
            (and_then (validate_products c)
              (and_then (validate_durations (durations c)) (validate_relations c))))))
