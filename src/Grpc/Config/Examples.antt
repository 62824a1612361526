-- ===== src/Grpc/Config/Examples.antt =====
-- The defaults are within the limits; 257 streams are refused.
use final_weave.Prelude.{◌≡◌, refl, ◌↔◌, none, some, pos}
use final_weave.Grpc.Config
use final_weave.Grpc.Config.Limits.{IsWithinLimits, grpc_config_iff}

default_config_accepted : Config.validate Config.default_config ≡ none
unfolding Config.validate Config.validate_int_range Config.validate_products
    Config.validate_durations Config.validate_relations Config.default_config
default_config_accepted = refl

grpc_config_iff_example :
    (Config.validate Config.default_config ≡ none) ↔ IsWithinLimits Config.default_config
grpc_config_iff_example = grpc_config_iff Config.default_config

abbrev crowded : Config.Config
crowded = record {
  max_receive_message_bytes = pos 1;
  max_send_message_bytes = pos 524288;
  max_header_list_bytes = 65536;
  max_concurrent_streams = 256;
  unary_request_timeout = pos 1;
  max_connection_idle = pos 1;
  max_connection_age = pos 1;
  max_connection_age_grace = pos 1;
  keepalive_time = pos 1000000000;
  keepalive_timeout = pos 1;
  min_client_ping_interval = pos 10000000000;
}

crowded_refused : Config.validate crowded ≡ some Config.send_bytes_too_large
unfolding Config.validate Config.validate_int_range Config.validate_products
crowded_refused = refl
