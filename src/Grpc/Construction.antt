-- ===== src/Grpc/Construction.antt =====
-- pkg/api/grpcserver/server.go: `New`, with what it hands to grpc-go. A logger is nil, or points to a
-- zerolog logger that may be nil (`some none`).
pub mod Outcome
mod Examples
use Prim.Native.String.{String}
use final_weave.Prelude.{
  ℕ, Bool, true, false, Option, none, some, if◌then◌else◌, ℤ, Call, returns, panics, ◌>>=◌, ◌⊎◌,
  inl, inr,
}
use final_weave.GoInterfaces.{GoInterface, is_nil_interface}
use final_weave.Health.{Tracker, decode}
use final_weave.Log.{Logger, component}
use final_weave.Grpc.Config
use final_weave.Grpc.Interceptors.{InterceptorSet}
use final_weave.Grpc.Lifecycle.{Server, new_server}

pub data NewError : Type 0 where
  nil_root_context nil_readiness_tracker nil_logger : NewError
  invalid_config : Config.ConfigError → NewError

-- The options of `grpc.NewServer` that are not the interceptors.
pub record ServerOptions : Type 0 where
  pub max_recv_msg_size : ℤ
  pub max_send_msg_size : ℤ
  pub max_header_list_size : ℕ
  pub max_concurrent_streams : ℕ
  pub max_connection_idle : ℤ
  pub max_connection_age : ℤ
  pub max_connection_age_grace : ℤ
  pub time : ℤ
  pub timeout : ℤ
  pub min_time : ℤ
  pub permit_without_stream : Bool

-- What `New` puts together.
pub record Assembly : Type 0 where
  pub options : ServerOptions
  pub interceptors : InterceptorSet
  pub unary_timeout : ℤ
  pub logger : Logger
  pub server : Server

unfoldable pub server_options : Config.Config → ServerOptions
server_options config = record {
  max_recv_msg_size = config.max_receive_message_bytes;
  max_send_msg_size = config.max_send_message_bytes;
  max_header_list_size = Config.max_header_list_bytes;
  max_concurrent_streams = config.max_concurrent_streams;
  max_connection_idle = config.max_connection_idle;
  max_connection_age = config.max_connection_age;
  max_connection_age_grace = config.max_connection_age_grace;
  time = config.keepalive_time;
  timeout = config.keepalive_timeout;
  min_time = config.min_client_ping_interval;
  permit_without_stream = false;
}

unfoldable pub assemble : Config.Config → Tracker → Logger → Assembly
unfolding server_options new_server decode
assemble config tracker logger = record {
  options = server_options config;
  interceptors = record { metadata_limit = config.max_header_list_bytes; has_refresher = true };
  unary_timeout = config.unary_request_timeout;
  logger = logger;
  server = record new_server { tracker_ready = (decode tracker.state).ready };
}

abbrev pub refuse : NewError → Call (NewError ⊎ Assembly)
refuse e = returns (inl e)

unfoldable pub with_config :
    Option Config.ConfigError → Config.Config → Tracker → Option Logger → Call (NewError ⊎ Assembly)
unfolding assemble component
with_config (some e) config tracker logger = refuse (invalid_config e)
with_config none config tracker logger =
    component logger "grpc" >>= λ named. returns (inr (assemble config tracker named))

unfoldable pub with_logger :
    Config.Config → Tracker → Option (Option Logger) → Call (NewError ⊎ Assembly)
unfolding with_config
with_logger config tracker none = refuse nil_logger
with_logger config tracker (some logger) =
    with_config (Config.validate config) config tracker logger

unfoldable pub with_tracker :
    Config.Config → Option Tracker → Option (Option Logger) → Call (NewError ⊎ Assembly)
unfolding with_logger
with_tracker config none logger = refuse nil_readiness_tracker
with_tracker config (some tracker) logger = with_logger config tracker logger

unfoldable pub new :
    GoInterface
    → Config.Config
    → Option Tracker
    → Option (Option Logger)
    → Call (NewError ⊎ Assembly)
unfolding with_tracker is_nil_interface
new root config tracker logger =
    if is_nil_interface root then refuse nil_root_context else with_tracker config tracker logger
