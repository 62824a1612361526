-- ===== src/Http/Construction.antt =====
-- pkg/api/httpserver/server.go: `New`, with what it hands to Fiber. A logger is nil, or points to a
-- zerolog logger that may be nil (`some none`). The middlewares that it installs are `app` of
-- Http/Pipeline.
pub mod Outcome
mod Examples
use Prim.Native.String.{String}
use final_weave.Prelude.{
  ℕ, Bool, true, Option, none, some, if◌then◌else◌, ℤ, Call, returns, panics, ◌>>=◌, ◌⊎◌, inl, inr,
}
use final_weave.GoInterfaces.{GoInterface, is_nil_interface}
use final_weave.Health.{Tracker}
use final_weave.Log.{Logger, component}
use final_weave.Http.Config
use final_weave.Http.Lifecycle.{Server, new_server}

pub data NewError : Type 0 where
  nil_root_context nil_readiness_tracker nil_logger : NewError
  invalid_config : Config.ConfigError → NewError

-- `fiber.Config`, without its error handler.
pub record FiberConfig : Type 0 where
  pub server_header : String
  pub strict_routing : Bool
  pub case_sensitive : Bool
  pub disable_head_auto_register : Bool
  pub body_limit : ℤ
  pub concurrency : ℤ
  pub get_only : Bool
  pub read_timeout : ℤ
  pub write_timeout : ℤ
  pub idle_timeout : ℤ
  pub read_buffer_size : ℤ

-- What `New` puts together.
pub record Assembly : Type 0 where
  pub fiber : FiberConfig
  pub request_timeout : ℤ
  pub tracker : Tracker
  pub logger : Logger
  pub request_ids : ℕ
  pub server : Server

unfoldable pub fiber_config : Config.Config → FiberConfig
fiber_config config = record {
  server_header = "";
  strict_routing = true;
  case_sensitive = true;
  disable_head_auto_register = true;
  body_limit = config.read_buffer_bytes;
  concurrency = config.max_connections;
  get_only = true;
  read_timeout = config.read_timeout;
  write_timeout = config.write_timeout;
  idle_timeout = config.idle_timeout;
  read_buffer_size = config.read_buffer_bytes;
}

unfoldable pub assemble : Config.Config → Tracker → Logger → Assembly
unfolding fiber_config
assemble config tracker logger = record {
  fiber = fiber_config config;
  request_timeout = config.request_timeout;
  tracker = tracker;
  logger = logger;
  request_ids = 0;
  server = new_server;
}

abbrev pub refuse : NewError → Call (NewError ⊎ Assembly)
refuse e = returns (inl e)

unfoldable pub with_config :
    Option Config.ConfigError → Config.Config → Tracker → Option Logger → Call (NewError ⊎ Assembly)
unfolding assemble component
with_config (some e) config tracker logger = refuse (invalid_config e)
with_config none config tracker logger =
    component logger "http" >>= λ named. returns (inr (assemble config tracker named))

unfoldable pub with_logger :
    Config.Config → Tracker → Option (Option Logger) → Call (NewError ⊎ Assembly)
unfolding with_config
with_logger config tracker none = refuse nil_logger
with_logger config tracker (some logger) =
    with_config (Config.validate config) config tracker logger

unfoldable pub with_tracker :
    Config.Config → Option Tracker → Option (Option Logger) → Call (NewError ⊎ Assembly)
unfolding with_logger
with_tracker config none logger = refuse nil_readiness_tracker
with_tracker config (some tracker) logger = with_logger config tracker logger

unfoldable pub new :
    GoInterface
    → Config.Config
    → Option Tracker
    → Option (Option Logger)
    → Call (NewError ⊎ Assembly)
unfolding with_tracker is_nil_interface
new root config tracker logger =
    if is_nil_interface root then refuse nil_root_context else with_tracker config tracker logger
