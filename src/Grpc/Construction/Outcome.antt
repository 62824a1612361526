-- ===== src/Grpc/Construction/Outcome.antt =====
-- pkg/api/grpcserver/server.go: what `New` refuses, and what it builds.
use final_weave.Prelude.{
  ◌*◌, ◌≤◌, ◌≡◌, ◌≢◌, refl, true, false, Option, none, some, [], ◌∷◌, pos_part, returns, panics,
  ◌⊎◌, inl, inr, arith, Bool-cases, Option-cases,
}
use final_weave.GoInterfaces.{GoInterface, is_nil_interface}
use final_weave.Health.{Tracker}
use final_weave.Log.{Logger, component}
use final_weave.Grpc.Config
use final_weave.Grpc.Config.Limits.{IsWithinLimits, grpc_config_iff}
use final_weave.Grpc.Config.Errors.{Violates, grpc_config_error}
use final_weave.Grpc.HealthBridge.{set_serving_status, new_bridge}
use final_weave.Grpc.Lifecycle.{idle, new_server}
use final_weave.Grpc.Construction.{
  NewError, nil_root_context, nil_readiness_tracker, nil_logger, invalid_config, Assembly,
  server_options, assemble, with_config, with_logger, with_tracker, new,
}

-- What `New` may refuse with: the first argument that is wrong, or a limit that is broken.
abbrev pub Refused :
    GoInterface → Config.Config → Option Tracker → Option (Option Logger) → NewError → Type 0
Refused root config tracker logger nil_root_context = is_nil_interface root ≡ true
Refused root config tracker logger nil_readiness_tracker =
    (is_nil_interface root ≡ false) × (tracker ≡ none)
Refused root config tracker logger nil_logger =
    (is_nil_interface root ≡ false) × (tracker ≢ none) × (logger ≡ none)
Refused root config tracker logger (invalid_config e) =
    (is_nil_interface root ≡ false) × (tracker ≢ none) × (logger ≢ none) × Violates config e

-- What grpc-go and the interceptors are told, against the limits on one connection.
pub record IsBounded (a : Assembly) : Type 0 where
  pub header : a.interceptors.metadata_limit ≤ a.options.max_header_list_size
  pub some_metadata : Config.min_application_metadata_bytes ≤ a.interceptors.metadata_limit
  pub some_stream : 1 ≤ a.options.max_concurrent_streams
  pub receive :
      pos_part a.options.max_recv_msg_size * a.options.max_concurrent_streams
      ≤ Config.max_per_connection_receive_bytes
  pub send :
      pos_part a.options.max_send_msg_size * a.options.max_concurrent_streams
      ≤ Config.max_per_connection_send_bytes
  pub headers :
      a.options.max_header_list_size * a.options.max_concurrent_streams
      ≤ Config.max_per_connection_header_bytes

-- A server that has not started: idle, and its health server told NOT_SERVING and nothing else.
pub record IsFresh (a : Assembly) : Type 0 where
  pub idle_state : a.server.state ≡ idle
  pub not_serving : a.server.health.calls ≡ set_serving_status false ∷ []
  pub refreshed : a.interceptors.has_refresher ≡ true

assemble-IsBounded :
    (config : Config.Config) (tracker : Tracker) (logger : Logger)
    → IsWithinLimits config
    → IsBounded (assemble config tracker logger)
unfolding assemble server_options
assemble-IsBounded config tracker logger v = record {
  header = v.header_high;
  some_metadata = v.header_low;
  some_stream = v.some_stream;
  receive = v.receive_total;
  send = v.send_total;
  headers = omega (arith, v.streams);
}

assemble-IsFresh :
    (config : Config.Config) (tracker : Tracker) (logger : Logger)
    → IsFresh (assemble config tracker logger)
unfolding assemble new_server new_bridge
assemble-IsFresh config tracker logger = record {
  idle_state = refl;
  not_serving = refl;
  refreshed = refl;
}

-- The three ways in which `New` ends.
abbrev pub Outcome : GoInterface → Config.Config → Option Tracker → Option (Option Logger) → Type 0
Outcome root config tracker logger =
    ((e : NewError) × (new root config tracker logger ≡ returns (inl e))
      × Refused root config tracker logger e)
    ⊎ ((a : Assembly) × (new root config tracker logger ≡ returns (inr a))
        × IsWithinLimits config
        × IsBounded a
        × IsFresh a)
    ⊎ ((logger ≡ some none) × (new root config tracker logger ≡ panics))

with_config_outcome :
    (root : GoInterface) (config : Config.Config) (t : Tracker) (logger : Option Logger)
    → is_nil_interface root ≡ false
    → Outcome root config (some t) (some logger)
unfolding new with_tracker with_logger with_config component
with_config_outcome root config t logger real = elim (Option-cases (Config.validate config)) [
  | inr (e, bad) ↦ inl (
    invalid_config e,
    rw (real, bad) refl,
    (real, (λ h. cc), (λ h. cc), grpc_config_error config e bad),
  )
  | inl good ↦ built logger good
]
  where
    built :
        (l : Option Logger) → Config.validate config ≡ none → Outcome root config (some t) (some l)
    built none good = inr (inr (refl, rw (real, good) refl))
    built (some l) good =
        let named = record l { components = "grpc" ∷ l.components } in
        let limits = (grpc_config_iff config).0 good in
        inr (
          inl (
            assemble config t named,
            rw (real, good) refl,
            limits,
            assemble-IsBounded config t named limits,
            assemble-IsFresh config t named,
          ))

-- `New` refuses with the first argument that is nil, or with a limit that the configuration breaks; or
-- it builds a server that has not started and reports NOT_SERVING, for a configuration within the
-- limits, and what grpc-go and the interceptors are told keeps within the limits of a connection; or
-- it panics, for a logger that neither NewLogger nor NopLogger made.
pub grpc_new_outcome :
    (root : GoInterface) (config : Config.Config) (tracker : Option Tracker)
    (logger : Option (Option Logger))
    → Outcome root config tracker logger
unfolding new with_tracker with_logger
grpc_new_outcome root config tracker logger = elim (Bool-cases (is_nil_interface root)) [
  | inl no_root ↦ inl (nil_root_context, rw no_root refl, no_root)
  | inr real ↦ given tracker logger real
]
  where
    given :
        (t : Option Tracker) (l : Option (Option Logger))
        → is_nil_interface root ≡ false
        → Outcome root config t l
    given none l real = inl (nil_readiness_tracker, rw real refl, (real, refl))
    given (some t) none real = inl (nil_logger, rw real refl, (real, (λ h. cc), refl))
    given (some t) (some l) real = with_config_outcome root config t l real
