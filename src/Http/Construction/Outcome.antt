-- ===== src/Http/Construction/Outcome.antt =====
-- pkg/api/httpserver/server.go: what `New` refuses, and what it builds.
use final_weave.Prelude.{
  ◌*◌, ◌≤◌, ◌≡◌, ◌≢◌, refl, true, false, Option, none, some, ◌∷◌, pos_part, InRange, returns,
  panics, ◌⊎◌, inl, inr, Bool-cases, Option-cases,
}
use final_weave.GoInterfaces.{GoInterface, is_nil_interface}
use final_weave.Health.{Tracker}
use final_weave.Log.{Logger, component}
use final_weave.Http.Config
use final_weave.Http.Config.Limits.{IsWithinLimits, http_config_iff, Violates, http_config_error}
use final_weave.Http.Lifecycle.{idle}
use final_weave.Http.Construction.{
  NewError, nil_root_context, nil_readiness_tracker, nil_logger, invalid_config, Assembly,
  fiber_config, assemble, with_config, with_logger, with_tracker, new,
}

-- What `New` may refuse with: the first argument that is wrong, or a limit that is broken.
abbrev pub Refused :
    GoInterface → Config.Config → Option Tracker → Option (Option Logger) → NewError → Type 0
Refused root config tracker logger nil_root_context = is_nil_interface root ≡ true
Refused root config tracker logger nil_readiness_tracker =
    (is_nil_interface root ≡ false) × (tracker ≡ none)
Refused root config tracker logger nil_logger =
    (is_nil_interface root ≡ false) × (tracker ≢ none) × (logger ≡ none)
Refused root config tracker logger (invalid_config e) =
    (is_nil_interface root ≡ false) × (tracker ≢ none) × (logger ≢ none) × Violates config e

-- What Fiber is told, against the limits of the process.
pub record IsBounded (a : Assembly) : Type 0 where
  pub one_buffer : a.fiber.body_limit ≡ a.fiber.read_buffer_size
  pub buffers :
      pos_part a.fiber.concurrency * pos_part a.fiber.read_buffer_size
      ≤ Config.max_aggregate_read_buffer_size
  pub reads : InRange 1 Config.max_timeout a.fiber.read_timeout
  pub writes : InRange 1 Config.max_timeout a.fiber.write_timeout
  pub idles : InRange 1 Config.max_timeout a.fiber.idle_timeout
  pub requests : InRange 1 Config.max_timeout a.request_timeout

-- A server that has not started, and whose first request ID is still to come.
pub record IsFresh (a : Assembly) : Type 0 where
  pub idle_state : a.server.state ≡ idle
  pub no_id : a.request_ids ≡ 0
  pub get_only : a.fiber.get_only ≡ true

assemble-IsBounded :
    (config : Config.Config) (tracker : Tracker) (logger : Logger)
    → IsWithinLimits config
    → IsBounded (assemble config tracker logger)
unfolding assemble fiber_config
assemble-IsBounded config tracker logger v = record {
  one_buffer = refl;
  buffers = v.buffers;
  reads = v.read;
  writes = v.write;
  idles = v.idle;
  requests = v.request;
}

assemble-IsFresh :
    (config : Config.Config) (tracker : Tracker) (logger : Logger)
    → IsFresh (assemble config tracker logger)
unfolding assemble fiber_config
assemble-IsFresh config tracker logger = record { idle_state = refl; no_id = refl; get_only = refl }

-- The three ways in which `New` ends.
abbrev pub Outcome : GoInterface → Config.Config → Option Tracker → Option (Option Logger) → Type 0
Outcome root config tracker logger =
    ((e : NewError) × (new root config tracker logger ≡ returns (inl e))
      × Refused root config tracker logger e)
    ⊎ ((a : Assembly) × (new root config tracker logger ≡ returns (inr a))
        × IsWithinLimits config
        × IsBounded a
        × IsFresh a)
    ⊎ ((logger ≡ some none) × (new root config tracker logger ≡ panics))

with_config_outcome :
    (root : GoInterface) (config : Config.Config) (t : Tracker) (logger : Option Logger)
    → is_nil_interface root ≡ false
    → Outcome root config (some t) (some logger)
unfolding new with_tracker with_logger with_config component
with_config_outcome root config t logger real = elim (Option-cases (Config.validate config)) [
  | inr (e, bad) ↦ inl (
    invalid_config e,
    rw (real, bad) refl,
    (real, (λ h. cc), (λ h. cc), http_config_error config e bad),
  )
  | inl good ↦ built logger good
]
  where
    built :
        (l : Option Logger) → Config.validate config ≡ none → Outcome root config (some t) (some l)
    built none good = inr (inr (refl, rw (real, good) refl))
    built (some l) good =
        let named = record l { components = "http" ∷ l.components } in
        let limits = (http_config_iff config).0 good in
        inr (
          inl (
            assemble config t named,
            rw (real, good) refl,
            limits,
            assemble-IsBounded config t named limits,
            assemble-IsFresh config t named,
          ))

-- `New` refuses with the first argument that is nil, or with a limit that the configuration breaks; or
-- it builds a server that has not started, for a configuration within the limits, and what Fiber is
-- told keeps within the limits of the process; or it panics, for a logger that neither NewLogger nor
-- NopLogger made.
pub http_new_outcome :
    (root : GoInterface) (config : Config.Config) (tracker : Option Tracker)
    (logger : Option (Option Logger))
    → Outcome root config tracker logger
unfolding new with_tracker with_logger
http_new_outcome root config tracker logger = elim (Bool-cases (is_nil_interface root)) [
  | inl no_root ↦ inl (nil_root_context, rw no_root refl, no_root)
  | inr real ↦ given tracker logger real
]
  where
    given :
        (t : Option Tracker) (l : Option (Option Logger))
        → is_nil_interface root ≡ false
        → Outcome root config t l
    given none l real = inl (nil_readiness_tracker, rw real refl, (real, refl))
    given (some t) none real = inl (nil_logger, rw real refl, (real, (λ h. cc), refl))
    given (some t) (some l) real = with_config_outcome root config t l real
