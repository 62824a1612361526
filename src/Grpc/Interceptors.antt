-- ===== src/Grpc/Interceptors.antt =====
-- pkg/api/grpcserver/interceptors.go: `unary` and `stream` around a handler. The handler, the reply of
-- grpc-go to `SetHeader` and what `requestContext.Err()` answers belong to the environment and are
-- arguments; an error counts by its `status.Code` and its message. The refresher is the bridge's
-- `refresh`; what other goroutines do to the tracker and to the bridge between its read and its section,
-- and between that and the handler, is a part of the environment. The timeout of a unary request is not
-- modelled beyond what `Err()` answers, nor is the cleanup of the context.
pub mod LogVocabulary
pub mod Answers
pub mod Admission
pub mod Limit
pub mod HealthReads
mod Examples
use Prim.Native.String.{String}
use mathlib.Core.Bool.{not}
use text.Mathlib.Text.{◌==◌ as str_eq}
use final_weave.Prelude.{
  ℕ, Bool, true, false, ◌&&◌, ◌||◌, Option, none, some, List, [], ◌∷◌, ltb, if◌then◌else◌,
}
pub use final_weave.Grpc.RpcErrors.{
  code_ok, code_canceled, code_deadline_exceeded, code_resource_exhausted, code_internal, RpcError,
  code_of, internal_error, metadata_error, ContextError, canceled, deadline_exceeded,
  from_context_error,
}
use final_weave.Health.{Tracker, decode}
use final_weave.Grpc.HealthBridge.{Bridge, publish, shutdown_bridge}
use final_weave.Grpc.Metadata.{Metadata, metadata_size, request_id_from_metadata}

abbrev pub health_check_method : String
health_check_method = "/grpc.health.v1.Health/Check"

abbrev pub health_list_method : String
health_list_method = "/grpc.health.v1.Health/List"

abbrev pub health_watch_method : String
health_watch_method = "/grpc.health.v1.Health/Watch"

unfoldable pub safe_rpc_method : String → String
safe_rpc_method method =
    if str_eq method health_check_method
      || str_eq method health_list_method
      || str_eq method health_watch_method
    then method
    else "unmatched"

abbrev pub is_unary_health_method : String → Bool
is_unary_health_method method =
    str_eq method health_check_method || str_eq method health_list_method

-- A handler's end; the response is `none` if it is nil.
pub data Outcome (A : Type 0) : Type 0 where
  returned : Option A → Option RpcError → Outcome A
  panicked : Outcome A

-- A stream has no response.
pub data NoResponse : Type 0 where

pub data LogLine : Type 0 where
  request_completed : (method : String) (code : ℕ) (request_id : List ℕ) → LogLine
  request_panicked : (method : String) (request_id : List ℕ) → LogLine

-- What the RPCs of a server share, the log newest line first, and the header that this one has set.
pub record Shared : Type 0 where
  pub sequence : ℕ
  pub tracker : Tracker
  pub health : Bridge
  pub log : List LogLine
  pub header : Option (List ℕ)

pub record Rpc : Type 0 where
  pub full_method : String
  pub id_values : Option (List (List ℕ))
  pub metadata : Option Metadata

-- What other goroutines do to the tracker (a store) and to the bridge (a refresh that publishes what it
-- has read, at any time before, or the shutdown).
pub data HealthEvent : Type 0 where
  stores : ℕ → HealthEvent
  publishes : Bool → HealthEvent
  shuts_down : HealthEvent

-- Whether `SetHeader` succeeds, `requestContext.Err()` before and after the handler, and what happens
-- between the two parts of the refresh, and between the refresh and the handler.
pub record Environment : Type 0 where
  pub header_accepted : Bool
  pub before : Option ContextError
  pub after : Option ContextError
  pub before_lock : List HealthEvent
  pub before_handler : List HealthEvent

-- The fields of `interceptorSet` that the code tests.
pub record InterceptorSet : Type 0 where
  pub metadata_limit : ℕ
  pub has_refresher : Bool

abbrev pub Handler : Type 0 → Type 0
Handler A = Shared → Shared × Outcome A

abbrev pub occur : HealthEvent → Shared → Shared
occur (stores n) s = record s { tracker = record { state = n } }
occur (publishes ready) s = record s { health = publish s.health ready }
occur shuts_down s = record s { health = shutdown_bridge s.health }

unfoldable pub occur_all : List HealthEvent → Shared → Shared
occur_all [] s = s
occur_all (e ∷ events) s = occur_all events (occur e s)

-- `refresh` reads the tracker, then takes the bridge's mutex and publishes.
abbrev pub refresh : Environment → Shared → Shared
refresh env s =
    let ready = (decode s.tracker.state).ready in
    let t = occur_all env.before_lock s in
    occur_all env.before_handler (record t { health = publish t.health ready })

-- Up to the call of the handler: the header, the limit, the refresh, and the context.
unfoldable pub guarded :
    {A : Type 0}
    → InterceptorSet
    → Environment
    → Rpc
    → (health_method : Bool) → List ℕ
    → Handler A
    → Handler A
guarded set env rpc health_method id handler s =
    if not env.header_accepted
    then (s, returned none (some internal_error))
    else let t = record s { header = some id } in
      if ltb set.metadata_limit (metadata_size rpc.metadata)
      then (t, returned none (some metadata_error))
      else let u = if set.has_refresher && health_method then refresh env t else t in
        elim env.before [
          | some e ↦ (u, returned none (some (from_context_error e)))
          | none ↦ handler u
        ]

-- The test of the context after a unary handler that returned no error.
unfoldable pub after_unary : {A : Type 0} → Option ContextError → Outcome A → Outcome A
after_unary (some e) (returned response none) = returned none (some (from_context_error e))
after_unary none (returned response none) = returned response none
after_unary after (returned response (some e)) = returned response (some e)
after_unary after panicked = panicked

-- The handler and the test after it.
unfoldable pub checked : {A : Type 0} → Option ContextError → Handler A → Handler A
unfolding after_unary
checked after handler s = let (t, o) = handler s in (t, after_unary after o)

abbrev pub log_completion : String → List ℕ → ℕ → Shared → Shared
log_completion method id code s = record s { log = request_completed method code id ∷ s.log }

abbrev pub log_panic : String → List ℕ → Shared → Shared
log_panic method id s = record s { log = request_panicked method id ∷ s.log }

-- The deferred function of both interceptors.
unfoldable pub finish :
    {A : Type 0} → String → List ℕ → Shared → Outcome A → Shared × (Option A × Option RpcError)
finish method id s (returned response e) = (log_completion method id (code_of e) s, (response, e))
finish method id s panicked =
    (log_completion method id code_internal (log_panic method id s), (none, some internal_error))

unfoldable pub unary :
    {A : Type 0}
    → InterceptorSet
    → Environment
    → Rpc
    → Handler A
    → Shared
    → Shared × (Option A × Option RpcError)
unfolding guarded checked finish
unary set env rpc handler s =
    let (id, sequence) = request_id_from_metadata rpc.id_values s.sequence in
    let (t, outcome) =
      guarded set env rpc (is_unary_health_method rpc.full_method) id (checked env.after handler)
        (record s { sequence = sequence }) in
    finish (safe_rpc_method rpc.full_method) id t outcome

unfoldable pub stream :
    InterceptorSet → Environment → Rpc → Handler NoResponse → Shared → Shared × Option RpcError
unfolding guarded finish
stream set env rpc handler s =
    let (id, sequence) = request_id_from_metadata rpc.id_values s.sequence in
    let (t, outcome) =
      guarded set env rpc (str_eq rpc.full_method health_watch_method) id handler
        (record s { sequence = sequence }) in
    let (u, result) = finish (safe_rpc_method rpc.full_method) id t outcome in (u, result.1)
