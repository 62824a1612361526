-- ===== src/Grpc/Interceptors/Examples.antt =====
-- A Check of the health service, an RPC with too much metadata, and handlers that panic, as in
-- pkg/api/grpcserver/server_test.go.
use mathlib.Core.Bool.{not}
use final_weave.Prelude.{
  false, ◌⊎◌, ◌<◌, ◌≤◌, ℕ, ◌≡◌, ◌&&◌, refl, Bool, true, none, some, [], ◌∷◌, arith,
}
use final_weave.Health.{decode, state_ready, state_draining}
use final_weave.Grpc.HealthBridge.{new_bridge}
use final_weave.Grpc.HealthBridge.Status.{keeps_status, status, new_bridge-IsOrderly}
use final_weave.Grpc.Metadata.{Metadata, metadata_size, add_fields, saturating_add}
use final_weave.Grpc.Interceptors.{
  request_panicked, stores, publishes, Rpc, Environment, InterceptorSet, Shared, Handler, returned,
  panicked, NoResponse, internal_error, health_check_method, unary, stream,
}
use final_weave.Grpc.Interceptors.Answers.{Completed, grpc_every_rpc_answered}
use final_weave.Grpc.Metadata.Size.{header_list_size}
use final_weave.Grpc.Interceptors.Admission.{
  IsAdmitted, unary_state, stream_state, panic_lines, grpc_panics_contained,
}
use final_weave.Grpc.Interceptors.Limit.{IsRefused, unlimited, grpc_metadata_limited}
use final_weave.Grpc.Interceptors.HealthReads.{last_published, stopped_by, grpc_health_read}

abbrev calm : Environment
calm = record {
  header_accepted = true;
  before = none;
  after = none;
  before_lock = [];
  before_handler = [];
}

abbrev limit : ℕ → InterceptorSet
limit n = record { metadata_limit = n; has_refresher = true }

-- "k" with the value "v"
abbrev small : Metadata
small = ((b'k' ∷ []), (b'v' ∷ []) ∷ []) ∷ []

abbrev check : Rpc
check = record {
  full_method = health_check_method;
  id_values = some ((b'a' ∷ b'1' ∷ []) ∷ []);
  metadata = some small;
}

abbrev start : Shared
start = record {
  sequence = 0;
  tracker = record { state = state_ready };
  health = new_bridge;
  log = [];
  header = none;
}

abbrev reads : Handler Bool
reads s = (s, returned (some (status s.health.calls)) none)

-- A handler that logs and then panics.
abbrev explodes : Handler Bool
explodes s = (record s { log = request_panicked "inner" [] ∷ s.log }, panicked)

abbrev stream_explodes : Handler NoResponse
stream_explodes s = (s, panicked)

small_size : metadata_size (some small) ≡ 34
unfolding metadata_size add_fields saturating_add
small_size = refl

admitted : IsAdmitted (limit 1024) calm check
admitted = record { accepted = refl; fits = omega (arith, small_size); alive = refl }

grpc_every_rpc_answered_example :
    Completed check 0
      (unary (limit 1024) calm check reads start).0
      (unary (limit 1024) calm check reads start).1.1
    × Completed check 0
        (stream (limit 1024) calm check stream_explodes start).0
        (stream (limit 1024) calm check stream_explodes start).1
grpc_every_rpc_answered_example =
    grpc_every_rpc_answered (limit 1024) calm check reads stream_explodes start

abbrev watches : Handler NoResponse
watches s = (s, returned none none)

grpc_metadata_limited_example :
    ((33 < header_list_size small)
      × (unary (limit 33) calm check reads start ≡ unary (limit 33) calm check explodes start)
      × (stream (limit 33) calm check watches start
          ≡ stream (limit 33) calm check stream_explodes start)
      × IsRefused calm start
          (unary (limit 33) calm check reads start)
          (stream (limit 33) calm check watches start))
    ⊎ ((header_list_size small ≤ 33)
        × (unary (limit 33) calm check reads start
            ≡ unary (unlimited (limit 33)) calm check reads start)
        × (stream (limit 33) calm check watches start
            ≡ stream (unlimited (limit 33)) calm check watches start))
grpc_metadata_limited_example =
    grpc_metadata_limited (limit 33) calm check small reads explodes watches stream_explodes start
      (omega arith) refl (omega arith)

grpc_panics_contained_example :
    ((unary (limit 1024) calm check explodes start).1 ≡ (none, some internal_error))
    × ((stream (limit 1024) calm check stream_explodes start).1 ≡ some internal_error)
    × ((unary (limit 1024) calm check explodes start).0.log
        ≡ panic_lines check start (explodes (unary_state (limit 1024) calm check start)).0.log)
    × ((stream (limit 1024) calm check stream_explodes start).0.log
        ≡ panic_lines check start
            (stream_explodes (stream_state (limit 1024) calm check start)).0.log)
grpc_panics_contained_example =
    grpc_panics_contained (limit 1024) calm check explodes stream_explodes start admitted refl refl

-- The tracker falls after the RPC's refresh has read it, and a refresh that sees this publishes before
-- the handler runs.
abbrev busy : Environment
busy = record calm {
  before_lock = stores state_draining ∷ [];
  before_handler = publishes false ∷ [];
}

admitted_when_busy : IsAdmitted (limit 1024) busy check
admitted_when_busy = record { accepted = refl; fits = omega (arith, small_size); alive = refl }

grpc_health_read_example : (unary (limit 1024) busy check reads start).1 ≡ (
  some (
      not (stopped_by (stopped_by new_bridge.stopped busy.before_lock) busy.before_handler)
      && last_published (decode state_ready).ready busy.before_handler),
  none,
)
grpc_health_read_example =
    grpc_health_read keeps_status (limit 1024) busy check reads start admitted_when_busy refl refl
      refl new_bridge-IsOrderly refl
