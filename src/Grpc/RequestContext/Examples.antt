-- ===== src/Grpc/RequestContext/Examples.antt =====
-- A unary request whose timer fires before the root ends, and a Check after the root has ended.
use final_weave.Prelude.{ℕ, ◌≡◌, ◌≢◌, refl, Bool, true, none, some, List, [], ◌∷◌, pos, ltb_ℤ}
use final_weave.Health.{state_ready}
use final_weave.Grpc.HealthBridge.{new_bridge}
use final_weave.Grpc.Interceptors.{
  canceled, deadline_exceeded, InterceptorSet, Rpc, Handler, returned, panicked, NoResponse, Shared,
  unary, stream, health_check_method,
}
use final_weave.Grpc.RequestContext.{
  RequestContext, or_else, canceled_by, derive_request_context, stored_request_id, ContextEvent,
  root_done, timer_fires, happen_all, happen, cleanup, environment,
}
use final_weave.Grpc.RequestContext.Ends.{first_end, grpc_context_ends}
use final_weave.Grpc.RequestContext.Refusal.{grpc_ended_root_refuses}

abbrev id : List ℕ
id = b'a' ∷ []

abbrev timed : RequestContext
timed = derive_request_context none none (pos 5) id

abbrev events : List ContextEvent
events = timer_fires ∷ root_done ∷ []

grpc_context_ends_example :
    ((happen_all events timed).err
      ≡ or_else none (or_else (canceled_by none) (first_end (ltb_ℤ (pos 0) (pos 5)) events)))
    × ((cleanup (happen_all events timed)).err ≢ none)
    × (happen_all events (cleanup (happen_all events timed)) ≡ cleanup (happen_all events timed))
    × (stored_request_id (some (happen_all events timed)) ≡ id)
    × (stored_request_id (some (cleanup (happen_all events timed))) ≡ id)
grpc_context_ends_example = grpc_context_ends none none (pos 5) id events events

timed_out : (happen_all events timed).err ≡ some deadline_exceeded
unfolding happen_all happen derive_request_context
timed_out = refl

abbrev check : Rpc
check = record { full_method = health_check_method; id_values = none; metadata = none }

abbrev limits : InterceptorSet
limits = record { metadata_limit = 1024; has_refresher = true }

abbrev start : Shared
start = record {
  sequence = 0;
  tracker = record { state = state_ready };
  health = new_bridge;
  log = [];
  header = none;
}

abbrev serves : Handler Bool
serves s = (s, returned (some true) none)

abbrev explodes : Handler Bool
explodes s = (s, panicked)

abbrev watches : Handler NoResponse
watches s = (s, returned none none)

abbrev stream_explodes : Handler NoResponse
stream_explodes s = (s, panicked)

abbrev too_late : RequestContext
too_late = derive_request_context none (some canceled) (pos 5) id

grpc_ended_root_refuses_example :
    (unary limits (environment true too_late [] [] [] []) check serves start
      ≡ unary limits (environment true too_late [] [] [] []) check explodes start)
    × ((unary limits (environment true too_late [] [] [] []) check serves start).1.0 ≡ none)
    × ((unary limits (environment true too_late [] [] [] []) check serves start).1.1 ≢ none)
    × (stream limits (environment true too_late [] [] [] []) check watches start
        ≡ stream limits (environment true too_late [] [] [] []) check stream_explodes start)
    × ((stream limits (environment true too_late [] [] [] []) check watches start).1 ≢ none)
grpc_ended_root_refuses_example =
    grpc_ended_root_refuses limits check serves explodes watches stream_explodes start none canceled
      (pos 5) id true [] [] [] []
