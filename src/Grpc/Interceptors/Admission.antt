-- ===== src/Grpc/Interceptors/Admission.antt =====
-- pkg/api/grpcserver/interceptors.go: the RPCs that reach their handler, and handlers that panic.
use text.Mathlib.Text.{◌==◌ as str_eq}
use final_weave.Prelude.{
  ℕ, ◌≡◌, ◌≤◌, ◌&&◌, refl, ap, Bool, true, false, none, some, List, ◌∷◌, ltb, arith, if◌then◌else◌,
}
use final_weave.Grpc.Metadata.{metadata_size, request_id_from_metadata}
use final_weave.Grpc.Interceptors.{
  Rpc, Environment, InterceptorSet, Shared, Handler, panicked, NoResponse, LogLine,
  request_completed, request_panicked, internal_error, code_internal, safe_rpc_method,
  is_unary_health_method, guarded, after_unary, checked, finish, unary, stream, refresh,
  health_watch_method,
}

-- An RPC that the header, the limit and the context let through to its handler.
pub record IsAdmitted (set : InterceptorSet) (env : Environment) (rpc : Rpc) : Type 0 where
  pub accepted : env.header_accepted ≡ true
  pub fits : metadata_size rpc.metadata ≤ set.metadata_limit
  pub alive : env.before ≡ none

-- The state in which the handler of an admitted RPC runs.
abbrev runs_in : InterceptorSet → Environment → Bool → List ℕ → Shared → Shared
runs_in set env health_method id s =
    if set.has_refresher && health_method
    then refresh env (record s { header = some id })
    else record s { header = some id }

guarded-runs :
    {A : Type 0} (set : InterceptorSet) (env : Environment) (rpc : Rpc) (health_method : Bool)
    (id : List ℕ) (handler : Handler A) (s : Shared)
    → IsAdmitted set env rpc
    → guarded set env rpc health_method id handler s ≡ handler (runs_in set env health_method id s)
unfolding guarded
guarded-runs set env rpc health_method id handler s ok =
    let small : ltb set.metadata_limit (metadata_size rpc.metadata) ≡ false =
      ground (arith, ok.fits) in
    rw (ok.accepted, small, ok.alive) refl

-- The state after the request's ID was chosen, and the ID.
abbrev pub with_id : Rpc → Shared → Shared
with_id rpc s = record s { sequence = (request_id_from_metadata rpc.id_values s.sequence).1 }

abbrev pub id_of : Rpc → Shared → List ℕ
id_of rpc s = (request_id_from_metadata rpc.id_values s.sequence).0

-- The states in which the handlers of an admitted RPC run: the ID chosen, the header set, and the
-- health service refreshed for its own methods.
abbrev pub unary_state : InterceptorSet → Environment → Rpc → Shared → Shared
unary_state set env rpc s =
    runs_in set env (is_unary_health_method rpc.full_method) (id_of rpc s) (with_id rpc s)

abbrev pub stream_state : InterceptorSet → Environment → Rpc → Shared → Shared
stream_state set env rpc s =
    runs_in set env (str_eq rpc.full_method health_watch_method) (id_of rpc s) (with_id rpc s)

pub unary-runs :
    {A : Type 0} (set : InterceptorSet) (env : Environment) (rpc : Rpc) (handler : Handler A)
    (s : Shared)
    → IsAdmitted set env rpc
    → unary set env rpc handler s ≡ (
        let r = checked env.after handler (unary_state set env rpc s) in
        finish (safe_rpc_method rpc.full_method) (id_of rpc s) r.0 r.1)
unfolding unary
unary-runs set env rpc handler s ok =
    ap (λ r. finish (safe_rpc_method rpc.full_method) (id_of rpc s) r.0 r.1)
      (guarded-runs set env rpc _ (id_of rpc s) (checked env.after handler) (with_id rpc s) ok)

stream-runs :
    (set : InterceptorSet) (env : Environment) (rpc : Rpc) (handler : Handler NoResponse)
    (s : Shared)
    → IsAdmitted set env rpc
    → stream set env rpc handler s ≡ (
        let r = handler (stream_state set env rpc s) in
        let t = finish (safe_rpc_method rpc.full_method) (id_of rpc s) r.0 r.1 in (t.0, t.1.1))
unfolding stream
stream-runs set env rpc handler s ok =
    ap (λ r. let t = finish (safe_rpc_method rpc.full_method) (id_of rpc s) r.0 r.1 in (t.0, t.1.1))
      (guarded-runs set env rpc _ (id_of rpc s) handler (with_id rpc s) ok)

-- The two lines that a panic leaves, over a log.
abbrev pub panic_lines : Rpc → Shared → List LogLine → List LogLine
panic_lines rpc s log =
    request_completed (safe_rpc_method rpc.full_method) code_internal (id_of rpc s)
    ∷ request_panicked (safe_rpc_method rpc.full_method) (id_of rpc s)
    ∷ log

-- A handler that panics in the state in which it runs, whatever it did before, of an admitted RPC of
-- either kind: the client gets Internal with a fixed message and no response, and the log gets the
-- panic's line and then the completion's, over what the handler left of it.
pub grpc_panics_contained :
    {A : Type 0} (set : InterceptorSet) (env : Environment) (rpc : Rpc) (handler : Handler A)
    (stream_handler : Handler NoResponse) (s : Shared)
    → IsAdmitted set env rpc
    → (handler (unary_state set env rpc s)).1 ≡ panicked
    → (stream_handler (stream_state set env rpc s)).1 ≡ panicked
    → ((unary set env rpc handler s).1 ≡ (none, some internal_error))
      × ((stream set env rpc stream_handler s).1 ≡ some internal_error)
      × ((unary set env rpc handler s).0.log
          ≡ panic_lines rpc s (handler (unary_state set env rpc s)).0.log)
      × ((stream set env rpc stream_handler s).0.log
          ≡ panic_lines rpc s (stream_handler (stream_state set env rpc s)).0.log)
unfolding checked after_unary finish
grpc_panics_contained set env rpc handler stream_handler s ok boom stream_boom = (
  rw (unary-runs set env rpc handler s ok, boom) refl,
  rw (stream-runs set env rpc stream_handler s ok, stream_boom) refl,
  rw (unary-runs set env rpc handler s ok, boom) refl,
  rw (stream-runs set env rpc stream_handler s ok, stream_boom) refl,
)
