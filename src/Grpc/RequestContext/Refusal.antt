-- ===== src/Grpc/RequestContext/Refusal.antt =====
-- pkg/api/grpcserver/interceptors.go: what an ended request context does to a request.
use text.Mathlib.Text.{◌==◌ as str_eq}
use final_weave.Prelude.{
  ℕ, ◌≡◌, ◌≢◌, refl, ◌∙◌, ap, sym, ltb, Bool, Option, none, some, List, ◌&&◌, if◌then◌else◌, ℤ,
  Bool-cases, inl, inr,
}
use final_weave.Grpc.Metadata.{metadata_size, request_id_from_metadata}
use final_weave.Grpc.Interceptors.{
  ContextError, canceled, Environment, HealthEvent, InterceptorSet, Rpc, RpcError, Handler,
  NoResponse, Shared, returned, unary, stream, guarded, checked, finish, internal_error,
  metadata_error, from_context_error, refresh, is_unary_health_method, safe_rpc_method,
  health_watch_method,
}
use final_weave.Grpc.RequestContext.{
  or_else, canceled_by, derive_request_context, ContextEvent, environment,
}
use final_weave.Grpc.RequestContext.Ends.{ended_stays}

-- What an RPC comes to whose context is done before its handler could run.
Refused : (A : Type 0) → InterceptorSet → Environment → Rpc → Bool → List ℕ → Shared → Type 0
Refused A set env rpc health_method id s =
    (t : Shared) × (x : RpcError) × ((handler : Handler A)
      → guarded set env rpc health_method id handler s ≡ (t, returned none (some x)))

guarded-Refused :
    (A : Type 0) (set : InterceptorSet) (env : Environment) (rpc : Rpc) (health_method : Bool)
    (id : List ℕ) (s : Shared) {e : ContextError}
    → env.before ≡ some e
    → Refused A set env rpc health_method id s
unfolding guarded Refused
guarded-Refused A set env rpc health_method id s {e} done = elim (Bool-cases env.header_accepted) [
  | inr unsent ↦ (s, internal_error, λ handler. rw unsent refl)
  | inl sent ↦ elim (Bool-cases (ltb set.metadata_limit (metadata_size rpc.metadata))) [
    | inl big ↦ (record s { header = some id }, metadata_error, λ handler. rw (sent, big) refl)
    | inr fits ↦ (
      (let t = record s { header = some id } in
          if set.has_refresher && health_method then refresh env t else t),
      from_context_error e,
      λ handler. rw (sent, fits, done) refl,
    )
  ]
]

unary_refused :
    (A : Type 0) (set : InterceptorSet) (env : Environment) (rpc : Rpc) (s : Shared)
    {e : ContextError}
    → env.before ≡ some e
    → (t : Shared) × (x : RpcError) × ((handler : Handler A)
        → unary set env rpc handler s ≡ (t, (none, some x)))
unfolding unary finish Refused
unary_refused A set env rpc s {e} done =
    let (id, sequence) = request_id_from_metadata rpc.id_values s.sequence in
    let (t, x, same) =
      guarded-Refused A set env rpc (is_unary_health_method rpc.full_method) id
        (record s { sequence = sequence }) done in
    (
      _,
      x,
      λ handler.
          ap (λ r. finish (safe_rpc_method rpc.full_method) id r.0 r.1)
            (same (checked env.after handler)),
    )

stream_refused :
    (set : InterceptorSet) (env : Environment) (rpc : Rpc) (s : Shared) {e : ContextError}
    → env.before ≡ some e
    → (t : Shared) × (x : RpcError) × ((handler : Handler NoResponse)
        → stream set env rpc handler s ≡ (t, some x))
unfolding stream finish Refused
stream_refused set env rpc s {e} done =
    let (id, sequence) = request_id_from_metadata rpc.id_values s.sequence in
    let (t, x, same) =
      guarded-Refused NoResponse set env rpc (str_eq rpc.full_method health_watch_method) id
        (record s { sequence = sequence }) done in
    (
      _,
      x,
      λ handler.
          ap (λ r. let u = finish (safe_rpc_method rpc.full_method) id r.0 r.1 in (u.0, u.1.1))
            (same handler),
    )

-- A request that comes in after the root has ended never reaches its handler: the client gets an
-- error, whatever grpc-go accepts, whatever happens meanwhile and whatever the handler would do.
pub grpc_ended_root_refuses :
    {A : Type 0} (set : InterceptorSet) (rpc : Rpc) (handler other : Handler A)
    (stream_handler stream_other : Handler NoResponse) (s : Shared) (incoming : Option ContextError)
    (e : ContextError) (timeout : ℤ) (id : List ℕ) (accepted : Bool)
    (before during : List ContextEvent) (before_lock before_handler : List HealthEvent)
    → let c = derive_request_context incoming (some e) timeout id in
      let env = environment accepted c before during before_lock before_handler in
      (unary set env rpc handler s ≡ unary set env rpc other s)
      × ((unary set env rpc handler s).1.0 ≡ none)
      × ((unary set env rpc handler s).1.1 ≢ none)
      × (stream set env rpc stream_handler s ≡ stream set env rpc stream_other s)
      × ((stream set env rpc stream_handler s).1 ≢ none)
unfolding derive_request_context environment
grpc_ended_root_refuses {A} set rpc handler other stream_handler stream_other s incoming e timeout
      id accepted before during before_lock before_handler =
    let c = derive_request_context incoming (some e) timeout id in
    let env = environment accepted c before during before_lock before_handler in
    let (d, over) = ended_at_once incoming e in
    let done = ended_stays before c over in
    let (t, x, refused) = unary_refused A set env rpc s done in
    let (u, y, turned_away) = stream_refused set env rpc s done in
    (
      refused handler ∙ sym (refused other),
      ap (λ r. r.1.0) (refused handler),
      (λ h. cc (refused handler)),
      turned_away stream_handler ∙ sym (turned_away stream_other),
      (λ h. cc (turned_away stream_handler)),
    )
  where
    ended_at_once :
        (incoming : Option ContextError) (e : ContextError)
        → (d : ContextError) × (or_else incoming (canceled_by (some e)) ≡ some d)
    ended_at_once none e = (canceled, refl)
    ended_at_once (some d) e = (d, refl)
