-- ===== src/Grpc/Interceptors/Limit.antt =====
-- pkg/api/grpcserver/interceptors.go: what the limit on the metadata decides, for either kind of RPC.
use final_weave.Prelude.{
  sym, ◌∙◌, ◌⊎◌, ℕ, ◌≡◌, ◌<◌, ◌≤◌, refl, inl, inr, ap, Bool, true, false, Option, none, some, List,
  ◌∷◌, ltb, arith, Bool-cases, if◌then◌else◌,
}
use final_weave.Grpc.Metadata.{Metadata, metadata_size, request_id_from_metadata}
use final_weave.Grpc.Interceptors.{
  Rpc, RpcError, Environment, InterceptorSet, Shared, Handler, returned, NoResponse,
  request_completed, code_of, internal_error, metadata_error, safe_rpc_method, guarded, checked,
  finish, unary, stream,
}
use final_weave.RequestId.Base36.{max_uint64}
use final_weave.Grpc.Metadata.Size.{IsGoMap, header_list_size, metadata_size-eq-min}
use mathlib.Core.List.Perm
use native.Mathlib.Decide.{dec_lt}

-- The error of an RPC with too much metadata: the header is sent first.
abbrev pub refusal : Environment → RpcError
refusal env = if env.header_accepted then metadata_error else internal_error

abbrev pub unlimited : InterceptorSet → InterceptorSet
unlimited set = record set { metadata_limit = max_uint64 }

guarded_over :
    {A : Type 0} (set : InterceptorSet) (env : Environment) (rpc : Rpc) (health_method : Bool)
    (id : List ℕ) (handler : Handler A) (s : Shared)
    → set.metadata_limit < metadata_size rpc.metadata
    → guarded set env rpc health_method id handler s ≡ (
      record s { header = if env.header_accepted then some id else s.header },
      returned none (some (refusal env)),
    )
unfolding guarded
guarded_over set env rpc health_method id handler s over =
    let big : ltb set.metadata_limit (metadata_size rpc.metadata) ≡ true = ground arith in
    elim (Bool-cases env.header_accepted) [
      | inl sent ↦ rw (sent, big) refl
      | inr unsent ↦ rw unsent refl
    ]

guarded_within :
    {A : Type 0} (set : InterceptorSet) (env : Environment) (rpc : Rpc) (health_method : Bool)
    (id : List ℕ) (handler : Handler A) (s : Shared)
    → metadata_size rpc.metadata ≤ set.metadata_limit
    → metadata_size rpc.metadata ≤ max_uint64
    → guarded set env rpc health_method id handler s
      ≡ guarded (unlimited set) env rpc health_method id handler s
unfolding guarded
guarded_within set env rpc health_method id handler s fits small =
    let low : ltb set.metadata_limit (metadata_size rpc.metadata) ≡ false = ground arith in
    let far : ltb max_uint64 (metadata_size rpc.metadata) ≡ false = ground arith in
    rw (low, far) refl

abbrev id_of : Rpc → Shared → List ℕ
id_of rpc s = (request_id_from_metadata rpc.id_values s.sequence).0

-- The state after the limit has turned an RPC away, and the log has got its completion.
abbrev turned_away : Environment → Rpc → Shared → Shared
turned_away env rpc s = record s {
  sequence = (request_id_from_metadata rpc.id_values s.sequence).1;
  header = if env.header_accepted then some (id_of rpc s) else s.header;
  log =
      request_completed (safe_rpc_method rpc.full_method) (code_of (some (refusal env)))
        (id_of rpc s)
      ∷ s.log;
}

unary_over :
    {A : Type 0} (set : InterceptorSet) (env : Environment) (rpc : Rpc) (handler : Handler A)
    (s : Shared)
    → set.metadata_limit < metadata_size rpc.metadata
    → unary set env rpc handler s ≡ (turned_away env rpc s, (none, some (refusal env)))
unfolding unary finish
unary_over set env rpc handler s over =
    ap (λ r. finish (safe_rpc_method rpc.full_method) (id_of rpc s) r.0 r.1)
      (guarded_over set env rpc _ _ (checked env.after handler) _ over)

stream_over :
    (set : InterceptorSet) (env : Environment) (rpc : Rpc) (handler : Handler NoResponse)
    (s : Shared)
    → set.metadata_limit < metadata_size rpc.metadata
    → stream set env rpc handler s ≡ (turned_away env rpc s, some (refusal env))
unfolding stream finish
stream_over set env rpc handler s over =
    ap (λ r. let t = finish (safe_rpc_method rpc.full_method) (id_of rpc s) r.0 r.1 in (t.0, t.1.1))
      (guarded_over set env rpc _ _ handler _ over)

-- What becomes of an RPC of either kind whose metadata is above the limit.
abbrev pub IsRefused :
    {A : Type 0}
    → Environment
    → (s : Shared) → (served : Shared × (Option A × Option RpcError))
    → (streamed : Shared × Option RpcError) → Type 0
IsRefused env s served streamed =
    (served.1 ≡ (none, some (refusal env)))
    × (streamed.1 ≡ some (refusal env))
    × (served.0.health ≡ s.health)
    × (streamed.0.health ≡ s.health)

-- The limit decides by the HTTP/2 size of the metadata (keys and values shorter than 2^63 bytes, a limit
-- below the largest uint64), for unary RPCs and for streams. Above it, no handler has a say: the client
-- gets ResourceExhausted, or Internal where grpc-go does not accept the header, and the health service
-- is left alone. Up to it, the RPC ends as it would without a limit.
pub grpc_metadata_limited :
    {A : Type 0} (set : InterceptorSet) (env : Environment) (rpc : Rpc) (m : Metadata)
    (handler other : Handler A) (stream_handler stream_other : Handler NoResponse) (s : Shared)
    → IsGoMap m
    → rpc.metadata ≡ some m
    → set.metadata_limit < max_uint64
    → ((set.metadata_limit < header_list_size m)
        × (unary set env rpc handler s ≡ unary set env rpc other s)
        × (stream set env rpc stream_handler s ≡ stream set env rpc stream_other s)
        × IsRefused env s (unary set env rpc handler s) (stream set env rpc stream_handler s))
      ⊎ ((header_list_size m ≤ set.metadata_limit)
          × (unary set env rpc handler s ≡ unary (unlimited set) env rpc handler s)
          × (stream set env rpc stream_handler s ≡ stream (unlimited set) env rpc stream_handler s))
unfolding unary stream finish
grpc_metadata_limited set env rpc m handler other stream_handler stream_other s shaped brought low =
    let (size, above, _) =
      metadata_size-eq-min m m set.metadata_limit shaped shaped (Perm.refl m) low in
    elim (dec_lt set.metadata_limit (header_list_size m)) [
      | yes over ↦
          let big : set.metadata_limit < metadata_size rpc.metadata = rw brought (above.1 over) in
          let served = unary_over set env rpc handler s big in
          let streamed = stream_over set env rpc stream_handler s big in
          inl (
            over,
            served ∙ sym (unary_over set env rpc other s big),
            streamed ∙ sym (stream_over set env rpc stream_other s big),
            (
              ap (λ r. r.1) served,
              ap (λ r. r.1) streamed,
              ap (λ r. r.0.health) served,
              ap (λ r. r.0.health) streamed,
            ),
          )
      | no within ↦
          let fits : metadata_size rpc.metadata ≤ set.metadata_limit =
            rw brought (omega (arith, size, within)) in
          let small : metadata_size rpc.metadata ≤ max_uint64 = omega (arith, fits, low) in
          inr (
            omega (arith, within),
            ap (λ r. finish (safe_rpc_method rpc.full_method) (id_of rpc s) r.0 r.1)
                (guarded_within set env rpc _ _ (checked env.after handler) _ fits small),
            ap
                (λ r.
                  let t = finish (safe_rpc_method rpc.full_method) (id_of rpc s) r.0 r.1 in
                  (t.0, t.1.1))
                (guarded_within set env rpc _ _ stream_handler _ fits small),
          )
    ]
