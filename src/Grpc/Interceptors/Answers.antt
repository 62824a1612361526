-- ===== src/Grpc/Interceptors/Answers.antt =====
-- pkg/api/grpcserver/interceptors.go: how every RPC ends.
use Prim.Native.String.{String}
use final_weave.Prelude.{ℕ, ◌≡◌, refl, Option, List, ◌∷◌}
use final_weave.RequestId.Alphabet.{IsSafe}
use final_weave.Grpc.Metadata.{request_id_from_metadata}
use final_weave.Grpc.Metadata.RequestIds.{grpc_request_id}
use final_weave.Grpc.Interceptors.LogVocabulary.{IsRpcMethod, safe_rpc_method-IsRpcMethod}
use final_weave.Grpc.Interceptors.{
  Rpc, RpcError, Environment, InterceptorSet, Shared, Handler, Outcome, returned, panicked,
  NoResponse, LogLine, request_completed, request_panicked, code_of, safe_rpc_method, finish, unary,
  stream,
}

-- The log after an RPC: its newest line is the completion, with a safe ID, the one that the request
-- was given, with the code of the error that the client gets, and with a method of a closed
-- vocabulary.
abbrev pub Completed : Rpc → ℕ → Shared → Option RpcError → Type 0
Completed rpc sequence s e =
    IsSafe (request_id_from_metadata rpc.id_values sequence).0
    × IsRpcMethod (safe_rpc_method rpc.full_method)
    × ((old : List LogLine) × (s.log
          ≡ request_completed (safe_rpc_method rpc.full_method) (code_of e)
              (request_id_from_metadata rpc.id_values sequence).0
            ∷ old))

finish-log :
    {A : Type 0} (method : String) (id : List ℕ) (s : Shared) (o : Outcome A)
    → (old : List LogLine) × ((finish method id s o).0.log
        ≡ request_completed method (code_of (finish method id s o).1.1) id ∷ old)
unfolding finish
finish-log method id s (returned response e) = (s.log, refl)
finish-log method id s panicked = (request_panicked method id ∷ s.log, refl)

-- Whatever the handler, grpc-go and the contexts do, an RPC of either kind ends with a result (never a
-- panic), and the newest line of the log tells its code, under a safe ID, with a method of a closed
-- vocabulary whatever the client called.
pub grpc_every_rpc_answered :
    {A : Type 0} (set : InterceptorSet) (env : Environment) (rpc : Rpc) (handler : Handler A)
    (stream_handler : Handler NoResponse) (s : Shared)
    → Completed rpc s.sequence (unary set env rpc handler s).0 (unary set env rpc handler s).1.1
      × Completed rpc s.sequence
          (stream set env rpc stream_handler s).0
          (stream set env rpc stream_handler s).1
unfolding unary stream
grpc_every_rpc_answered set env rpc handler stream_handler s =
    let (safe, _) = grpc_request_id rpc.id_values s.sequence in
    let closed = safe_rpc_method-IsRpcMethod rpc.full_method in
    ((safe, closed, finish-log _ _ _ _), (safe, closed, finish-log _ _ _ _))
