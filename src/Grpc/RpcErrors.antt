-- ===== src/Grpc/RpcErrors.antt =====
-- The errors that the interceptors of pkg/api/grpcserver/interceptors.go return.
use Prim.Native.String.{String}
use final_weave.Prelude.{ℕ, Option, none, some}

-- The numbers of package codes.
abbrev pub code_ok : ℕ
code_ok = 0

abbrev pub code_canceled : ℕ
code_canceled = 1

abbrev pub code_deadline_exceeded : ℕ
code_deadline_exceeded = 4

abbrev pub code_resource_exhausted : ℕ
code_resource_exhausted = 8

abbrev pub code_internal : ℕ
code_internal = 13

pub record RpcError : Type 0 where
  pub code : ℕ
  pub message : String

-- `status.Code`
abbrev pub code_of : Option RpcError → ℕ
code_of none = code_ok
code_of (some e) = e.code

abbrev pub internal_error : RpcError
internal_error = record { code = code_internal; message = "internal server error" }

abbrev pub metadata_error : RpcError
metadata_error = record {
  code = code_resource_exhausted;
  message = "request metadata exceeds limit";
}

-- `context.Canceled` and `context.DeadlineExceeded`, and `status.FromContextError` of them.
pub data ContextError : Type 0 where
  canceled deadline_exceeded : ContextError

abbrev pub from_context_error : ContextError → RpcError
from_context_error canceled = record { code = code_canceled; message = "context canceled" }
from_context_error deadline_exceeded = record {
  code = code_deadline_exceeded;
  message = "context deadline exceeded";
}
