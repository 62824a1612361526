-- ===== src/Grpc/Interceptors/LogVocabulary.antt =====
-- `safeRPCMethod` of pkg/api/grpcserver/interceptors.go: what a client can bring into the log.
use Prim.Native.String.{String}
use text.Mathlib.Text.{◌==◌ as str_eq}
use text.Mathlib.TextEquality.{eq_iff}
use final_weave.Prelude.{refl, inl, inr, [], ◌∷◌, Bool-cases}
use final_weave.Vocabulary.{IsOneOf}
use final_weave.Grpc.Interceptors.{
  safe_rpc_method, health_check_method, health_list_method, health_watch_method,
}

-- What the log may say of a client's method.
abbrev pub IsRpcMethod : String → Type 0
IsRpcMethod method =
    IsOneOf method
      ("unmatched" ∷ health_check_method ∷ health_list_method ∷ health_watch_method ∷ [])

pub safe_rpc_method-IsRpcMethod : (method : String) → IsRpcMethod (safe_rpc_method method)
unfolding safe_rpc_method
safe_rpc_method-IsRpcMethod method = elim (Bool-cases (str_eq method health_check_method)) [
  | inl check ↦ rw check (inr (inl ((eq_iff _ _).0 check)))
  | inr not_check ↦ elim (Bool-cases (str_eq method health_list_method)) [
    | inl list ↦ rw (not_check, list) (inr (inr (inl ((eq_iff _ _).0 list))))
    | inr not_list ↦ elim (Bool-cases (str_eq method health_watch_method)) [
      | inl watch ↦ rw (not_check, not_list, watch) (inr (inr (inr (inl ((eq_iff _ _).0 watch)))))
      | inr not_watch ↦ rw (not_check, not_list, not_watch) (inl refl)
    ]
  ]
]
