-- ===== src/Grpc/HealthBridge.antt =====
-- pkg/api/grpcserver/health.go: the bridge from the readiness tracker to grpc-go's health server.
-- That server is not part of the repository: the bridge keeps the calls that it made, newest first,
-- and what they do to a health server is a parameter of the theorems (Grpc/HealthBridge/Status).
pub mod Status
use final_weave.Prelude.{Bool, true, false, if◌then◌else◌, List, [], ◌∷◌}

-- The calls `SetServingStatus("", …)`, with true for SERVING, and `Shutdown()`.
pub data HealthCall : Type 0 where
  set_serving_status : Bool → HealthCall
  shutdown_all : HealthCall

pub record Bridge : Type 0 where
  pub stopped : Bool
  pub calls : List HealthCall

-- `newHealthBridge`
unfoldable pub new_bridge : Bridge
new_bridge = record { stopped = false; calls = set_serving_status false ∷ [] }

-- The section under the mutex of `refresh`, for a snapshot that was read before it.
unfoldable pub publish : Bridge → Bool → Bridge
publish b ready = if b.stopped then b else record b { calls = set_serving_status ready ∷ b.calls }

-- `shutdown`
unfoldable pub shutdown_bridge : Bridge → Bridge
shutdown_bridge b =
    if b.stopped then b else record { stopped = true; calls = shutdown_all ∷ b.calls }
