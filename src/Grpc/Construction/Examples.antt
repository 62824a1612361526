-- ===== src/Grpc/Construction/Examples.antt =====
-- The default configuration with everything that `New` needs.
use final_weave.Prelude.{false, some}
use final_weave.GoInterfaces.{GoInterface, holding, pointer}
use final_weave.Health.{new_tracker}
use final_weave.Log.{nop_logger}
use final_weave.Grpc.Config.{default_config}
use final_weave.Grpc.Construction.Outcome.{Outcome, grpc_new_outcome}

abbrev root : GoInterface
root = holding pointer false

grpc_new_outcome_example : Outcome root default_config (some new_tracker) (some (some nop_logger))
grpc_new_outcome_example =
    grpc_new_outcome root default_config (some new_tracker) (some (some nop_logger))
