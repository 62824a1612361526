-- ===== src/Http/Construction/Examples.antt =====
-- The default configuration with everything that `New` needs.
use final_weave.Prelude.{false, some}
use final_weave.GoInterfaces.{GoInterface, holding, pointer}
use final_weave.Health.{new_tracker}
use final_weave.Log.{nop_logger}
use final_weave.Http.Config.{default_config}
use final_weave.Http.Construction.Outcome.{Outcome, http_new_outcome}

abbrev root : GoInterface
root = holding pointer false

http_new_outcome_example : Outcome root default_config (some new_tracker) (some (some nop_logger))
http_new_outcome_example =
    http_new_outcome root default_config (some new_tracker) (some (some nop_logger))
