-- ===== src/Health/Examples.antt =====
-- Runs of the tracker, as in pkg/api/health/readiness_test.go.
use final_weave.Prelude.{◌≡◌, some, [], ◌∷◌, ◌++◌, ◌>>=◌, returns}
use final_weave.Health.{Readiness, not_ready, is_ready, snapshot, zero_tracker, reason_draining}
use final_weave.Health.Projection.{IsProjection, store_all, snapshot-store_all}

snapshot-store_all_example :
    (told : Readiness) × ((store_all zero_tracker
          ((is_ready ∷ []) ++ not_ready reason_draining ∷ [])
        >>= λ u. snapshot (some u))
      ≡ returns told)
    × IsProjection (not_ready reason_draining) told
snapshot-store_all_example =
    snapshot-store_all zero_tracker (is_ready ∷ []) (not_ready reason_draining)
