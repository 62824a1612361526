-- ===== src/Grpc/Lifecycle/Examples.antt =====
-- A server that serves, is refreshed and is shut down by two callers, one of which waits.
use final_weave.Prelude.{
  ◌≤◌, ◌≡◌, ◌≢◌, inl, refl, true, false, Option, none, some, List, [], ◌∷◌, ◌++◌, get_elem?,
}
use final_weave.GoErrors.{Err, fails, deadline_exceeded}
use final_weave.Threads.{total}
use final_weave.Grpc.HealthBridge.Status.{keeps_status}
use final_weave.Grpc.Lifecycle.{
  idle, stopped, serving_rpcs, refresh_locking, refresh_returned, panicked, serve_call,
}
use final_weave.Grpc.Lifecycle.Steps.{System, Step, IsCall, Reach, initial}
use final_weave.Grpc.Lifecycle.Shape.{serves, rank}
use final_weave.Grpc.Lifecycle.Schedule.{
  Turn, serve, shutdown, refresh, store, at, go, answer, expire, run_from, start,
}
use final_weave.Grpc.Lifecycle.Safety.{
  grpc_never_panics, grpc_shutdowns_agree, grpc_lifecycle_onward, grpc_health_ends,
}
use final_weave.Grpc.Lifecycle.Refresh.{Settled, grpc_stale_refresh}
use final_weave.Prelude.{◌+◌, ◌*◌, ◌⊎◌, All, length, set}
use final_weave.Service.{Trace, fresh, labels}
use final_weave.Service.History.{IsSingleUse}
use final_weave.Grpc.Lifecycle.{serve_exiting}
use final_weave.Grpc.Lifecycle.Steps.{Move}
use final_weave.Grpc.Lifecycle.Refinement.{view, grpc_service, run_of, grpc_refines_service}
use final_weave.Grpc.Lifecycle.Advance.{remaining, IsReturned, Advances}
use final_weave.Grpc.Lifecycle.Termination.{Runs, count, grpc_runs_end}

abbrev to_serving : List Turn
to_serving = serve (some 1) ∷ at 0 go ∷ at 0 go ∷ store true ∷ refresh ∷ at 1 go ∷ at 1 go ∷ []

-- Both callers of `Shutdown` are past its first section.
abbrev to_stopping : List Turn
to_stopping =
    to_serving
    ++ shutdown (some true) ∷ shutdown (some true) ∷ at 2 go ∷ at 2 go ∷ at 3 go ∷ at 3 go ∷ []

-- The context expires, grpc-go is forced to stop, and both callers return the context's error.
abbrev to_stopped : List Turn
to_stopped =
    to_stopping
    ++ at 2 go
      ∷ at 2 expire
      ∷ at 2 go
      ∷ at 0 (answer none)
      ∷ at 0 go
      ∷ at 2 go
      ∷ at 2 go
      ∷ at 3 go
      ∷ at 3 go
      ∷ []

after : List Turn → System
after ts = (run_from start ts).last

after_reach : (ts : List Turn) → Reach initial (after ts)
unfolding after
after_reach ts = (run_from start ts).reach

abbrev timed_out : Option Err
timed_out = fails deadline_exceeded

grpc_never_panics_example : ¬ (get_elem? (after to_stopped).points 0 ≡ some panicked)
grpc_never_panics_example = grpc_never_panics (after_reach to_stopped) 0

grpc_shutdowns_agree_example :
    ((after to_stopped).server.state ≡ stopped)
    × (timed_out ≡ (after to_stopped).server.shutdown_err)
    × (timed_out ≡ timed_out)
unfolding after run_from
grpc_shutdowns_agree_example =
    grpc_shutdowns_agree (after_reach to_stopped) 2 3 timed_out timed_out refl refl

-- Another goroutine calls `Serve` of the stopped server.
abbrev called_again : System
called_again = record (after to_stopped) {
  points = (after to_stopped).points ++ serve_call (some 2) ∷ [];
}

grpc_lifecycle_onward_example :
    (rank (after to_stopped).server.state ≤ rank called_again.server.state)
    × ((after to_stopped).server.state ≡ stopped
        → (called_again.server.state ≡ stopped)
          × (called_again.server.shutdown_err ≡ (after to_stopped).server.shutdown_err))
    × (total serves called_again.points ≤ 1)
    × ((after to_stopped).server.state ≢ idle
        → total serves called_again.points ≤ total serves (after to_stopped).points)
    × (called_again.server.state ≡ stopped → total serves called_again.points ≡ 0)
grpc_lifecycle_onward_example =
    grpc_lifecycle_onward (after_reach to_stopped)
      (Reach.next Reach.here (Step.call (IsCall.serve (some 2))))

grpc_health_ends_example :
    keeps_status.is_serving (keeps_status.after (after to_stopping).server.health.calls) ≡ false
unfolding after run_from
grpc_health_ends_example = grpc_health_ends keeps_status (after_reach to_stopping) (inl refl)

grpc_stale_refresh_example :
    (c : System) × (b : System) × Reach (after to_serving) c
    × Settled c b
    × (c.server.tracker_ready ≡ false)
    × (c.points ≡ (after to_serving).points ++ refresh_locking true ∷ [])
    × (b.points ≡ (after to_serving).points ++ refresh_returned ∷ refresh_returned ∷ [])
    × (b.server.tracker_ready ≡ false)
    × (keeps_status.is_serving (keeps_status.after b.server.health.calls) ≡ true)
unfolding after run_from
grpc_stale_refresh_example = grpc_stale_refresh keeps_status (after_reach to_serving) refl

grpc_refines_service_example :
    Trace fresh
      (labels grpc_service (run_of (after_reach to_stopped)))
      (view (after to_stopped).server)
    × IsSingleUse (labels grpc_service (run_of (after_reach to_stopped)))
grpc_refines_service_example = grpc_refines_service (run_of (after_reach to_stopped))

-- grpc-go's `Serve` returns.
abbrev left : System
left = record (after to_stopping) { points = set (after to_stopping).points 0 (serve_exiting none) }

one_more : Runs (after to_stopping) left
unfolding after run_from
one_more = Runs.after Runs.halt 0 serving_rpcs refl (Move.serve_ends none)

grpc_runs_end_example :
    (count one_more + remaining left ≤ remaining (after to_stopping))
    × (remaining (after to_stopping) ≤ 7 * length (after to_stopping).points)
    × (All IsReturned left.points ⊎ Advances left)
grpc_runs_end_example = grpc_runs_end (after_reach to_stopping) one_more
