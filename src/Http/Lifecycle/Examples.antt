-- ===== src/Http/Lifecycle/Examples.antt =====
-- A server that serves and is shut down by two callers, one of which waits for the other.
use final_weave.Prelude.{
  ◌≤◌, ◌≡◌, ◌≢◌, refl, Option, none, some, true, List, [], ◌∷◌, ◌++◌, get_elem?,
}
use final_weave.GoErrors.{Err, deadline_exceeded, joined_one}
use final_weave.Threads.{total}
use final_weave.Http.Lifecycle.{idle, stopped, shutdown_returned, panicked, serve_call}
use final_weave.Http.Lifecycle.Steps.{System, Step, Reach, initial}
use final_weave.Http.Lifecycle.Shape.{serves, rank}
use final_weave.Http.Lifecycle.Schedule.{
  Turn, serve, shutdown, at, go, hook, answer, expire, run_from, start,
}
use final_weave.Http.Lifecycle.Safety.{
  http_never_panics, http_shutdowns_agree, http_lifecycle_onward,
}
use final_weave.Http.Lifecycle.Progress.{http_waiters_answered}
use final_weave.Prelude.{◌+◌, ◌*◌, ◌⊎◌, All, length, set}
use final_weave.Service.{Trace, fresh, labels}
use final_weave.Service.History.{IsSingleUse}
use final_weave.Http.Lifecycle.{serve_exiting, listening}
use final_weave.Http.Lifecycle.Steps.{Move}
use final_weave.Http.Lifecycle.Refinement.{view, http_service, run_of, http_refines_service}
use final_weave.Http.Lifecycle.Advance.{remaining, IsReturned, Advances}
use final_weave.Http.Lifecycle.Termination.{Runs, count, http_runs_end}

abbrev to_serving : List Turn
to_serving = serve (some 1) ∷ at 0 go ∷ at 0 go ∷ at 0 hook ∷ []

-- Both callers of `Shutdown` are past its first section.
abbrev to_stopping : List Turn
to_stopping =
    to_serving
    ++ shutdown (some true) ∷ shutdown (some true) ∷ at 1 go ∷ at 1 go ∷ at 2 go ∷ at 2 go ∷ []

-- The context of the one in charge expires, and both return its error.
abbrev to_stopped : List Turn
to_stopped = to_stopping ++ at 1 (answer none) ∷ at 1 expire ∷ at 1 go ∷ at 2 go ∷ at 2 go ∷ []

after : List Turn → System
after ts = (run_from start ts).last

after_reach : (ts : List Turn) → Reach initial (after ts)
unfolding after
after_reach ts = (run_from start ts).reach

abbrev timed_out : Option Err
timed_out = some (joined_one (Err.sentinel deadline_exceeded))

http_never_panics_example : ¬ (get_elem? (after to_stopped).points 0 ≡ some panicked)
http_never_panics_example = http_never_panics (after_reach to_stopped) 0

http_shutdowns_agree_example :
    ((after to_stopped).server.state ≡ stopped)
    × (timed_out ≡ (after to_stopped).server.shutdown_err)
    × (timed_out ≡ timed_out)
    × (timed_out ≡ none → total serves (after to_stopped).points ≡ 0)
unfolding after run_from
http_shutdowns_agree_example =
    http_shutdowns_agree (after_reach to_stopped) 1 2 timed_out timed_out refl refl

-- Another goroutine calls `Serve` of the stopped server.
abbrev called_again : System
called_again = record (after to_stopped) {
  points = (after to_stopped).points ++ serve_call (some 2) ∷ [];
}

http_lifecycle_onward_example :
    (rank (after to_stopped).server.state ≤ rank called_again.server.state)
    × ((after to_stopped).server.state ≡ stopped
        → (called_again.server.state ≡ stopped)
          × (called_again.server.shutdown_err ≡ (after to_stopped).server.shutdown_err))
    × (total serves called_again.points ≤ 1)
    × ((after to_stopped).server.state ≢ idle
        → total serves called_again.points ≤ total serves (after to_stopped).points)
    × (called_again.server.state ≡ stopped
        → called_again.server.shutdown_err ≡ none
        → total serves called_again.points ≡ 0)
http_lifecycle_onward_example =
    http_lifecycle_onward (after_reach to_stopped)
      (Reach.next Reach.here (Step.call_serve (some 2)))

http_waiters_answered_example :
    (b : System) × Reach (after to_stopping) b
    × (b.server.serve_done ≡ (after to_stopping).server.serve_done)
    × (get_elem? b.points 2 ≡ some (shutdown_returned b.server.shutdown_err))
unfolding after run_from
http_waiters_answered_example = http_waiters_answered (after_reach to_stopping) 2 refl

http_refines_service_example :
    Trace fresh
      (labels http_service (run_of (after_reach to_stopped)))
      (view (after to_stopped).server)
    × IsSingleUse (labels http_service (run_of (after_reach to_stopped)))
http_refines_service_example = http_refines_service (run_of (after_reach to_stopped))

-- Fiber's `Listener` returns.
abbrev left : System
left = record (after to_stopping) { points = set (after to_stopping).points 0 (serve_exiting none) }

one_more : Runs (after to_stopping) left
unfolding after run_from
one_more = Runs.after Runs.halt 0 listening refl (Move.listener_returns none)

http_runs_end_example :
    (count one_more + remaining left ≤ remaining (after to_stopping))
    × (remaining (after to_stopping) ≤ 5 * length (after to_stopping).points)
    × (All IsReturned left.points ⊎ Advances left)
http_runs_end_example = http_runs_end (after_reach to_stopping) one_more
