-- ===== src/Http/Lifecycle/Shape.antt =====
-- pkg/api/httpserver/server.go: what is counted of the goroutines, and how the fields of the server,
-- the goroutines' points and the later states hang together: the invariant's statement.
use final_weave.Prelude.{ℕ, ◌≤◌, ◌≡◌, ◌≢◌, ◌⊎◌, none, All}
use final_weave.Threads.{total}
use final_weave.Http.Lifecycle.{
  LifecycleState, idle, starting, serving, stopping, stopped, Chan, absent, opened, closed, Server,
  Point, listening, serve_exiting, closing_listener, draining, awaiting_exit, finishing,
  awaiting_shutdown, reading_result, shutdown_returned, panicked,
}
use final_weave.Http.Lifecycle.Steps.{System}

-- Inside `Serve`, between its two sections.
abbrev pub serves : Point → ℕ
serves listening = 1
serves (serve_exiting _) = 1
serves _ = 0

-- In charge of the shutdown.
abbrev pub leads : Point → ℕ
leads (closing_listener _) = 1
leads draining = 1
leads (awaiting_exit _) = 1
leads (finishing _) = 1
leads _ = 0

abbrev pub crashes : Point → ℕ
crashes panicked = 1
crashes _ = 0

abbrev pub open_count : Chan → ℕ
open_count opened = 1
open_count _ = 0

abbrev pub leaders : LifecycleState → ℕ
leaders stopping = 1
leaders _ = 0

-- How the fields of a server hang together in each state.
abbrev pub IsShaped : LifecycleState → Server → Type 0
IsShaped idle s = (s.serve_done ≡ absent) × (s.shutdown_done ≡ absent) × (s.shutdown_err ≡ none)
IsShaped starting s =
    (s.serve_done ≡ opened)
    × (s.shutdown_done ≡ opened)
    × (s.shutdown_err ≡ none)
    × (s.listener ≢ none)
IsShaped serving s = (s.serve_done ≡ opened) × (s.shutdown_done ≡ opened) × (s.shutdown_err ≡ none)
IsShaped stopping s = (s.serve_done ≢ absent) × (s.shutdown_done ≡ opened) × (s.shutdown_err ≡ none)
IsShaped stopped s = (s.shutdown_done ≢ opened)

-- What a goroutine's point says of the server.
abbrev pub Knows : Server → Point → Type 0
Knows s (closing_listener l) = l ≢ none
Knows s awaiting_shutdown =
    (s.state ≡ stopping) ⊎ ((s.state ≡ stopped) × (s.shutdown_done ≡ closed))
Knows s reading_result = s.state ≡ stopped
Knows s (shutdown_returned e) = (s.state ≡ stopped) × (e ≡ s.shutdown_err)
Knows s _ = Unit

-- The order in which the states are passed.
abbrev pub rank : LifecycleState → ℕ
rank idle = 0
rank starting = 1
rank serving = 2
rank stopping = 3
rank stopped = 4

-- A server that may come after another: what a point may rely on stays.
pub record Later (s t : Server) : Type 0 where
  pub onward : rank s.state ≤ rank t.state
  pub no_restart : s.state ≢ idle → open_count t.serve_done ≤ open_count s.serve_done
  pub stays_stopped :
      s.state ≡ stopped
      → (t.state ≡ stopped)
        × (t.shutdown_err ≡ s.shutdown_err)
        × (t.shutdown_done ≡ s.shutdown_done)
  pub stopping_ends :
      s.state ≡ stopping → (t.state ≡ stopping) ⊎ ((t.state ≡ stopped) × (t.shutdown_done ≡ closed))

pub record Inv (a : System) : Type 0 where
  pub servers : total serves a.points ≡ open_count a.server.serve_done
  pub in_charge : total leads a.points ≡ leaders a.server.state
  pub calm : total crashes a.points ≡ 0
  pub shape : IsShaped a.server.state a.server
  pub known : All (Knows a.server) a.points
