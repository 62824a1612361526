-- ===== src/Grpc/Lifecycle.antt =====
-- pkg/api/grpcserver/server.go: `Serve`, `Shutdown`, `RefreshHealth` and what they call, as goroutines
-- that share one server and the readiness tracker. Each section under a mutex is one step, and so is
-- each wait and each load of the tracker. What grpc-go, the listener and the contexts answer is chosen
-- by the environment: `Serve` and `Close` return any error, `GracefulStop` returns at any time (its
-- goroutine does nothing else than to close `gracefulDone`), and a context may expire at any time.
-- `shutdown` of the bridge stands inside the sections of the server's own mutex and is part of them.
pub mod Steps
pub mod Shape
pub mod Orderly
pub mod Invariant
pub mod Safety
pub mod Refresh
pub mod Advance
pub mod Termination
pub mod Refinement
mod Schedule
mod Examples
use mathlib.Core.Option
use final_weave.Prelude.{Bool, true, false, ℕ, ◌&&◌, ◌||◌, Option, none, some, if◌then◌else◌}
use final_weave.GoErrors.{
  Err, sentinel, fails, nil_listener, server_already_serving, server_stopped, nil_shutdown_context,
  unbounded_shutdown_context, net_closed, grpc_server_stopped, errors_is, errors_join, is_nil,
}
use final_weave.Grpc.HealthBridge.{Bridge, new_bridge, publish, shutdown_bridge}

pub data LifecycleState : Type 0 where
  idle serving stopping stopped : LifecycleState

-- A `chan struct{}` that is only ever closed.
pub data Chan : Type 0 where
  absent opened closed : Chan

-- The fields of `Server` under its mutex, the bridge, and the flag of the tracker that it reads.
pub record Server : Type 0 where
  pub state : LifecycleState
  pub listener : Option ℕ
  pub serve_done : Chan
  pub shutdown_done : Chan
  pub shutdown_err : Option Err
  pub health : Bridge
  pub tracker_ready : Bool

-- What `New` returns, over a tracker that is not ready.
unfoldable pub new_server : Server
new_server = record {
  state = idle;
  listener = none;
  serve_done = absent;
  shutdown_done = absent;
  shutdown_err = none;
  health = new_bridge;
  tracker_ready = false;
}

-- Where a goroutine stands in `Serve`, in `Shutdown` or in `refresh`.
pub data Point : Type 0 where
  serve_call : Option ℕ → Point
  serve_locking : ℕ → Point
  closing_rejected : ℕ → Point
  serving_rpcs : Point
  serve_exiting : Option Err → Point
  serve_returned : Option Err → Point
  shutdown_call : Option Bool → Point
  shutdown_locking : Point
  checking_context : Point
  draining : Point
  drained : Point
  forcing : Option Err → Point
  awaiting_serve : Option Err → Point
  finishing : Option Err → Point
  awaiting_shutdown : Point
  reading_result : Point
  shutdown_refused : Option Err → Point
  shutdown_returned : Option Err → Point
  refresh_call : Point
  refresh_locking : Bool → Point
  refresh_returned : Point
  panicked : Point

unfoldable pub check_listener : Option ℕ → Point
check_listener none = serve_returned (fails nil_listener)
check_listener (some l) = serve_locking l

-- The first section of `Serve`, by the state that it finds.
unfoldable pub enter_serve : LifecycleState → Server → ℕ → Server × Point
enter_serve idle s l = (
  record s { state = serving; listener = some l; serve_done = opened; shutdown_done = opened },
  serving_rpcs,
)
enter_serve serving s l = (s, serve_returned (fails server_already_serving))
enter_serve stopping s l = (s, closing_rejected l)
enter_serve stopped s l = (s, closing_rejected l)

-- After `listener.Close()` of a stopped server's `Serve` returned `e`.
unfoldable pub after_reject : Option Err → Option Err
after_reject e =
    if is_nil e || errors_is e net_closed
    then fails server_stopped
    else errors_join (fails server_stopped) e

-- `close(c)`: it panics on a nil channel and on a closed one.
unfoldable pub close : Chan → Option Chan
close opened = some closed
close closed = none
close absent = none

abbrev pub is_stopping : LifecycleState → Bool
is_stopping stopping = true
is_stopping stopped = true
is_stopping _ = false

-- What `Serve` returns after grpc-go's `Serve` returned `e`.
unfoldable pub serve_result : Bool → Option Err → Option Err
serve_result asked e = if asked && (is_nil e || errors_is e grpc_server_stopped) then none else e

-- `if s.state == stateServing { … }`
stop_unasked : LifecycleState → Server → Option Server
unfolding close shutdown_bridge
stop_unasked serving s =
    Option.map
      (λ c. record s { state = stopped; health = shutdown_bridge s.health; shutdown_done = c })
      (close s.shutdown_done)
stop_unasked idle s = some s
stop_unasked stopping s = some s
stop_unasked stopped s = some s

-- The last section of `Serve`, and its result.
unfoldable pub leave_serve : Server → Option Err → Server × Point
unfolding close serve_result stop_unasked
leave_serve s e = elim (close s.serve_done) [
  | none ↦ (s, panicked)
  | some c ↦ elim (stop_unasked s.state (record s { listener = none; serve_done = c })) [
    | none ↦ (s, panicked)
    | some t ↦ (t, serve_returned (serve_result (is_stopping s.state) e))
  ]
]

-- The tests at the head of `Shutdown`: a context is `none` if it is nil, else it says whether it has
-- a deadline.
unfoldable pub check_context : Option Bool → Point
check_context none = shutdown_refused (fails nil_shutdown_context)
check_context (some false) = shutdown_refused (fails unbounded_shutdown_context)
check_context (some true) = shutdown_locking

-- The section at the head of `Shutdown`, by the state that it finds.
unfoldable pub enter_shutdown : LifecycleState → Server → Server × Point
unfolding shutdown_bridge
enter_shutdown idle s =
    (record s { state = stopped; health = shutdown_bridge s.health }, shutdown_returned none)
enter_shutdown stopped s = (s, shutdown_returned s.shutdown_err)
enter_shutdown stopping s = (s, awaiting_shutdown)
enter_shutdown serving s =
    (record s { state = stopping; health = shutdown_bridge s.health }, checking_context)

-- `finishShutdown`
unfoldable pub finish_shutdown : Server → Option Err → Server × Point
unfolding close
finish_shutdown s e = elim (close s.shutdown_done) [
  | none ↦ (s, panicked)
  | some c ↦
      (record s { state = stopped; shutdown_done = c; shutdown_err = e }, shutdown_returned e)
]

-- The section of `refresh`, for the flag that was loaded before it.
unfoldable pub publish_flag : Server → Bool → Server
unfolding publish
publish_flag s ready = record s { health = publish s.health ready }
