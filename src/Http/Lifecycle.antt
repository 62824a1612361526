-- ===== src/Http/Lifecycle.antt =====
-- pkg/api/httpserver/server.go: the lifecycle of `Server`, that is `Serve`, `Shutdown` and what they
-- call, as goroutines that share one server. Each section under the mutex is one step, and so is each
-- wait. What Fiber, the listener and the contexts answer is chosen by the environment: `Listener`
-- returns any error at any time and may call `BeforeServeFunc` at any time while it runs,
-- `ShutdownWithContext` and `Close` return any error, and a context may expire at any time.
pub mod Steps
pub mod Shape
pub mod Invariant
pub mod Safety
pub mod Progress
pub mod Advance
pub mod Termination
pub mod Drained
pub mod Refinement
mod Schedule
mod Examples
use mathlib.Core.Option
use final_weave.Prelude.{ℕ, Bool, true, false, ◌&&◌, ◌||◌, Option, none, some, if◌then◌else◌}
use final_weave.GoErrors.{
  Err, wrapped, fails, nil_listener, server_already_serving, server_stopped, nil_shutdown_context,
  unbounded_shutdown_context, net_closed, fiber_not_running, errors_is, errors_join, is_nil,
}

pub data LifecycleState : Type 0 where
  idle starting serving stopping stopped : LifecycleState

-- A `chan struct{}` that is only ever closed.
pub data Chan : Type 0 where
  absent opened closed : Chan

-- The fields of `Server` under its mutex; `New` leaves them at their zero values.
pub record Server : Type 0 where
  pub state : LifecycleState
  pub listener : Option ℕ
  pub serve_done : Chan
  pub shutdown_done : Chan
  pub shutdown_err : Option Err

abbrev pub new_server : Server
new_server = record {
  state = idle;
  listener = none;
  serve_done = absent;
  shutdown_done = absent;
  shutdown_err = none;
}

-- Where a goroutine stands in `Serve` or in `Shutdown`.
pub data Point : Type 0 where
  serve_call : Option ℕ → Point
  serve_locking : ℕ → Point
  listening : Point
  serve_exiting : Option Err → Point
  serve_returned : Option Err → Point
  shutdown_call : Option Bool → Point
  shutdown_locking : Point
  closing_listener : Option ℕ → Point
  draining : Point
  awaiting_exit : Option Err → Point
  finishing : Option Err → Point
  awaiting_shutdown : Point
  reading_result : Point
  shutdown_refused : Option Err → Point
  shutdown_returned : Option Err → Point
  panicked : Point

-- `isNilInterface(listener)` at the head of `Serve`
unfoldable pub check_listener : Option ℕ → Point
check_listener none = serve_returned (fails nil_listener)
check_listener (some l) = serve_locking l

-- The first section of `Serve`, by the state that it finds.
unfoldable pub enter_serve : LifecycleState → Server → ℕ → Server × Point
enter_serve idle s l = (
  record s { state = starting; listener = some l; serve_done = opened; shutdown_done = opened },
  listening,
)
enter_serve starting s l = (s, serve_returned (fails server_already_serving))
enter_serve serving s l = (s, serve_returned (fails server_already_serving))
enter_serve stopping s l = (s, serve_returned (fails server_stopped))
enter_serve stopped s l = (s, serve_returned (fails server_stopped))

-- `BeforeServeFunc`
unfoldable pub before_serve : LifecycleState → Server → Server × Option Err
before_serve starting s = (record s { state = serving }, none)
before_serve stopping s = (s, fails server_stopped)
before_serve stopped s = (s, fails server_stopped)
before_serve idle s = (s, some (wrapped (Err.sentinel server_stopped)))
before_serve serving s = (s, some (wrapped (Err.sentinel server_stopped)))

-- `close(c)`: it panics on a nil channel and on a closed one.
unfoldable pub close : Chan → Option Chan
close opened = some closed
close closed = none
close absent = none

abbrev pub is_stopping : LifecycleState → Bool
is_stopping stopping = true
is_stopping stopped = true
is_stopping _ = false

abbrev pub is_running : LifecycleState → Bool
is_running starting = true
is_running serving = true
is_running _ = false

-- What `Serve` returns after Fiber's `Listener` returned `e`.
unfoldable pub serve_result : Bool → Option Err → Option Err
serve_result asked e =
    if asked && (is_nil e || errors_is e net_closed || errors_is e server_stopped) then none else e

-- `if s.state == stateStarting || s.state == stateServing { … }`
abbrev pub stop_unasked : Server → Option Server
stop_unasked s =
    if is_running s.state
    then Option.map (λ c. record s { state = stopped; shutdown_done = c }) (close s.shutdown_done)
    else some s

-- The last section of `Serve`, and its result.
unfoldable pub leave_serve : Server → Option Err → Server × Point
unfolding close serve_result
leave_serve s e = elim (close s.serve_done) [
  | none ↦ (s, panicked)
  | some c ↦ elim (stop_unasked (record s { listener = none; serve_done = c })) [
    | none ↦ (s, panicked)
    | some t ↦ (t, serve_returned (serve_result (is_stopping s.state) e))
  ]
]

-- The tests at the head of `Shutdown`: a context is `none` if it is nil, else it says whether it has
-- a deadline.
unfoldable pub check_context : Option Bool → Point
check_context none = shutdown_refused (fails nil_shutdown_context)
check_context (some false) = shutdown_refused (fails unbounded_shutdown_context)
check_context (some true) = shutdown_locking

-- The section at the head of `Shutdown`, by the state that it finds.
unfoldable pub enter_shutdown : LifecycleState → Server → Server × Point
enter_shutdown idle s = (record s { state = stopped }, shutdown_returned none)
enter_shutdown stopped s = (s, shutdown_returned s.shutdown_err)
enter_shutdown stopping s = (s, awaiting_shutdown)
enter_shutdown starting s = (record s { state = stopping }, closing_listener s.listener)
enter_shutdown serving s = (record s { state = stopping }, draining)

-- After `listener.Close()` returned `e`; a nil listener makes the call panic.
unfoldable pub after_close : Option ℕ → Option Err → Point
after_close none e = panicked
after_close (some l) e = awaiting_exit (if errors_is e net_closed then none else e)

-- After `ShutdownWithContext` returned `e`.
unfoldable pub after_drain : Option Err → Point
after_drain e =
    awaiting_exit (if errors_is e fiber_not_running || errors_is e net_closed then none else e)

-- `finishShutdown`
unfoldable pub finish_shutdown : Server → Option Err → Server × Point
unfolding close
finish_shutdown s e = elim (close s.shutdown_done) [
  | none ↦ (s, panicked)
  | some c ↦
      (record s { state = stopped; shutdown_done = c; shutdown_err = e }, shutdown_returned e)
]
