-- ===== src/Http/Lifecycle/Schedule.antt =====
-- Reachable states by evaluation: run the goroutines in a given order, with a given choice at each
-- step. A choice that does not fit its goroutine changes nothing.
use final_weave.Prelude.{ℕ, Bool, ◌≡◌, refl, Option, none, some, List, [], ◌∷◌, get_elem?}
use final_weave.GoErrors.{Err}
use final_weave.Http.Lifecycle.{
  Chan, absent, opened, closed, Server, Point, serve_call, serve_locking, listening, serve_exiting,
  shutdown_call, shutdown_locking, closing_listener, draining, awaiting_exit, finishing,
  awaiting_shutdown, reading_result, check_listener, enter_serve, before_serve, leave_serve,
  check_context, enter_shutdown, after_close, after_drain, finish_shutdown,
}
use final_weave.Http.Lifecycle.Steps.{Move, System, Step, Reach, initial, expired}

-- What the environment decides: whether Fiber calls `BeforeServeFunc`, what a call returns, whether
-- the context of `Shutdown` expires first.
pub data Choice : Type 0 where
  go : Choice
  hook : Choice
  answer : Option Err → Choice
  expire : Choice

abbrev Next : Server → Point → Type 0
Next s p = Option ((t : Server) × (q : Point) × Move s p t q)

after_exit : (s : Server) (e : Option Err) (c : Chan) → s.serve_done ≡ c → Next s (awaiting_exit e)
after_exit s e closed h = some (_, _, Move.serve_exited e h)
after_exit s e opened h = none
after_exit s e absent h = none

after_shutdown : (s : Server) (c : Chan) → s.shutdown_done ≡ c → Next s awaiting_shutdown
after_shutdown s closed h = some (_, _, Move.shutdown_seen h)
after_shutdown s opened h = none
after_shutdown s absent h = none

next_move : (s : Server) (p : Point) → Choice → Next s p
unfolding after_exit after_shutdown
next_move s (serve_call l) c = some (_, _, Move.check_serve l)
next_move s (serve_locking l) c = some (_, _, Move.lock_serve l)
next_move s listening hook = some (_, _, Move.call_before_serve)
next_move s listening (answer e) = some (_, _, Move.listener_returns e)
next_move s (serve_exiting e) c = some (_, _, Move.lock_exit e)
next_move s (shutdown_call b) c = some (_, _, Move.check_shutdown b)
next_move s shutdown_locking c = some (_, _, Move.lock_shutdown)
next_move s (closing_listener l) (answer e) = some (_, _, Move.close_returns l e)
next_move s draining (answer e) = some (_, _, Move.drain_returns e)
next_move s (awaiting_exit e) expire = some (_, _, Move.context_done e expired)
next_move s (awaiting_exit e) go = after_exit s e s.serve_done refl
next_move s (finishing e) c = some (_, _, Move.lock_finish e)
next_move s awaiting_shutdown c = after_shutdown s s.shutdown_done refl
next_move s reading_result c = some (_, _, Move.lock_result)
next_move s _ c = none

pub record Run : Type 0 where
  pub last : System
  pub reach : Reach initial last

pub data Turn : Type 0 where
  serve : Option ℕ → Turn
  shutdown : Option Bool → Turn
  at : ℕ → Choice → Turn

point_at : (ps : List Point) (i : ℕ) → Option ((p : Point) × (get_elem? ps i ≡ some p))
point_at ps i = find (get_elem? ps i) refl
  where
    find :
        (o : Option Point) → get_elem? ps i ≡ o → Option ((p : Point) × (get_elem? ps i ≡ some p))
    find none h = none
    find (some p) h = some (p, h)

turn : Run → Turn → Run
unfolding next_move point_at
turn r (serve l) = record { last = _; reach = Reach.next r.reach (Step.call_serve l) }
turn r (shutdown b) = record { last = _; reach = Reach.next r.reach (Step.call_shutdown b) }
turn r (at i c) = elim (point_at r.last.points i) [
  | none ↦ r
  | some (p, h) ↦ elim (next_move r.last.server p c) [
    | none ↦ r
    | some (t, q, mv) ↦ record { last = _; reach = Reach.next r.reach (Step.run i p h mv) }
  ]
]

unfoldable pub run_from : Run → List Turn → Run
unfolding turn check_listener enter_serve before_serve leave_serve check_context enter_shutdown
    after_close after_drain finish_shutdown
run_from r [] = r
run_from r (t ∷ ts) = run_from (turn r t) ts

abbrev pub start : Run
start = record { last = initial; reach = Reach.here }
