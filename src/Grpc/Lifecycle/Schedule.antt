-- ===== src/Grpc/Lifecycle/Schedule.antt =====
-- Reachable states by evaluation: run the goroutines in a given order, with a given choice at each
-- step. A choice that does not fit its goroutine changes nothing.
use final_weave.Prelude.{ℕ, Bool, ◌≡◌, refl, Option, none, some, List, [], ◌∷◌, get_elem?}
use final_weave.GoErrors.{Err}
use final_weave.Grpc.HealthBridge.{new_bridge}
use final_weave.Grpc.Lifecycle.{
  Chan, absent, opened, closed, Server, new_server, Point, serve_call, serve_locking,
  closing_rejected, serving_rpcs, serve_exiting, shutdown_call, shutdown_locking, checking_context,
  draining, drained, forcing, awaiting_serve, finishing, awaiting_shutdown, reading_result,
  refresh_call, refresh_locking, check_listener, enter_serve, after_reject, leave_serve,
  check_context, enter_shutdown, finish_shutdown, publish_flag,
}
use final_weave.Grpc.Lifecycle.Steps.{Move, System, IsCall, Step, Reach, initial, expired}

-- What the environment decides: what a call returns, whether the context of `Shutdown` expires
-- first.
pub data Choice : Type 0 where
  go : Choice
  answer : Option Err → Choice
  expire : Choice

abbrev Next : Server → Point → Type 0
Next s p = Option ((t : Server) × (q : Point) × Move s p t q)

after_serve :
    (s : Server) (e : Option Err) (c : Chan) → s.serve_done ≡ c → Next s (awaiting_serve e)
after_serve s e closed h = some (_, _, Move.serve_exited e h)
after_serve s e opened h = none
after_serve s e absent h = none

after_shutdown : (s : Server) (c : Chan) → s.shutdown_done ≡ c → Next s awaiting_shutdown
after_shutdown s closed h = some (_, _, Move.shutdown_seen h)
after_shutdown s opened h = none
after_shutdown s absent h = none

next_move : (s : Server) (p : Point) → Choice → Next s p
unfolding after_serve after_shutdown
next_move s (serve_call l) c = some (_, _, Move.check_serve l)
next_move s (serve_locking l) c = some (_, _, Move.lock_serve l)
next_move s (closing_rejected l) (answer e) = some (_, _, Move.reject_closed l e)
next_move s serving_rpcs (answer e) = some (_, _, Move.serve_ends e)
next_move s (serve_exiting e) c = some (_, _, Move.lock_exit e)
next_move s (shutdown_call b) c = some (_, _, Move.check_shutdown b)
next_move s shutdown_locking c = some (_, _, Move.lock_shutdown)
next_move s checking_context go = some (_, _, Move.context_alive)
next_move s checking_context expire = some (_, _, Move.context_dead expired)
next_move s draining go = some (_, _, Move.graceful_stopped)
next_move s draining expire = some (_, _, Move.context_done expired)
next_move s drained go = some (_, _, Move.drained_in_time)
next_move s drained expire = some (_, _, Move.drained_late expired)
next_move s (forcing c) go = some (_, _, Move.forced c)
next_move s (awaiting_serve e) c = after_serve s e s.serve_done refl
next_move s (finishing e) c = some (_, _, Move.lock_finish e)
next_move s awaiting_shutdown c = after_shutdown s s.shutdown_done refl
next_move s reading_result c = some (_, _, Move.lock_result)
next_move s refresh_call c = some (_, _, Move.load_tracker)
next_move s (refresh_locking b) c = some (_, _, Move.lock_publish b)
next_move s _ c = none

pub record Run : Type 0 where
  pub last : System
  pub reach : Reach initial last

pub data Turn : Type 0 where
  serve : Option ℕ → Turn
  shutdown : Option Bool → Turn
  refresh : Turn
  store : Bool → Turn
  at : ℕ → Choice → Turn

point_at : (ps : List Point) (i : ℕ) → Option ((p : Point) × (get_elem? ps i ≡ some p))
point_at ps i = find (get_elem? ps i) refl
  where
    find :
        (o : Option Point) → get_elem? ps i ≡ o → Option ((p : Point) × (get_elem? ps i ≡ some p))
    find none h = none
    find (some p) h = some (p, h)

turn : Run → Turn → Run
unfolding next_move point_at
turn r (serve l) = record { last = _; reach = Reach.next r.reach (Step.call (IsCall.serve l)) }
turn r (shutdown b) = record {
  last = _;
  reach = Reach.next r.reach (Step.call (IsCall.shutdown b));
}
turn r refresh = record { last = _; reach = Reach.next r.reach (Step.call IsCall.refresh) }
turn r (store b) = record { last = _; reach = Reach.next r.reach (Step.store b) }
turn r (at i c) = elim (point_at r.last.points i) [
  | none ↦ r
  | some (p, h) ↦ elim (next_move r.last.server p c) [
    | none ↦ r
    | some (t, q, mv) ↦ record { last = _; reach = Reach.next r.reach (Step.run i p h mv) }
  ]
]

unfoldable pub run_from : Run → List Turn → Run
unfolding turn check_listener enter_serve after_reject leave_serve check_context enter_shutdown
    finish_shutdown publish_flag new_server new_bridge
run_from r [] = r
run_from r (t ∷ ts) = run_from (turn r t) ts

abbrev pub start : Run
start = record { last = initial; reach = Reach.here }
