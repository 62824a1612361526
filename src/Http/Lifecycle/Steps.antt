-- ===== src/Http/Lifecycle/Steps.antt =====
-- The steps of one goroutine, and of any number of them in any order. `Serve` and `Shutdown` may be
-- called at any time, by any goroutine.
use final_weave.Prelude.{ℕ, Bool, ◌≡◌, Option, none, some, List, [], ◌∷◌, ◌++◌, get_elem?, set}
use final_weave.GoErrors.{Err, fails, context_canceled, deadline_exceeded, errors_join}
use final_weave.Http.Lifecycle.{
  closed, Server, new_server, Point, serve_call, serve_locking, listening, serve_exiting,
  shutdown_call, shutdown_locking, closing_listener, draining, awaiting_exit, finishing,
  awaiting_shutdown, reading_result, shutdown_returned, check_listener, enter_serve, before_serve,
  leave_serve, check_context, enter_shutdown, after_close, after_drain, finish_shutdown,
}

-- `ctx.Err()` of a context that is done.
pub data ContextError : Option Err → Type 0 where
  canceled : ContextError (fails context_canceled)
  expired : ContextError (fails deadline_exceeded)

pub data Move (s : Server) : Point → Server → Point → Type 0 where
  check_serve : (l : Option ℕ) → Move s (serve_call l) s (check_listener l)
  lock_serve :
      (l : ℕ) → Move s (serve_locking l) (enter_serve s.state s l).0 (enter_serve s.state s l).1
  call_before_serve : Move s listening (before_serve s.state s).0 listening
  listener_returns : (e : Option Err) → Move s listening s (serve_exiting e)
  lock_exit : (e : Option Err) → Move s (serve_exiting e) (leave_serve s e).0 (leave_serve s e).1
  check_shutdown : (c : Option Bool) → Move s (shutdown_call c) s (check_context c)
  lock_shutdown : Move s shutdown_locking (enter_shutdown s.state s).0 (enter_shutdown s.state s).1
  close_returns : (l : Option ℕ) (e : Option Err) → Move s (closing_listener l) s (after_close l e)
  drain_returns : (e : Option Err) → Move s draining s (after_drain e)
  serve_exited :
      (e : Option Err)
      → s.serve_done ≡ closed
      → Move s (awaiting_exit e) s (finishing (errors_join e none))
  context_done :
      (e : Option Err) {c : Option Err}
      → ContextError c
      → Move s (awaiting_exit e) s (finishing (errors_join e c))
  lock_finish :
      (e : Option Err) → Move s (finishing e) (finish_shutdown s e).0 (finish_shutdown s e).1
  shutdown_seen : s.shutdown_done ≡ closed → Move s awaiting_shutdown s reading_result
  lock_result : Move s reading_result s (shutdown_returned s.shutdown_err)

pub record System : Type 0 where
  pub server : Server
  pub points : List Point

pub data Step (a : System) : System → Type 0 where
  call_serve : (l : Option ℕ) → Step a (record a { points = a.points ++ serve_call l ∷ [] })
  call_shutdown :
      (c : Option Bool) → Step a (record a { points = a.points ++ shutdown_call c ∷ [] })
  run :
      (i : ℕ) (p : Point) {s : Server} {q : Point}
      → get_elem? a.points i ≡ some p
      → Move a.server p s q
      → Step a (record { server = s; points = set a.points i q })

-- What can follow a state, and the server that `New` returns.
pub data Reach (a : System) : System → Type 0 where
  here : Reach a a
  next : {b c : System} → Reach a b → Step b c → Reach a c

abbrev pub initial : System
initial = record { server = new_server; points = [] }

-- One more step at the front.
pub Reach-before : {a b c : System} → Step a b → Reach b c → Reach a c
Reach-before st here = next here st
Reach-before st (next r last) = next (Reach-before st r) last

pub Reach-trans : {a b c : System} → Reach a b → Reach b c → Reach a c
Reach-trans r here = r
Reach-trans r (next t last) = next (Reach-trans r t) last
