-- ===== src/Grpc/Lifecycle/Steps.antt =====
-- The steps of one goroutine, and of any number of them in any order, with stores to the tracker in
-- between. `Serve`, `Shutdown` and `RefreshHealth` may be called at any time.
use final_weave.Prelude.{ℕ, Bool, ◌≡◌, Option, none, some, List, [], ◌∷◌, ◌++◌, get_elem?, set}
use final_weave.GoErrors.{Err, fails, context_canceled, deadline_exceeded}
use final_weave.Grpc.Lifecycle.{
  closed, Server, new_server, Point, serve_call, serve_locking, closing_rejected, serving_rpcs,
  serve_exiting, serve_returned, shutdown_call, shutdown_locking, checking_context, draining,
  drained, forcing, awaiting_serve, finishing, awaiting_shutdown, reading_result, shutdown_returned,
  refresh_call, refresh_locking, refresh_returned, check_listener, enter_serve, after_reject,
  leave_serve, check_context, enter_shutdown, finish_shutdown, publish_flag,
}

-- `ctx.Err()` of a context that is done.
pub data ContextError : Option Err → Type 0 where
  canceled : ContextError (fails context_canceled)
  expired : ContextError (fails deadline_exceeded)

pub data Move (s : Server) : Point → Server → Point → Type 0 where
  check_serve : (l : Option ℕ) → Move s (serve_call l) s (check_listener l)
  lock_serve :
      (l : ℕ) → Move s (serve_locking l) (enter_serve s.state s l).0 (enter_serve s.state s l).1
  reject_closed :
      (l : ℕ) (e : Option Err) → Move s (closing_rejected l) s (serve_returned (after_reject e))
  serve_ends : (e : Option Err) → Move s serving_rpcs s (serve_exiting e)
  lock_exit : (e : Option Err) → Move s (serve_exiting e) (leave_serve s e).0 (leave_serve s e).1
  check_shutdown : (c : Option Bool) → Move s (shutdown_call c) s (check_context c)
  lock_shutdown : Move s shutdown_locking (enter_shutdown s.state s).0 (enter_shutdown s.state s).1
  context_alive : Move s checking_context s draining
  context_dead : {c : Option Err} → ContextError c → Move s checking_context s (awaiting_serve c)
  graceful_stopped : Move s draining s drained
  context_done : {c : Option Err} → ContextError c → Move s draining s (forcing c)
  drained_in_time : Move s drained s (awaiting_serve none)
  drained_late : {c : Option Err} → ContextError c → Move s drained s (awaiting_serve c)
  forced : (c : Option Err) → Move s (forcing c) s (awaiting_serve c)
  serve_exited :
      (e : Option Err) → s.serve_done ≡ closed → Move s (awaiting_serve e) s (finishing e)
  lock_finish :
      (e : Option Err) → Move s (finishing e) (finish_shutdown s e).0 (finish_shutdown s e).1
  shutdown_seen : s.shutdown_done ≡ closed → Move s awaiting_shutdown s reading_result
  lock_result : Move s reading_result s (shutdown_returned s.shutdown_err)
  load_tracker : Move s refresh_call s (refresh_locking s.tracker_ready)
  lock_publish : (b : Bool) → Move s (refresh_locking b) (publish_flag s b) refresh_returned

pub record System : Type 0 where
  pub server : Server
  pub points : List Point

-- The calls that other code makes.
pub data IsCall : Point → Type 0 where
  serve : (l : Option ℕ) → IsCall (serve_call l)
  shutdown : (c : Option Bool) → IsCall (shutdown_call c)
  refresh : IsCall refresh_call

pub data Step (a : System) : System → Type 0 where
  call : {p : Point} → IsCall p → Step a (record a { points = a.points ++ p ∷ [] })
  store : (b : Bool) → Step a (record a { server = record (a.server) { tracker_ready = b } })
  run :
      (i : ℕ) (p : Point) {s : Server} {q : Point}
      → get_elem? a.points i ≡ some p
      → Move a.server p s q
      → Step a (record { server = s; points = set a.points i q })

pub data Reach (a : System) : System → Type 0 where
  here : Reach a a
  next : {b c : System} → Reach a b → Step b c → Reach a c

abbrev pub initial : System
initial = record { server = new_server; points = [] }

pub Reach-trans : {a b c : System} → Reach a b → Reach b c → Reach a c
Reach-trans r here = r
Reach-trans r (next t last) = next (Reach-trans r t) last
