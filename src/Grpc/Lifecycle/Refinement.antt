-- ===== src/Grpc/Lifecycle/Refinement.antt =====
-- pkg/api/grpcserver/server.go: the server as an implementation of the contract in Service.
use final_weave.Prelude.{ℕ, ◌≤◌, ap, ◌⊎◌, inl, inr, ◌≡◌, refl, Option, none, All-get_elem?, arith}
use final_weave.GoErrors.{Err}
use final_weave.Threads.{le-total}
use final_weave.Service.{
  Phase, fresh, running, ending, ended, Label, admitted, busy, late, silent, answered, Act, Trace,
  Implementation, Run, labels,
}
use final_weave.Service.History.{Run-Trace, IsSingleUse, Trace-IsSingleUse}
use final_weave.Grpc.Lifecycle.{
  LifecycleState, idle, serving, stopping, stopped, Server, new_server, Point, serve_locking,
  serving_rpcs, serve_exiting, finishing, shutdown_locking, closing_rejected, serve_returned,
  shutdown_returned, check_listener, enter_serve, leave_serve, check_context, enter_shutdown,
  finish_shutdown, publish_flag,
}
use final_weave.Grpc.Lifecycle.Steps.{Move, System, Step, Reach, initial}
use final_weave.Grpc.Lifecycle.Shape.{IsShaped, Knows, Inv, serves, leads, leaders, open_count}
use final_weave.Grpc.Lifecycle.Invariant.{Inv-initial, Step-Inv}

abbrev pub phase : LifecycleState → Option Err → Phase
phase idle e = fresh
phase serving e = running
phase stopping e = ending
phase stopped e = ended e

abbrev pub view : Server → Phase
view s = phase s.state s.shutdown_err

-- What the caller learns by a step from one point to another.
abbrev pub lesson : Point → Point → Label
lesson (serve_locking l) serving_rpcs = admitted
lesson (serve_locking l) (serve_returned e) = busy
lesson (serve_locking l) (closing_rejected m) = late
lesson p (shutdown_returned e) = answered e
lesson p q = silent

acts : {p p' q q' : Phase} {l l' : Label} → p' ≡ p → l' ≡ l → q' ≡ q → Act p l q → Act p' l' q'
acts e f g act = rw (e, f, g) act

-- A step that leaves the phase as it is, and tells nobody anything.
rests : {p q : Phase} {l : Label} → q ≡ p → l ≡ silent → Act p l q
rests {p} same quiet = acts refl quiet same (Act.rest p)

enter_serve-Act :
    (st : LifecycleState) (s : Server) (l : ℕ)
    → view s ≡ phase st s.shutdown_err
    → Act
        (phase st s.shutdown_err)
        (lesson (serve_locking l) (enter_serve st s l).1)
        (view (enter_serve st s l).0)
unfolding enter_serve
enter_serve-Act idle s l same = Act.start
enter_serve-Act serving s l same = acts refl refl same Act.refuse_busy
enter_serve-Act stopping s l same = acts refl refl same Act.refuse_ending
enter_serve-Act stopped s l same = acts refl refl same (Act.refuse_ended _)

enter_shutdown-Act :
    (st : LifecycleState) (s : Server)
    → view s ≡ phase st s.shutdown_err
    → IsShaped st s
    → Act
        (phase st s.shutdown_err)
        (lesson shutdown_locking (enter_shutdown st s).1)
        (view (enter_shutdown st s).0)
unfolding enter_shutdown
enter_shutdown-Act idle s same shape = acts refl refl (ap ended (shape.2)) Act.retire
enter_shutdown-Act serving s same shape = Act.begin
enter_shutdown-Act stopping s same shape = acts refl refl same (Act.rest ending)
enter_shutdown-Act stopped s same shape = acts refl refl same (Act.repeat _)

-- What the last section of `Serve` does to the phase.
leave_serve-Act :
    (s : Server) (e : Option Err)
    → IsShaped s.state s
    → 1 ≤ open_count s.serve_done
    → Act (view s) (lesson (serve_exiting e) (leave_serve s e).1) (view (leave_serve s e).0)
unfolding leave_serve
leave_serve-Act s e shape inside = elim (outcome s e shape inside) [
  | inl (same, quiet) ↦ rests same quiet
  | inr (up, off, quiet) ↦ acts up quiet off Act.leave
]
  where
    outcome :
        (s : Server) (e : Option Err)
        → IsShaped s.state s
        → 1 ≤ open_count s.serve_done
        → ((view (leave_serve s e).0 ≡ view s)
            × (lesson (serve_exiting e) (leave_serve s e).1 ≡ silent))
          ⊎ ((view s ≡ running)
              × (view (leave_serve s e).0 ≡ ended none)
              × (lesson (serve_exiting e) (leave_serve s e).1 ≡ silent))
    outcome s e shape inside = ground arith

finish_shutdown-Act :
    (s : Server) (e : Option Err)
    → IsShaped s.state s
    → s.state ≡ stopping
    → Act (view s) (lesson (finishing e) (finish_shutdown s e).1) (view (finish_shutdown s e).0)
unfolding finish_shutdown
finish_shutdown-Act s e shape going =
    acts (ground arith) (ground arith) (ground arith) (Act.finish e)

Move-Act :
    (s : Server) {p q : Point} {t : Server}
    → IsShaped s.state s
    → Move s p t q
    → serves p ≤ open_count s.serve_done
    → leads p ≤ leaders s.state
    → Knows s p
    → Act (view s) (lesson p q) (view t)
unfolding check_listener check_context publish_flag
Move-Act s shape (Move.lock_serve l) own lead known = enter_serve-Act s.state s l refl
Move-Act s shape (Move.lock_exit e) own lead known = leave_serve-Act s e shape own
Move-Act s shape Move.lock_shutdown own lead known = enter_shutdown-Act s.state s refl shape
Move-Act s shape (Move.lock_finish e) own lead known = finish_shutdown-Act s e shape (ground arith)
Move-Act s shape Move.lock_result own lead known =
    acts (ground arith) refl (ground arith) (Act.repeat _)
Move-Act s shape (Move.check_serve l) own lead known = rests refl (ground arith)
Move-Act s shape (Move.check_shutdown c) own lead known = rests refl (ground arith)
Move-Act s shape mv own lead known = Act.rest _

-- What a step of the system tells: only a goroutine's own step can tell anything.
abbrev pub told : {a b : System} → Step a b → Label
told (Step.run i p {s} {q} here mv) = lesson p q
told _ = silent

pub Step-Act :
    {a b : System} (st : Step a b) → Inv a → Act (view a.server) (told st) (view b.server)
Step-Act {a} (Step.run i p here mv) inv =
    Move-Act a.server inv.shape mv (omega (arith, le-total serves a.points i p here, inv.servers))
      (omega (arith, le-total leads a.points i p here, inv.in_charge))
      (All-get_elem? (Knows a.server) a.points i inv.known here)
Step-Act (Step.call c) inv = Act.rest _
Step-Act (Step.store b) inv = Act.rest _

pub Inv-initial_fresh : Inv initial × (view new_server ≡ fresh)
unfolding new_server
Inv-initial_fresh = (Inv-initial, refl)

abbrev pub grpc_service : Implementation
grpc_service = record {
  System = System;
  Step = Step;
  initial = initial;
  Inv = Inv;
  view = λ a. view a.server;
  label = told;
  starts = Inv-initial_fresh;
  keeps = Step-Inv;
  simulates = Step-Act;
}

-- Every reachable state is the end of a run.
pub run_of : {a : System} → Reach initial a → Run grpc_service a
run_of Reach.here = Run.here
run_of (Reach.next r st) = Run.next (run_of r) st

-- The server implements the contract: the labels of every run are a history that the contract allows,
-- to the phase in which the server is, and so `Serve` is admitted at most once, never after a
-- `Shutdown` was answered, and all answers are the same.
pub grpc_refines_service :
    {a : System} (r : Run grpc_service a)
    → Trace fresh (labels grpc_service r) (view a.server) × IsSingleUse (labels grpc_service r)
grpc_refines_service r = let t = Run-Trace grpc_service r in (t, Trace-IsSingleUse t)
