-- ===== src/Http/Lifecycle/Drained.antt =====
-- pkg/api/httpserver/server.go: what a nil result of `Shutdown` says of `Serve`.
use final_weave.Prelude.{ℕ, ◌≤◌, ◌≡◌, ◌≢◌, none, some, All, All-append, All-get_elem?, arith}
use final_weave.Threads.{total, All-set, All-map_weaken, le-total}
use final_weave.Http.Lifecycle.{
  LifecycleState, stopped, opened, closed, Server, Point, finishing, check_listener, enter_serve,
  before_serve, leave_serve, check_context, enter_shutdown, after_close, after_drain,
  finish_shutdown,
}
use final_weave.Http.Lifecycle.Steps.{Move, System, Step, Reach, initial, canceled, expired}
use final_weave.Http.Lifecycle.Shape.{serves, leads, open_count, leaders, IsShaped, Inv}
use final_weave.Http.Lifecycle.Invariant.{Reach-Inv}

-- A goroutine that is about to store a nil result has seen `Serve` exit.
abbrev pub HasSeen : Server → Point → Type 0
HasSeen s (finishing none) = s.serve_done ≡ closed
HasSeen s _ = Unit {0}

-- A stopped server with a nil result has no goroutine inside `Serve`.
abbrev pub IsClean : LifecycleState → Server → Type 0
IsClean stopped s = s.shutdown_err ≡ none → s.serve_done ≢ opened
IsClean _ s = Unit {0}

-- One step keeps both, given what the invariant says of the server and of the goroutine that moves.
Move-HasSeen :
    (s : Server) {p q : Point} {t : Server}
    → IsShaped s.state s
    → Move s p t q
    → serves p ≤ open_count s.serve_done
    → leads p ≤ leaders s.state
    → HasSeen s p
    → IsClean s.state s
    → HasSeen t q × IsClean t.state t × (s.serve_done ≡ closed → t.serve_done ≡ closed)
unfolding check_listener enter_serve before_serve leave_serve check_context enter_shutdown
    after_close after_drain finish_shutdown
Move-HasSeen s shape (Move.check_serve l) own lead seen clean = ground arith
Move-HasSeen s shape (Move.lock_serve l) own lead seen clean = ground arith
Move-HasSeen s shape (Move.context_done none canceled) own lead seen clean = ground arith
Move-HasSeen s shape (Move.context_done none expired) own lead seen clean = ground arith
Move-HasSeen s shape (Move.context_done (some e) canceled) own lead seen clean = ground arith
Move-HasSeen s shape (Move.context_done (some e) expired) own lead seen clean = ground arith
Move-HasSeen s shape (Move.serve_exited none done) own lead seen clean = ground arith
Move-HasSeen s shape (Move.serve_exited (some e) done) own lead seen clean = ground arith
Move-HasSeen s shape (Move.lock_finish none) own lead seen clean = ground arith
Move-HasSeen s shape (Move.lock_finish (some e)) own lead seen clean = ground arith
Move-HasSeen s shape mv own lead seen clean = ground arith

HasSeen-closed :
    (s t : Server)
    → (s.serve_done ≡ closed → t.serve_done ≡ closed)
    → (p : Point) → HasSeen s p
    → HasSeen t p
HasSeen-closed s t stays (finishing none) seen = stays seen
HasSeen-closed s t stays p seen = ground arith

Step-IsClean :
    {a b : System}
    → Inv a
    → Step a b
    → All (HasSeen a.server) a.points × IsClean a.server.state a.server
    → All (HasSeen b.server) b.points × IsClean b.server.state b.server
Step-IsClean {a} inv (Step.call_serve l) (seen, clean) =
    (All-append (HasSeen a.server) a.points _ seen (tt, tt), clean)
Step-IsClean {a} inv (Step.call_shutdown c) (seen, clean) =
    (All-append (HasSeen a.server) a.points _ seen (tt, tt), clean)
Step-IsClean {a} inv (Step.run i p {s} {q} here mv) (seen, clean) =
    let (seen', clean', stays) =
      Move-HasSeen a.server inv.shape mv
        (omega (arith, le-total serves a.points i p here, inv.servers))
        (omega (arith, le-total leads a.points i p here, inv.in_charge))
        (All-get_elem? (HasSeen a.server) a.points i seen here) clean in
    (
      All-set (HasSeen s) a.points i q
          (All-map_weaken (HasSeen a.server) (HasSeen s) a.points (HasSeen-closed a.server s stays)
            seen)
          seen',
      clean',
    )

Reach-IsClean :
    {a : System}
    → Reach initial a
    → All (HasSeen a.server) a.points × IsClean a.server.state a.server
Reach-IsClean Reach.here = (tt, tt)
Reach-IsClean (Reach.next r st) = Step-IsClean (Reach-Inv r) st (Reach-IsClean r)

-- Once the server is stopped with a nil result, nobody is inside `Serve`.
pub Reach-drained :
    {a : System}
    → Reach initial a
    → a.server.state ≡ stopped
    → a.server.shutdown_err ≡ none
    → total serves a.points ≡ 0
Reach-drained {a} r off none_left =
    none_open a.server.state a.server (Reach-IsClean r).1 off none_left (Reach-Inv r).servers
  where
    none_open :
        (st : LifecycleState) (s : Server)
        → IsClean st s
        → st ≡ stopped
        → s.shutdown_err ≡ none
        → {n : ℕ} → n ≡ open_count s.serve_done
        → n ≡ 0
    none_open st s clean off none_left e = ground arith
