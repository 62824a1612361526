-- ===== src/Grpc/Lifecycle/Advance.antt =====
-- pkg/api/grpcserver/server.go: what keeps a goroutine from going on, and who can go on instead.
use final_weave.Prelude.{
  ℕ, ◌<◌, ◌≡◌, ◌⊎◌, inl, inr, Option, none, some, List, [], ◌∷◌, get_elem?, All, All-get_elem?,
  arith,
}
use final_weave.GoErrors.{Err}
use final_weave.Threads.{total, le-total, find_weight}
use final_weave.Grpc.Lifecycle.{
  Server, stopping, closed, Point, serve_call, serve_locking, closing_rejected, serving_rpcs,
  serve_exiting, serve_returned, shutdown_call, shutdown_locking, checking_context, draining,
  drained, forcing, awaiting_serve, finishing, awaiting_shutdown, reading_result, shutdown_refused,
  shutdown_returned, refresh_call, refresh_locking, refresh_returned, check_listener, enter_serve,
  leave_serve, check_context, enter_shutdown, finish_shutdown,
}
use final_weave.Grpc.Lifecycle.Steps.{Move, System}
use final_weave.Grpc.Lifecycle.Shape.{serves, leads, open_count, crashes, Knows, Inv, IsShaped}

-- The steps that a goroutine can still take.
abbrev pub work : Point → ℕ
work (serve_call _) = 4
work (serve_locking _) = 3
work serving_rpcs = 2
work (closing_rejected _) = 1
work (serve_exiting _) = 1
work (shutdown_call _) = 7
work shutdown_locking = 6
work checking_context = 5
work draining = 4
work drained = 3
work (forcing _) = 3
work (awaiting_serve _) = 2
work awaiting_shutdown = 2
work (finishing _) = 1
work reading_result = 1
work refresh_call = 2
work (refresh_locking _) = 1
work _ = 0

abbrev pub remaining : System → ℕ
remaining a = total work a.points

pub Move-work : {s t : Server} {p q : Point} → Move s p t q → work q < work p
unfolding check_listener enter_serve leave_serve check_context enter_shutdown finish_shutdown
Move-work (Move.check_serve l) = ground arith
Move-work mv = ground arith

-- A step that a goroutine can take, and that leaves less work.
abbrev pub Advances : System → Type 0
Advances a =
    (i : ℕ) × (p : Point) × (s : Server) × (q : Point) × (get_elem? a.points i ≡ some p)
    × Move a.server p s q
    × (work q < work p)

advance :
    (a : System) (i : ℕ) {p : Point} {s : Server} {q : Point}
    → get_elem? a.points i ≡ some p
    → Move a.server p s q
    → Advances a
advance a i {p} {s} {q} here mv = (i, p, s, q, here, mv, Move-work mv)

-- Wherever it stands, a goroutine inside `Serve` can go on.
serving-Advances :
    (a : System) (i : ℕ) (p : Point) → get_elem? a.points i ≡ some p → 0 < serves p → Advances a
serving-Advances a i serving_rpcs here h = advance a i here (Move.serve_ends none)
serving-Advances a i (serve_exiting e) here h = advance a i here (Move.lock_exit e)
serving-Advances a i _ here h = absurd (omega arith)

-- What waits for `Serve` waits for a goroutine inside it, or no longer.
awaiting_serve-Advances :
    (a : System) (i : ℕ) (e : Option Err)
    → Inv a
    → a.server.state ≡ stopping
    → get_elem? a.points i ≡ some (awaiting_serve e)
    → Advances a
awaiting_serve-Advances a i e inv going here = elim (exited a.server going inv.shape) [
  | inl gone ↦ advance a i here (Move.serve_exited e gone)
  | inr inhabited ↦
      let (j, p, at_j, inside) =
        find_weight serves a.points (omega (arith, inv.servers, inhabited)) in
      serving-Advances a j p at_j inside
]
  where
    exited :
        (s : Server)
        → s.state ≡ stopping
        → IsShaped s.state s
        → (s.serve_done ≡ closed) ⊎ (0 < open_count s.serve_done)
    exited s going shape = ground arith

leading-Advances :
    (a : System) (i : ℕ) (p : Point)
    → Inv a
    → a.server.state ≡ stopping
    → get_elem? a.points i ≡ some p
    → 0 < leads p
    → Advances a
leading-Advances a i checking_context inv going here h = advance a i here Move.context_alive
leading-Advances a i draining inv going here h = advance a i here Move.graceful_stopped
leading-Advances a i drained inv going here h = advance a i here Move.drained_in_time
leading-Advances a i (forcing c) inv going here h = advance a i here (Move.forced c)
leading-Advances a i (awaiting_serve e) inv going here h =
    awaiting_serve-Advances a i e inv going here
leading-Advances a i (finishing e) inv going here h = advance a i here (Move.lock_finish e)
leading-Advances a i _ inv going here h = absurd (omega arith)

-- A server with a goroutine in charge of its shutdown is stopping.
leads_when_stopping :
    (a : System) (i : ℕ) (p : Point)
    → Inv a
    → get_elem? a.points i ≡ some p
    → 0 < leads p
    → a.server.state ≡ stopping
leads_when_stopping a i p inv here h =
    ground (arith, le-total leads a.points i p here, inv.in_charge)

pub working-Advances :
    (a : System) (i : ℕ) (p : Point)
    → Inv a
    → get_elem? a.points i ≡ some p
    → 0 < work p
    → Advances a
working-Advances a i (serve_call l) inv here h = advance a i here (Move.check_serve l)
working-Advances a i (serve_locking l) inv here h = advance a i here (Move.lock_serve l)
working-Advances a i serving_rpcs inv here h = advance a i here (Move.serve_ends none)
working-Advances a i (closing_rejected l) inv here h = advance a i here (Move.reject_closed l none)
working-Advances a i (serve_exiting e) inv here h = advance a i here (Move.lock_exit e)
working-Advances a i (shutdown_call c) inv here h = advance a i here (Move.check_shutdown c)
working-Advances a i shutdown_locking inv here h = advance a i here Move.lock_shutdown
working-Advances a i awaiting_shutdown inv here h =
    elim (All-get_elem? (Knows a.server) a.points i inv.known here) [
      | inl going ↦
          let (j, p, at_j, lead) = find_weight leads a.points (ground (arith, inv.in_charge)) in
          leading-Advances a j p inv going at_j lead
      | inr (_, told) ↦ advance a i here (Move.shutdown_seen told)
    ]
working-Advances a i reading_result inv here h = advance a i here Move.lock_result
working-Advances a i refresh_call inv here h = advance a i here Move.load_tracker
working-Advances a i (refresh_locking b) inv here h = advance a i here (Move.lock_publish b)
working-Advances a i checking_context inv here h = advance a i here Move.context_alive
working-Advances a i p inv here h =
    leading-Advances a i p inv (leads_when_stopping a i p inv here (ground arith)) here
      (ground arith)

-- What a call has come to.
pub data IsReturned : Point → Type 0 where
  served : (e : Option Err) → IsReturned (serve_returned e)
  refused : (e : Option Err) → IsReturned (shutdown_refused e)
  shut_down : (e : Option Err) → IsReturned (shutdown_returned e)
  refreshed : IsReturned refresh_returned

IsReturned-of : (p : Point) → crashes p ≡ 0 → work p ≡ 0 → IsReturned p
IsReturned-of (serve_returned e) calm h = IsReturned.served e
IsReturned-of (shutdown_refused e) calm h = IsReturned.refused e
IsReturned-of (shutdown_returned e) calm h = IsReturned.shut_down e
IsReturned-of refresh_returned calm h = IsReturned.refreshed
IsReturned-of _ calm h = absurd (omega arith)

pub All-IsReturned :
    (ps : List Point) → All (λ p. crashes p ≡ 0) ps → All (λ p. work p ≡ 0) ps → All IsReturned ps
All-IsReturned [] calm h = tt
All-IsReturned (p ∷ ps) calm h = (IsReturned-of p calm.0 h.0, All-IsReturned ps calm.1 h.1)
