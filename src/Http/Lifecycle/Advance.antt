-- ===== src/Http/Lifecycle/Advance.antt =====
-- pkg/api/httpserver/server.go: what keeps a goroutine from going on, and who can go on instead.
use final_weave.Prelude.{
  ℕ, ◌+◌, ◌≤◌, ◌<◌, ◌≡◌, refl, inl, inr, Option, none, some, List, [], ◌∷◌, get_elem?, All,
  All-get_elem?, arith,
}
use final_weave.GoErrors.{Err}
use final_weave.Threads.{total, find_weight}
use final_weave.Http.Lifecycle.{
  Server, Point, serve_call, serve_locking, listening, serve_exiting, serve_returned, shutdown_call,
  shutdown_locking, closing_listener, draining, awaiting_exit, finishing, awaiting_shutdown,
  reading_result, shutdown_refused, shutdown_returned, check_listener, enter_serve, before_serve,
  leave_serve, check_context, enter_shutdown, after_close, after_drain, finish_shutdown,
}
use final_weave.Http.Lifecycle.Steps.{Move, System, expired}
use final_weave.Http.Lifecycle.Shape.{leads, crashes, Knows, Inv}

-- The steps that a goroutine can still take, calls of `BeforeServeFunc` apart.
abbrev pub work : Point → ℕ
work (serve_call _) = 4
work (serve_locking _) = 3
work listening = 2
work (serve_exiting _) = 1
work (shutdown_call _) = 5
work shutdown_locking = 4
work (closing_listener _) = 3
work draining = 3
work (awaiting_exit _) = 2
work awaiting_shutdown = 2
work (finishing _) = 1
work reading_result = 1
work _ = 0

abbrev pub remaining : System → ℕ
remaining a = total work a.points

-- 1 for a step of the goroutine itself, 0 for a call of `BeforeServeFunc`.
abbrev pub own : {s t : Server} {p q : Point} → Move s p t q → ℕ
own Move.call_before_serve = 0
own _ = 1

pub Move-work : {s t : Server} {p q : Point} (mv : Move s p t q) → own mv + work q ≤ work p
unfolding check_listener enter_serve before_serve leave_serve check_context enter_shutdown
    after_close after_drain finish_shutdown
Move-work (Move.check_serve l) = ground arith
Move-work (Move.lock_serve l) = ground arith
Move-work Move.call_before_serve = ground arith
Move-work (Move.listener_returns e) = ground arith
Move-work (Move.lock_exit e) = ground arith
Move-work (Move.check_shutdown c) = ground arith
Move-work Move.lock_shutdown = ground arith
Move-work (Move.close_returns l e) = ground arith
Move-work (Move.drain_returns e) = ground arith
Move-work (Move.serve_exited e done) = ground arith
Move-work (Move.context_done e c) = ground arith
Move-work (Move.lock_finish e) = ground arith
Move-work (Move.shutdown_seen done) = ground arith
Move-work Move.lock_result = ground arith

-- A step that a goroutine can take, and that leaves less work.
abbrev pub Advances : System → Type 0
Advances a =
    (i : ℕ) × (p : Point) × (s : Server) × (q : Point) × (get_elem? a.points i ≡ some p)
    × Move a.server p s q
    × (work q < work p)

advance :
    (a : System) (i : ℕ) {p : Point} {s : Server} {q : Point}
    → get_elem? a.points i ≡ some p
    → (mv : Move a.server p s q) → own mv ≡ 1
    → Advances a
advance a i {p} {s} {q} here mv mine = (i, p, s, q, here, mv, omega (arith, Move-work mv))

leading-Advances :
    (a : System) (i : ℕ) (p : Point) → get_elem? a.points i ≡ some p → 0 < leads p → Advances a
leading-Advances a i (closing_listener l) here h = advance a i here (Move.close_returns l none) refl
leading-Advances a i draining here h = advance a i here (Move.drain_returns none) refl
leading-Advances a i (awaiting_exit e) here h = advance a i here (Move.context_done e expired) refl
leading-Advances a i (finishing e) here h = advance a i here (Move.lock_finish e) refl
leading-Advances a i _ here h = absurd (omega arith)

pub working-Advances :
    (a : System) (i : ℕ) (p : Point)
    → Inv a
    → get_elem? a.points i ≡ some p
    → 0 < work p
    → Advances a
working-Advances a i (serve_call l) inv here h = advance a i here (Move.check_serve l) refl
working-Advances a i (serve_locking l) inv here h = advance a i here (Move.lock_serve l) refl
working-Advances a i listening inv here h = advance a i here (Move.listener_returns none) refl
working-Advances a i (serve_exiting e) inv here h = advance a i here (Move.lock_exit e) refl
working-Advances a i (shutdown_call c) inv here h = advance a i here (Move.check_shutdown c) refl
working-Advances a i shutdown_locking inv here h = advance a i here Move.lock_shutdown refl
working-Advances a i awaiting_shutdown inv here h =
    elim (All-get_elem? (Knows a.server) a.points i inv.known here) [
      | inl going ↦
          let (j, p, at_j, lead) = find_weight leads a.points (ground (arith, inv.in_charge)) in
          leading-Advances a j p at_j lead
      | inr (_, told) ↦ advance a i here (Move.shutdown_seen told) refl
    ]
working-Advances a i reading_result inv here h = advance a i here Move.lock_result refl
working-Advances a i p inv here h = leading-Advances a i p here (ground arith)

-- What a call has come to.
pub data IsReturned : Point → Type 0 where
  served : (e : Option Err) → IsReturned (serve_returned e)
  refused : (e : Option Err) → IsReturned (shutdown_refused e)
  shut_down : (e : Option Err) → IsReturned (shutdown_returned e)

IsReturned-of : (p : Point) → crashes p ≡ 0 → work p ≡ 0 → IsReturned p
IsReturned-of (serve_returned e) calm h = IsReturned.served e
IsReturned-of (shutdown_refused e) calm h = IsReturned.refused e
IsReturned-of (shutdown_returned e) calm h = IsReturned.shut_down e
IsReturned-of _ calm h = absurd (omega arith)

pub All-IsReturned :
    (ps : List Point) → All (λ p. crashes p ≡ 0) ps → All (λ p. work p ≡ 0) ps → All IsReturned ps
All-IsReturned [] calm h = tt
All-IsReturned (p ∷ ps) calm h = (IsReturned-of p calm.0 h.0, All-IsReturned ps calm.1 h.1)
