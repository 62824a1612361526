-- ===== src/Http/Lifecycle/Invariant.antt =====
-- pkg/api/httpserver/server.go: the invariant, preserved by every step.
use final_weave.Prelude.{
  ℕ, ◌+◌, ◌≤◌, ◌≡◌, refl, ◌≢◌, some, [], ◌∷◌, ◌++◌, All-append, All-get_elem?, get_elem?, set,
  arith,
}
use final_weave.Threads.{total, total-set, total-spawn, le-total, All-set, All-map_weaken}
use final_weave.Http.Lifecycle.{
  LifecycleState, idle, Server, Point, serve_call, shutdown_call, closing_listener,
  awaiting_shutdown, reading_result, shutdown_returned, check_listener, enter_serve, before_serve,
  leave_serve, check_context, enter_shutdown, after_close, after_drain, finish_shutdown,
}
use final_weave.Http.Lifecycle.Steps.{Move, System, Step, Reach, initial}
use final_weave.Http.Lifecycle.Shape.{
  serves, leads, crashes, open_count, leaders, IsShaped, Knows, rank, Later, Inv,
}

-- What one step of a goroutine does to the weights, the shape and its own knowledge.
record Kept (s : Server) (p : Point) (t : Server) (q : Point) : Type 0 where
  servers : serves q + open_count s.serve_done ≡ serves p + open_count t.serve_done
  in_charge : leads q + leaders s.state ≡ leads p + leaders t.state
  calm : crashes q ≡ 0
  shape : IsShaped t.state t
  knows : Knows t q
  later : Later s t

module _ (s : Server) (shape : IsShaped s.state s) where
  Move-Kept :
      {p q : Point} {t : Server}
      → Move s p t q
      → serves p ≤ open_count s.serve_done
      → leads p ≤ leaders s.state
      → crashes p ≡ 0
      → Knows s p
      → Kept s p t q
  unfolding check_listener enter_serve before_serve leave_serve check_context enter_shutdown
      after_close after_drain finish_shutdown
  Move-Kept (Move.check_serve l) own lead ok known = ground arith
  Move-Kept (Move.lock_serve l) own lead ok known = ground arith
  Move-Kept Move.call_before_serve own lead ok known = ground arith
  Move-Kept (Move.listener_returns e) own lead ok known = ground arith
  Move-Kept (Move.lock_exit e) own lead ok known = ground arith
  Move-Kept (Move.check_shutdown c) own lead ok known = ground arith
  Move-Kept Move.lock_shutdown own lead ok known = ground arith
  Move-Kept (Move.close_returns l e) own lead ok known = ground arith
  Move-Kept (Move.drain_returns e) own lead ok known = ground arith
  Move-Kept (Move.serve_exited e done) own lead ok known = ground arith
  Move-Kept (Move.context_done e c) own lead ok known = ground arith
  Move-Kept (Move.lock_finish e) own lead ok known = ground arith
  Move-Kept (Move.shutdown_seen done) own lead ok known = ground arith
  Move-Kept Move.lock_result own lead ok known = ground arith

Knows-Later : (s t : Server) → Later s t → (p : Point) → Knows s p → Knows t p
Knows-Later s t later (closing_listener l) h = h
Knows-Later s t later awaiting_shutdown h = ground arith
Knows-Later s t later reading_result h = ground arith
Knows-Later s t later (shutdown_returned e) h = ground arith
Knows-Later s t later _ h = tt

-- A goroutine that has just been started weighs nothing and relies on nothing.
spawn-Inv :
    (a : System) (p : Point)
    → serves p ≡ 0
    → leads p ≡ 0
    → crashes p ≡ 0
    → Knows a.server p
    → Inv a
    → Inv (record a { points = a.points ++ p ∷ [] })
spawn-Inv a p sp lp cp kp inv = record {
  servers = omega (arith, total-spawn serves a.points p, inv.servers);
  in_charge = omega (arith, total-spawn leads a.points p, inv.in_charge);
  calm = omega (arith, total-spawn crashes a.points p, inv.calm);
  shape = inv.shape;
  known = All-append (Knows a.server) a.points (p ∷ []) inv.known (kp, tt);
}

run-Kept :
    (a : System) (i : ℕ) (p : Point) (s : Server) (q : Point)
    → get_elem? a.points i ≡ some p
    → Move a.server p s q
    → Inv a
    → Kept a.server p s q
run-Kept a i p s q here mv inv =
    Move-Kept a.server inv.shape mv (omega (arith, le-total serves a.points i p here, inv.servers))
      (omega (arith, le-total leads a.points i p here, inv.in_charge))
      (omega (arith, le-total crashes a.points i p here, inv.calm))
      (All-get_elem? (Knows a.server) a.points i inv.known here)

run-Inv :
    (a : System) (i : ℕ) (p : Point) (s : Server) (q : Point)
    → get_elem? a.points i ≡ some p
    → Move a.server p s q
    → Inv a
    → Inv (record { server = s; points = set a.points i q })
run-Inv a i p s q here mv inv = record {
  servers = omega (arith, total-set serves a.points i p q here, inv.servers, kept.servers);
  in_charge = omega (arith, total-set leads a.points i p q here, inv.in_charge, kept.in_charge);
  calm = omega (arith, total-set crashes a.points i p q here, inv.calm, kept.calm);
  shape = kept.shape;
  known =
      All-set (Knows s) a.points i q
        (All-map_weaken (Knows a.server) (Knows s) a.points (Knows-Later a.server s kept.later)
          inv.known)
        kept.knows;
}
  where
    kept : Kept a.server p s q
    kept = run-Kept a i p s q here mv inv

pub Step-Inv : {a b : System} → Step a b → Inv a → Inv b
Step-Inv {a} (Step.call_serve l) inv = spawn-Inv a (serve_call l) refl refl refl tt inv
Step-Inv {a} (Step.call_shutdown c) inv = spawn-Inv a (shutdown_call c) refl refl refl tt inv
Step-Inv {a} (Step.run i p {s} {q} here mv) inv = run-Inv a i p s q here mv inv

pub Inv-initial : Inv initial
unfolding total
Inv-initial = record {
  servers = refl;
  in_charge = refl;
  calm = refl;
  shape = (refl, refl, refl);
  known = tt;
}

-- The invariant holds in every state that the server can reach.
pub Reach-Inv : {a : System} → Reach initial a → Inv a
Reach-Inv Reach.here = Inv-initial
Reach-Inv (Reach.next r st) = Step-Inv st (Reach-Inv r)

Later-refl : (s : Server) → Later s s
Later-refl s = ground arith

Later-trans : {r s t : Server} → Later r s → Later s t → Later r t
Later-trans {r} {s} {t} f g = record {
  onward = omega (arith, f.onward, g.onward);
  no_restart =
      λ h. omega (arith, f.no_restart h, g.no_restart (not_idle r.state s.state h f.onward));
  stays_stopped = λ h. ground (arith, f.stays_stopped h);
  stopping_ends = λ h. ground (arith, f.stopping_ends h);
}
  where
    not_idle : (x y : LifecycleState) → x ≢ idle → rank x ≤ rank y → y ≢ idle
    not_idle x y h le e = ground arith

Step-Later : {a b : System} → Step a b → Inv a → Later a.server b.server
Step-Later {a} (Step.call_serve l) inv = Later-refl a.server
Step-Later {a} (Step.call_shutdown c) inv = Later-refl a.server
Step-Later {a} (Step.run i p {s} {q} here mv) inv = (run-Kept a i p s q here mv inv).later

pub Inv-onward : {a b : System} → Inv a → Reach a b → Inv b × Later a.server b.server
Inv-onward {a} inv Reach.here = (inv, Later-refl a.server)
Inv-onward inv (Reach.next r st) =
    let (inv', later) = Inv-onward inv r in
    (Step-Inv st inv', Later-trans later (Step-Later st inv'))
