-- ===== src/Grpc/Lifecycle/Invariant.antt =====
-- pkg/api/grpcserver/server.go: the invariant, preserved by every step.
use final_weave.Prelude.{
  ℕ, ◌+◌, ◌≤◌, ◌≡◌, refl, ◌≢◌, Bool, some, [], ◌∷◌, ◌++◌, All-append, All-get_elem?, get_elem?, set,
  arith,
}
use final_weave.Threads.{total, total-set, total-spawn, le-total, All-set, All-map_weaken}
use final_weave.Grpc.HealthBridge.{new_bridge}
use final_weave.Grpc.HealthBridge.Status.{new_bridge-IsOrderly}
use final_weave.Grpc.Lifecycle.{
  LifecycleState, idle, serving, stopping, stopped, Server, new_server, Point, serve_call,
  shutdown_call, finishing, awaiting_shutdown, reading_result, shutdown_returned, refresh_call,
  check_listener, enter_serve, leave_serve, check_context, enter_shutdown, finish_shutdown,
  publish_flag,
}
use final_weave.Grpc.Lifecycle.Steps.{Move, System, IsCall, Step, Reach, initial}
use final_weave.Grpc.Lifecycle.Shape.{
  serves, leads, crashes, open_count, leaders, IsShaped, Knows, rank, Later, Inv,
}
use final_weave.Grpc.Lifecycle.Orderly.{Move-IsOrderly}

-- What one step of a goroutine does to the weights, the shape and its own knowledge.
record Kept (s : Server) (p : Point) (t : Server) (q : Point) : Type 0 where
  servers : serves q + open_count s.serve_done ≡ serves p + open_count t.serve_done
  in_charge : leads q + leaders s.state ≡ leads p + leaders t.state
  calm : crashes q ≡ 0
  shape : IsShaped t.state t
  knows : Knows t q
  later : Later s t

module _ (s : Server) (shape : IsShaped s.state s) where
  Move-Kept :
      {p q : Point} {t : Server}
      → Move s p t q
      → serves p ≤ open_count s.serve_done
      → leads p ≤ leaders s.state
      → crashes p ≡ 0
      → Knows s p
      → Kept s p t q
  unfolding check_listener enter_serve leave_serve check_context enter_shutdown finish_shutdown
      publish_flag
  Move-Kept (Move.check_serve l) own lead ok known = ground arith
  Move-Kept (Move.serve_exited e done) own lead ok known = ground arith
  Move-Kept (Move.shutdown_seen done) own lead ok known = ground arith
  Move-Kept mv own lead ok known = ground arith

Knows-Later : (s t : Server) → Later s t → (p : Point) → Knows s p → Knows t p
Knows-Later s t later (finishing e) h = later.stays_closed h
Knows-Later s t later awaiting_shutdown h = ground arith
Knows-Later s t later reading_result h = ground arith
Knows-Later s t later (shutdown_returned e) h = ground arith
Knows-Later s t later _ h = tt

-- A goroutine that has just been started weighs nothing and relies on nothing.
spawn-Inv :
    (a : System) (p : Point)
    → serves p ≡ 0
    → leads p ≡ 0
    → crashes p ≡ 0
    → Knows a.server p
    → Inv a
    → Inv (record a { points = a.points ++ p ∷ [] })
spawn-Inv a p sp lp cp kp inv = record {
  servers = omega (arith, total-spawn serves a.points p, inv.servers);
  in_charge = omega (arith, total-spawn leads a.points p, inv.in_charge);
  calm = omega (arith, total-spawn crashes a.points p, inv.calm);
  shape = inv.shape;
  orderly = inv.orderly;
  known = All-append (Knows a.server) a.points (p ∷ []) inv.known (kp, tt);
}

run-Kept :
    (a : System) (i : ℕ) (p : Point) (s : Server) (q : Point)
    → get_elem? a.points i ≡ some p
    → Move a.server p s q
    → Inv a
    → Kept a.server p s q
run-Kept a i p s q here mv inv =
    Move-Kept a.server inv.shape mv (omega (arith, le-total serves a.points i p here, inv.servers))
      (omega (arith, le-total leads a.points i p here, inv.in_charge))
      (omega (arith, le-total crashes a.points i p here, inv.calm))
      (All-get_elem? (Knows a.server) a.points i inv.known here)

run-Inv :
    (a : System) (i : ℕ) (p : Point) (s : Server) (q : Point)
    → get_elem? a.points i ≡ some p
    → Move a.server p s q
    → Inv a
    → Inv (record { server = s; points = set a.points i q })
run-Inv a i p s q here mv inv = record {
  servers = omega (arith, total-set serves a.points i p q here, inv.servers, kept.servers);
  in_charge = omega (arith, total-set leads a.points i p q here, inv.in_charge, kept.in_charge);
  calm = omega (arith, total-set crashes a.points i p q here, inv.calm, kept.calm);
  shape = kept.shape;
  orderly = Move-IsOrderly a.server mv inv.orderly;
  known =
      All-set (Knows s) a.points i q
        (All-map_weaken (Knows a.server) (Knows s) a.points (Knows-Later a.server s kept.later)
          inv.known)
        kept.knows;
}
  where
    kept : Kept a.server p s q
    kept = run-Kept a i p s q here mv inv

-- A store to the tracker leaves all that the invariant speaks of.
store-Inv :
    (a : System) (b : Bool)
    → Inv a
    → Inv (record a { server = record (a.server) { tracker_ready = b } })
store-Inv a b inv = record {
  servers = inv.servers;
  in_charge = inv.in_charge;
  calm = inv.calm;
  shape = stored a.server.state a.server b inv.shape;
  orderly = inv.orderly;
  known =
      All-map_weaken (Knows a.server) (Knows (record (a.server) { tracker_ready = b })) a.points
        (Knows-Later a.server (record (a.server) { tracker_ready = b }) (ground arith)) inv.known;
}
  where
    stored :
        (st : LifecycleState) (s : Server) (r : Bool)
        → IsShaped st s
        → IsShaped st (record s { tracker_ready = r })
    stored idle s r h = h
    stored serving s r h = h
    stored stopping s r h = h
    stored stopped s r h = h

pub Step-Inv : {a b : System} → Step a b → Inv a → Inv b
Step-Inv {a} (Step.call (IsCall.serve l)) inv = spawn-Inv a (serve_call l) refl refl refl tt inv
Step-Inv {a} (Step.call (IsCall.shutdown c)) inv =
    spawn-Inv a (shutdown_call c) refl refl refl tt inv
Step-Inv {a} (Step.call IsCall.refresh) inv = spawn-Inv a refresh_call refl refl refl tt inv
Step-Inv {a} (Step.store b) inv = store-Inv a b inv
Step-Inv {a} (Step.run i p {s} {q} here mv) inv = run-Inv a i p s q here mv inv

pub Inv-initial : Inv initial
unfolding total new_server new_bridge
Inv-initial = record {
  servers = refl;
  in_charge = refl;
  calm = refl;
  shape = (refl, refl, refl, refl);
  orderly = new_bridge-IsOrderly;
  known = tt;
}

-- The invariant holds in every state that the server can reach.
pub Reach-Inv : {a : System} → Reach initial a → Inv a
Reach-Inv Reach.here = Inv-initial
Reach-Inv (Reach.next r st) = Step-Inv st (Reach-Inv r)

Later-refl : (s : Server) → Later s s
Later-refl s = ground arith

Later-trans : {r s t : Server} → Later r s → Later s t → Later r t
Later-trans {r} {s} {t} f g = record {
  onward = omega (arith, f.onward, g.onward);
  no_restart =
      λ h. omega (arith, f.no_restart h, g.no_restart (not_idle r.state s.state h f.onward));
  stays_closed = λ h. g.stays_closed (f.stays_closed h);
  stays_stopped = λ h. ground (arith, f.stays_stopped h);
  stopping_ends = λ h. ground (arith, f.stopping_ends h);
}
  where
    not_idle : (x y : LifecycleState) → x ≢ idle → rank x ≤ rank y → y ≢ idle
    not_idle x y h le e = ground arith

Step-Later : {a b : System} → Step a b → Inv a → Later a.server b.server
Step-Later {a} (Step.call c) inv = Later-refl a.server
Step-Later {a} (Step.store b) inv = ground arith
Step-Later {a} (Step.run i p {s} {q} here mv) inv = (run-Kept a i p s q here mv inv).later

pub Inv-onward : {a b : System} → Inv a → Reach a b → Inv b × Later a.server b.server
Inv-onward {a} inv Reach.here = (inv, Later-refl a.server)
Inv-onward inv (Reach.next r st) =
    let (inv', later) = Inv-onward inv r in
    (Step-Inv st inv', Later-trans later (Step-Later st inv'))
