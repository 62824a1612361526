-- ===== src/Grpc/Lifecycle/Refresh.antt =====
-- pkg/api/grpcserver/health.go: `refresh` loads the tracker before it takes the bridge's mutex.
use mathlib.Core.List.{append_assoc}
use final_weave.Threads.{get_elem?-append_length, set-append_length}
use final_weave.Prelude.{
  ℕ, some, get_elem?, set, subst, ◌≡◌, refl, Bool, true, false, List, [], ◌∷◌, ◌++◌, length,
}
use final_weave.Grpc.HealthBridge.{publish}
use final_weave.Grpc.HealthBridge.Status.{HealthServer, was_shut_down}
use final_weave.Grpc.Lifecycle.{
  Server, Point, refresh_call, refresh_locking, refresh_returned, publish_flag,
}
use final_weave.Grpc.Lifecycle.Steps.{System, Move, IsCall, Step, Reach, initial}
use final_weave.Grpc.Lifecycle.Invariant.{Reach-Inv}

-- A system by its parts.
abbrev system : Server → List Point → System
system s ps = record { server = s; points = ps }

-- A step of the goroutine behind those of `xs`.
step_behind :
    (s t : Server) (xs : List Point) (p q : Point) (ys : List Point)
    → Move s p t q
    → Step (system s (xs ++ p ∷ ys)) (system t (xs ++ q ∷ ys))
step_behind s t xs p q ys mv =
    subst (λ ps. Step (system s (xs ++ p ∷ ys)) (system t ps)) (set-append_length xs p q ys)
      (Step.run (length xs) p (get_elem?-append_length xs p ys) mv)

abbrev with_flag : Server → Bool → Server
with_flag s b = record s { tracker_ready = b }

abbrev published : Server → Server
published s = publish_flag (publish_flag (with_flag s false) false) true

-- Steps among which there is no store to the tracker.
pub data Settled (a : System) : System → Type 0 where
  here : Settled a a
  then_call :
      {b : System} {p : Point}
      → Settled a b
      → IsCall p
      → Settled a (record b { points = b.points ++ p ∷ [] })
  then_run :
      {b : System} (i : ℕ) (p : Point) {s : Server} {q : Point}
      → Settled a b
      → get_elem? b.points i ≡ some p
      → Move b.server p s q
      → Settled a (record { server = s; points = set b.points i q })

-- A step of the goroutine behind those of `xs`.
Settled-behind :
    {a : System} (s t : Server) (xs : List Point) (p q : Point) (ys : List Point)
    → Settled a (system s (xs ++ p ∷ ys))
    → Move s p t q
    → Settled a (system t (xs ++ q ∷ ys))
Settled-behind {a} s t xs p q ys r mv =
    subst (λ ps. Settled a (system t ps)) (set-append_length xs p q ys)
      (Settled.then_run (length xs) p r (get_elem?-append_length xs p ys) mv)

-- A refresh has read that the tracker is ready, and then the flag falls.
read_before :
    (s : Server) (ps : List Point)
    → Reach (system s ps) (system (with_flag s false) (ps ++ refresh_locking true ∷ []))
read_before s ps =
    let up = with_flag s true in
    let called = Reach.next (Reach.next Reach.here (Step.store true)) (Step.call IsCall.refresh) in
    Reach.next
      (Reach.next called
        (step_behind up up ps refresh_call (refresh_locking true) [] Move.load_tracker))
      (Step.store false)

-- A second one is called, reads, publishes and returns, and the first one publishes last.
overtaken :
    (s : Server) (ps : List Point)
    → Settled
        (system (with_flag s false) (ps ++ refresh_locking true ∷ []))
        (system (published s) (ps ++ refresh_returned ∷ refresh_returned ∷ []))
overtaken s ps =
    let xs = ps ++ refresh_locking true ∷ [] in
    let low = with_flag s false in
    let start = system low xs in
    let read_low =
      Settled-behind low low xs refresh_call (refresh_locking false) []
        (Settled.then_call Settled.here IsCall.refresh) Move.load_tracker in
    let low_published =
      Settled-behind low (publish_flag low false) xs (refresh_locking false) refresh_returned []
        read_low (Move.lock_publish false) in
    let regrouped =
      subst (λ l. Settled start (system (publish_flag low false) l))
        (append_assoc ps (refresh_locking true ∷ []) (refresh_returned ∷ [])) low_published in
    Settled-behind (publish_flag low false) (published s) ps (refresh_locking true) refresh_returned
      (refresh_returned ∷ []) regrouped (Move.lock_publish true)

alive-published :
    (h : HealthServer) (s : Server) (b : Bool)
    → s.health.stopped ≡ false
    → was_shut_down s.health.calls ≡ false
    → (h.is_serving (h.after (publish_flag s b).health.calls) ≡ b)
      × ((publish_flag s b).health.stopped ≡ false)
      × (was_shut_down (publish_flag s b).health.calls ≡ false)
unfolding publish_flag publish
alive-published h s b up alive = rw up (h.sets s.health.calls b alive, refl, alive)

-- From every state in which no shutdown has begun, one can be reached in which the tracker is not
-- ready and one refresh is under way, from which a second refresh is called and both run to their end
-- without another store to the tracker, and the health server is left SERVING although the tracker is
-- not ready.
pub grpc_stale_refresh :
    (h : HealthServer) {a : System}
    → Reach initial a
    → a.server.health.stopped ≡ false
    → (c : System) × (b : System) × Reach a c
      × Settled c b
      × (c.server.tracker_ready ≡ false)
      × (c.points ≡ a.points ++ refresh_locking true ∷ [])
      × (b.points ≡ a.points ++ refresh_returned ∷ refresh_returned ∷ [])
      × (b.server.tracker_ready ≡ false)
      × (h.is_serving (h.after b.server.health.calls) ≡ true)
unfolding publish_flag publish
grpc_stale_refresh h {a} r up =
    let s = a.server in
    let first = alive-published h (with_flag s false) false up ((Reach-Inv r).orderly.alive up) in
    let last = alive-published h (publish_flag (with_flag s false) false) true first.1 first.2 in
    (
      system (with_flag s false) _,
      system (published s) _,
      read_before s a.points,
      overtaken s a.points,
      refl,
      refl,
      refl,
      refl,
      last.0,
    )
