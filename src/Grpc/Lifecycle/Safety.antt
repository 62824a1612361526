-- ===== src/Grpc/Lifecycle/Safety.antt =====
-- pkg/api/grpcserver/server.go: every state that the server can reach.
use native.Mathlib.Decide.{ℕ_discrete}
use final_weave.Prelude.{
  ℕ, ◌≤◌, ◌≡◌, ◌≢◌, ◌∙◌, ◌⊎◌, ap, true, false, sym, Option, some, get_elem?, All-get_elem?, arith,
}
use final_weave.GoErrors.{Err}
use final_weave.Grpc.HealthBridge.Status.{HealthServer}
use final_weave.Threads.{total, le-total, add-le-total}
use final_weave.Grpc.Lifecycle.{
  Chan, LifecycleState, idle, stopping, stopped, Server, serving_rpcs, shutdown_returned, panicked,
}
use final_weave.Grpc.Lifecycle.Steps.{System, Reach, initial}
use final_weave.Grpc.Lifecycle.Shape.{serves, crashes, open_count, rank, Knows, IsShaped}
use final_weave.Grpc.Lifecycle.Invariant.{Reach-Inv, Inv-onward}

-- No call of `Serve` or `Shutdown` ever panics: no channel is closed twice or while nil, in
-- any interleaving.
pub grpc_never_panics :
    {a : System} → Reach initial a → (i : ℕ) → ¬ (get_elem? a.points i ≡ some panicked)
grpc_never_panics {a} r i here =
    omega (arith, le-total crashes a.points i panicked here, (Reach-Inv r).calm)

open_count-le : (c : Chan) → open_count c ≤ 1
open_count-le c = ground arith

-- At most one goroutine is inside the `Serve` of grpc-go.
grpc_one_server :
    {a : System}
    → Reach initial a
    → (i j : ℕ) → get_elem? a.points i ≡ some serving_rpcs
    → get_elem? a.points j ≡ some serving_rpcs
    → i ≡ j
grpc_one_server {a} r i j hi hj = elim (ℕ_discrete i j) [
  | yes same ↦ same
  | no differ ↦ absurd (
      too_many _ (add-le-total serves a.points i j serving_rpcs serving_rpcs differ hi hj)
        (Reach-Inv r).servers)
]
  where
    too_many : (n : ℕ) → 2 ≤ n → n ≡ open_count a.server.serve_done → ⊥
    too_many n two e = omega (arith, open_count-le a.server.serve_done)

-- All `Shutdown` calls that return a result (those with a bounded context) return the same one, and
-- the server is stopped by then.
pub grpc_shutdowns_agree :
    {a : System}
    → Reach initial a
    → (i j : ℕ) (e f : Option Err) → get_elem? a.points i ≡ some (shutdown_returned e)
    → get_elem? a.points j ≡ some (shutdown_returned f)
    → (a.server.state ≡ stopped) × (e ≡ a.server.shutdown_err) × (f ≡ e)
grpc_shutdowns_agree {a} r i j e f hi hj =
    let known = (Reach-Inv r).known in
    let (off, mine) = All-get_elem? (Knows a.server) a.points i known hi in
    let (_, other) = All-get_elem? (Knows a.server) a.points j known hj in
    (off, mine, other ∙ sym mine)

stopped_closed :
    (st : LifecycleState) (s : Server) → st ≡ stopped → IsShaped st s → open_count s.serve_done ≡ 0
stopped_closed st s e shape = ground arith

-- The lifecycle only goes forward, once stopped the server stays so, with the same result, and it is
-- used once: at most one goroutine is inside grpc-go's `Serve` (its own section after it included),
-- from any state other than idle their number never grows, and once the server is stopped there is
-- none.
pub grpc_lifecycle_onward :
    {a b : System}
    → Reach initial a
    → Reach a b
    → (rank a.server.state ≤ rank b.server.state)
      × (a.server.state ≡ stopped
          → (b.server.state ≡ stopped) × (b.server.shutdown_err ≡ a.server.shutdown_err))
      × (total serves b.points ≤ 1)
      × (a.server.state ≢ idle → total serves b.points ≤ total serves a.points)
      × (b.server.state ≡ stopped → total serves b.points ≡ 0)
grpc_lifecycle_onward {a} {b} r s =
    let inv = Reach-Inv r in
    let (inv', later) = Inv-onward inv s in
    (
      later.onward,
      (λ h. ((later.stays_stopped h).0, (later.stays_stopped h).1)),
      omega (arith, inv'.servers, open_count-le b.server.serve_done),
      (λ h. omega (arith, inv.servers, inv'.servers, later.no_restart h)),
      (λ off. omega (arith, inv'.servers, stopped_closed b.server.state b.server off inv'.shape)),
    )

-- Once the server is stopped no goroutine is inside grpc-go's `Serve`.
grpc_stopped_means_drained :
    {a : System}
    → Reach initial a
    → a.server.state ≡ stopped
    → (i : ℕ) → ¬ (get_elem? a.points i ≡ some serving_rpcs)
grpc_stopped_means_drained {a} r off i here =
    let inv = Reach-Inv r in
    omega (
      arith,
      le-total serves a.points i serving_rpcs here,
      inv.servers,
      stopped_closed a.server.state a.server off inv.shape,
    )

-- From the moment at which a shutdown begins, or `Serve` ends by itself, the health server answers
-- NOT_SERVING, however refreshes interleave with it.
pub grpc_health_ends :
    (h : HealthServer) {a : System}
    → Reach initial a
    → (a.server.state ≡ stopping) ⊎ (a.server.state ≡ stopped)
    → h.is_serving (h.after a.server.health.calls) ≡ false
grpc_health_ends h {a} r ending =
    let inv = Reach-Inv r in
    let (rest, e) = inv.orderly.ended (down a.server.state a.server ending inv.shape) in
    ap (λ calls. h.is_serving (h.after calls)) e ∙ h.ends rest
  where
    down :
        (st : LifecycleState) (s : Server)
        → (st ≡ stopping) ⊎ (st ≡ stopped)
        → IsShaped st s
        → s.health.stopped ≡ true
    down st s w shape = ground arith
