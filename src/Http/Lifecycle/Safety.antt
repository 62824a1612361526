-- ===== src/Http/Lifecycle/Safety.antt =====
-- pkg/api/httpserver/server.go, the lifecycle: every state that the server can reach.
use native.Mathlib.Decide.{ℕ_discrete}
use final_weave.Prelude.{
  ℕ, ◌≤◌, ◌≡◌, ◌≢◌, ◌∙◌, sym, Option, none, some, get_elem?, All-get_elem?, arith,
}
use final_weave.GoErrors.{Err}
use final_weave.Threads.{total, le-total, add-le-total}
use final_weave.Http.Lifecycle.{Chan, idle, stopped, listening, shutdown_returned, panicked}
use final_weave.Http.Lifecycle.Steps.{System, Reach, Reach-trans, initial}
use final_weave.Http.Lifecycle.Shape.{serves, crashes, open_count, rank, Knows}
use final_weave.Http.Lifecycle.Drained.{Reach-drained}
use final_weave.Http.Lifecycle.Invariant.{Reach-Inv, Inv-onward}

-- No call of `Serve` or `Shutdown` ever panics: no channel is closed twice or while nil, and no nil
-- listener is closed, in any interleaving.
pub http_never_panics :
    {a : System} → Reach initial a → (i : ℕ) → ¬ (get_elem? a.points i ≡ some panicked)
http_never_panics {a} r i here =
    omega (arith, le-total crashes a.points i panicked here, (Reach-Inv r).calm)

open_count-le : (c : Chan) → open_count c ≤ 1
open_count-le c = ground arith

-- At most one goroutine is inside the framework's `Listener`.
http_one_listener :
    {a : System}
    → Reach initial a
    → (i j : ℕ) → get_elem? a.points i ≡ some listening
    → get_elem? a.points j ≡ some listening
    → i ≡ j
http_one_listener {a} r i j hi hj = elim (ℕ_discrete i j) [
  | yes same ↦ same
  | no differ ↦ absurd (
      too_many _ (add-le-total serves a.points i j listening listening differ hi hj)
        (Reach-Inv r).servers)
]
  where
    too_many : (n : ℕ) → 2 ≤ n → n ≡ open_count a.server.serve_done → ⊥
    too_many n two e = omega (arith, open_count-le a.server.serve_done)

-- All `Shutdown` calls that return a result (those with a bounded context) return the same one, and
-- the server is stopped by then; if it is nil, nobody is inside `Serve` any more.
pub http_shutdowns_agree :
    {a : System}
    → Reach initial a
    → (i j : ℕ) (e f : Option Err) → get_elem? a.points i ≡ some (shutdown_returned e)
    → get_elem? a.points j ≡ some (shutdown_returned f)
    → (a.server.state ≡ stopped)
      × (e ≡ a.server.shutdown_err)
      × (f ≡ e)
      × (e ≡ none → total serves a.points ≡ 0)
http_shutdowns_agree {a} r i j e f hi hj =
    let known = (Reach-Inv r).known in
    let (off, mine) = All-get_elem? (Knows a.server) a.points i known hi in
    let (_, other) = All-get_elem? (Knows a.server) a.points j known hj in
    (off, mine, other ∙ sym mine, (λ h. Reach-drained r off (sym mine ∙ h)))

-- The lifecycle only goes forward, once stopped the server stays so, with the same result, and it is
-- used once: at most one goroutine is inside the framework's `Listener` (`Serve`'s own section after
-- it included), from any state other than idle their number never grows, and once the server is
-- stopped with a nil result there is none.
pub http_lifecycle_onward :
    {a b : System}
    → Reach initial a
    → Reach a b
    → (rank a.server.state ≤ rank b.server.state)
      × (a.server.state ≡ stopped
          → (b.server.state ≡ stopped) × (b.server.shutdown_err ≡ a.server.shutdown_err))
      × (total serves b.points ≤ 1)
      × (a.server.state ≢ idle → total serves b.points ≤ total serves a.points)
      × (b.server.state ≡ stopped → b.server.shutdown_err ≡ none → total serves b.points ≡ 0)
http_lifecycle_onward {a} {b} r s =
    let inv = Reach-Inv r in
    let (inv', later) = Inv-onward inv s in
    (
      later.onward,
      (λ h. ((later.stays_stopped h).0, (later.stays_stopped h).1)),
      omega (arith, inv'.servers, open_count-le b.server.serve_done),
      (λ h. omega (arith, inv.servers, inv'.servers, later.no_restart h)),
      Reach-drained (Reach-trans r s),
    )
