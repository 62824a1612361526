-- ===== src/Http/Lifecycle/Progress.antt =====
-- pkg/api/httpserver/server.go: callers of `Shutdown` that wait for another one's result. The
-- goroutine in charge of the shutdown has a context with a deadline.
use mathlib.Core.Option.{some-injective}
use final_weave.Prelude.{
  ℕ, ◌<◌, ◌≡◌, refl, ◌≢◌, ◌∙◌, inl, inr, ap, sym, List, Option, none, some, get_elem?, set,
  All-get_elem?, arith,
}
use final_weave.GoErrors.{Err, fails, deadline_exceeded, errors_join}
use final_weave.Threads.{total, find_weight, get_elem?-set_self, get_elem?-set_ne}
use final_weave.Http.Lifecycle.{
  stopping, stopped, closed, Point, closing_listener, draining, awaiting_exit, finishing,
  awaiting_shutdown, reading_result, shutdown_returned, after_close, after_drain, finish_shutdown,
}
use final_weave.Http.Lifecycle.Steps.{
  System, Move, Step, Reach, initial, expired, Reach-before, Reach-trans,
}
use final_weave.Http.Lifecycle.Shape.{leads, Knows, Inv}
use final_weave.Http.Lifecycle.Invariant.{Step-Inv, Reach-Inv}

-- The goroutine `j` has finished the shutdown, and the others stand where they stood.
record Finished (a : System) (j : ℕ) : Type 0 where
  last : System
  reach : Reach a last
  off : last.server.state ≡ stopped
  told : last.server.shutdown_done ≡ closed
  same_serve : last.server.serve_done ≡ a.server.serve_done
  others : (k : ℕ) → j ≢ k → get_elem? last.points k ≡ get_elem? a.points k

-- A step of `j` that leaves the server alone may come first.
before :
    (a : System) (j : ℕ) (p q : Point)
    → get_elem? a.points j ≡ some p
    → Move a.server p a.server q
    → Finished (record a { points = set a.points j q }) j
    → Finished a j
before a j p q here mv f = record {
  last = f.last;
  reach = Reach-before (Step.run j p here mv) f.reach;
  off = f.off;
  told = f.told;
  same_serve = f.same_serve;
  others = λ k d. f.others k d ∙ get_elem?-set_ne a.points j k q d;
}

from_finishing :
    (a : System) (j : ℕ) (e : Option Err)
    → Inv a
    → a.server.state ≡ stopping
    → get_elem? a.points j ≡ some (finishing e)
    → Finished a j
unfolding finish_shutdown
from_finishing a j e inv st here = record {
  last = record {
    server = (finish_shutdown a.server e).0;
    points = set a.points j (finish_shutdown a.server e).1;
  };
  reach = Reach.next Reach.here (Step.run j (finishing e) here (Move.lock_finish e));
  off = ground (arith, inv.shape);
  told = ground (arith, inv.shape);
  same_serve = ground (arith, inv.shape);
  others = λ k d. get_elem?-set_ne a.points j k _ d;
}

-- Its context expires, if nothing else happens.
from_awaiting_exit :
    (a : System) (j : ℕ) (e : Option Err)
    → Inv a
    → a.server.state ≡ stopping
    → get_elem? a.points j ≡ some (awaiting_exit e)
    → Finished a j
from_awaiting_exit a j e inv st here =
    let q = finishing (errors_join e (fails deadline_exceeded)) in
    let mv : Move a.server (awaiting_exit e) a.server q = Move.context_done e expired in
    before a j (awaiting_exit e) q here mv (
      from_finishing (record a { points = set a.points j q }) j _
        (Step-Inv (Step.run j (awaiting_exit e) here mv) inv) st
        (get_elem?-set_self a.points j (awaiting_exit e) q here))

from_draining :
    (a : System) (j : ℕ)
    → Inv a
    → a.server.state ≡ stopping
    → get_elem? a.points j ≡ some draining
    → Finished a j
unfolding after_drain
from_draining a j inv st here =
    let mv : Move a.server draining a.server (after_drain none) = Move.drain_returns none in
    before a j draining (after_drain none) here mv (
      from_awaiting_exit (record a { points = set a.points j (after_drain none) }) j none
        (Step-Inv (Step.run j draining here mv) inv) st
        (get_elem?-set_self a.points j draining (after_drain none) here))

from_closing :
    (a : System) (j : ℕ) (l : Option ℕ)
    → Inv a
    → a.server.state ≡ stopping
    → get_elem? a.points j ≡ some (closing_listener l)
    → Finished a j
unfolding after_close
from_closing a j none inv st here =
    absurd (All-get_elem? (Knows a.server) a.points j inv.known here refl)
from_closing a j (some l) inv st here =
    let p = closing_listener (some l) in
    let q = after_close (some l) none in
    let mv : Move a.server p a.server q = Move.close_returns (some l) none in
    before a j p q here mv (
      from_awaiting_exit (record a { points = set a.points j q }) j none
        (Step-Inv (Step.run j p here mv) inv) st (get_elem?-set_self a.points j p q here))

from_leader :
    (a : System) (j : ℕ) (p : Point)
    → Inv a
    → a.server.state ≡ stopping
    → get_elem? a.points j ≡ some p
    → 0 < leads p
    → Finished a j
from_leader a j (closing_listener l) inv st here lead = from_closing a j l inv st here
from_leader a j draining inv st here lead = from_draining a j inv st here
from_leader a j (awaiting_exit e) inv st here lead = from_awaiting_exit a j e inv st here
from_leader a j (finishing e) inv st here lead = from_finishing a j e inv st here
from_leader a j _ inv st here lead = absurd (omega arith)

-- A goroutine that waits for the result, and the state in which it has it.
record Answered (a : System) (i : ℕ) : Type 0 where
  pub last : System
  pub reach : Reach a last
  pub same_serve : last.server.serve_done ≡ a.server.serve_done
  pub answer : get_elem? last.points i ≡ some (shutdown_returned last.server.shutdown_err)

answer_of_stopped :
    (a : System) (i : ℕ)
    → a.server.shutdown_done ≡ closed
    → get_elem? a.points i ≡ some awaiting_shutdown
    → Answered a i
answer_of_stopped a i told here =
    let b : System = record a { points = set a.points i reading_result } in
    let at_b = get_elem?-set_self a.points i awaiting_shutdown reading_result here in
    record {
      last = record b { points = set b.points i (shutdown_returned a.server.shutdown_err) };
      reach =
          Reach.next
            (Reach.next Reach.here (Step.run i awaiting_shutdown here (Move.shutdown_seen told)))
            (Step.run i reading_result at_b Move.lock_result);
      same_serve = refl;
      answer = get_elem?-set_self b.points i reading_result (shutdown_returned _) at_b;
    }

leader_differs :
    (ps : List Point) (i j : ℕ) (p : Point)
    → get_elem? ps j ≡ some p
    → get_elem? ps i ≡ some awaiting_shutdown
    → 0 < leads p
    → j ≢ i
leader_differs ps i j p at_j at_i lead e =
    let same : p ≡ awaiting_shutdown = some-injective _ _ (sym at_j ∙ ap (get_elem? ps) e ∙ at_i) in
    omega (arith, ap leads same)

-- In every state that the server can reach, a `Shutdown` call that waits for another one can get that
-- one's result, by steps in which no `Serve` call returns.
pub http_waiters_answered :
    {a : System}
    → Reach initial a
    → (i : ℕ) → get_elem? a.points i ≡ some awaiting_shutdown
    → (b : System) × Reach a b
      × (b.server.serve_done ≡ a.server.serve_done)
      × (get_elem? b.points i ≡ some (shutdown_returned b.server.shutdown_err))
http_waiters_answered {a} r i here =
    elim (All-get_elem? (Knows a.server) a.points i inv.known here) [
      | inl going ↦
          let (j, p, at_j, lead) = find_weight leads a.points (one going) in
          let f : Finished a j = from_leader a j p inv going at_j lead in
          let w : Answered f.last i =
            answer_of_stopped f.last i f.told
              (f.others i (leader_differs a.points i j p at_j here lead) ∙ here) in
          (w.last, Reach-trans f.reach w.reach, w.same_serve ∙ f.same_serve, w.answer)
      | inr (_, told) ↦
          let w : Answered a i = answer_of_stopped a i told here in
          (w.last, w.reach, w.same_serve, w.answer)
    ]
  where
    inv : Inv a
    inv = Reach-Inv r

    one : a.server.state ≡ stopping → 0 < total leads a.points
    one going = ground (arith, inv.in_charge)
