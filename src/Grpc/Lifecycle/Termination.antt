-- ===== src/Grpc/Lifecycle/Termination.antt =====
-- pkg/api/grpcserver/server.go: the calls that are under way come to an end. `Runs` is a run of their
-- own steps, in which no further call is made and the tracker is not stored to.
use final_weave.Prelude.{
  ℕ, suc, ◌+◌, ◌*◌, length, ◌≤◌, ◌≡◌, ◌⊎◌, inl, inr, some, List, [], ◌∷◌, get_elem?, set, All,
  arith,
}
use native.Mathlib.Decide.{dec_lt}
use final_weave.Threads.{total, total-set, find_weight, All-of_total_zero}
use final_weave.Grpc.Lifecycle.{Server, Point}
use final_weave.Grpc.Lifecycle.Steps.{Move, System, Step, Reach, initial}
use final_weave.Grpc.Lifecycle.Shape.{crashes}
use final_weave.Grpc.Lifecycle.Invariant.{Reach-Inv}
use final_weave.Grpc.Lifecycle.Advance.{
  work, remaining, Move-work, Advances, working-Advances, IsReturned, All-IsReturned,
}

pub data Runs (a : System) : System → Type 0 where
  halt : Runs a a
  after :
      {b : System}
      → Runs a b
      → (i : ℕ) (p : Point) {s : Server} {q : Point} → get_elem? b.points i ≡ some p
      → Move b.server p s q
      → Runs a (record { server = s; points = set b.points i q })

pub count : {a b : System} → Runs a b → ℕ
count Runs.halt = 0
count (Runs.after r i p here mv) = suc (count r)

work_bounded : (ps : List Point) → total work ps ≤ 7 * length ps
unfolding total
work_bounded [] = omega arith
work_bounded (p ∷ ps) = omega (arith, work-le p, work_bounded ps)
  where
    work-le : (p : Point) → work p ≤ 7
    work-le p = ground arith

runs_bounded : {a b : System} (r : Runs a b) → count r + remaining b ≤ remaining a
unfolding count
runs_bounded Runs.halt = omega arith
runs_bounded (Runs.after {b} r i p {s} {q} here mv) =
    omega (arith, runs_bounded r, total-set work b.points i p q here, Move-work mv)

Runs-Reach : {a b : System} → Reach initial a → Runs a b → Reach initial b
Runs-Reach ra Runs.halt = ra
Runs-Reach ra (Runs.after r i p here mv) = Reach.next (Runs-Reach ra r) (Step.run i p here mv)

returned_or_Advances : {a : System} → Reach initial a → All IsReturned a.points ⊎ Advances a
returned_or_Advances {a} r = elim (dec_lt 0 (remaining a)) [
  | yes busy ↦
      let (i, p, here, h) = find_weight work a.points busy in
      inr (working-Advances a i p (Reach-Inv r) here h)
  | no settled ↦ inl (
      All-IsReturned a.points (All-of_total_zero crashes a.points (Reach-Inv r).calm)
        (All-of_total_zero work a.points (omega arith)))
]

-- From every state that the server can reach, every run of the goroutines' own steps ends: it takes no
-- more steps than there is work, at most seven for each call, and where it stops every call has
-- returned or some goroutine can take a step that leaves less work.
pub grpc_runs_end :
    {a b : System}
    → Reach initial a
    → (r : Runs a b)
    → (count r + remaining b ≤ remaining a)
      × (remaining a ≤ 7 * length a.points)
      × (All IsReturned b.points ⊎ Advances b)
grpc_runs_end {a} ra r =
    (runs_bounded r, work_bounded a.points, returned_or_Advances (Runs-Reach ra r))
