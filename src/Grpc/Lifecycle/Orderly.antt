-- ===== src/Grpc/Lifecycle/Orderly.antt =====
-- pkg/api/grpcserver/health.go: the calls of the bridge, over the steps of the server.
use final_weave.Prelude.{ℕ, ◌≡◌, sym, subst, ◌⊎◌, inl, inr, Option, arith}
use final_weave.GoErrors.{Err}
use final_weave.Grpc.HealthBridge.{Bridge, shutdown_bridge}
use final_weave.Grpc.HealthBridge.Status.{IsOrderly, publish-IsOrderly, shutdown_bridge-IsOrderly}
use final_weave.Grpc.Lifecycle.{
  LifecycleState, Server, Point, enter_serve, leave_serve, enter_shutdown, finish_shutdown,
  publish_flag,
}
use final_weave.Grpc.Lifecycle.Steps.{Move}

-- A section leaves the bridge alone or shuts it down.
abbrev SameOrDown : Bridge → Bridge → Type 0
SameOrDown b c = (c ≡ b) ⊎ (c ≡ shutdown_bridge b)

leave_serve-health : (s : Server) (e : Option Err) → SameOrDown s.health (leave_serve s e).0.health
unfolding leave_serve
leave_serve-health s e = ground arith

enter_serve-health :
    (st : LifecycleState) (s : Server) (l : ℕ) → SameOrDown s.health (enter_serve st s l).0.health
unfolding enter_serve
enter_serve-health st s l = ground arith

enter_shutdown-health :
    (st : LifecycleState) (s : Server) → SameOrDown s.health (enter_shutdown st s).0.health
unfolding enter_shutdown
enter_shutdown-health st s = ground arith

finish_shutdown-health :
    (s : Server) (e : Option Err) → SameOrDown s.health (finish_shutdown s e).0.health
unfolding finish_shutdown
finish_shutdown-health s e = ground arith

IsOrderly-of : (b c : Bridge) → SameOrDown b c → IsOrderly b → IsOrderly c
IsOrderly-of b c (inl same) o = subst IsOrderly (sym same) o
IsOrderly-of b c (inr down) o = subst IsOrderly (sym down) (shutdown_bridge-IsOrderly b o)

pub Move-IsOrderly :
    (s : Server) {p q : Point} {t : Server} → Move s p t q → IsOrderly s.health → IsOrderly t.health
unfolding publish_flag
Move-IsOrderly s (Move.lock_serve l) o = IsOrderly-of _ _ (enter_serve-health s.state s l) o
Move-IsOrderly s (Move.lock_exit e) o = IsOrderly-of _ _ (leave_serve-health s e) o
Move-IsOrderly s Move.lock_shutdown o = IsOrderly-of _ _ (enter_shutdown-health s.state s) o
Move-IsOrderly s (Move.lock_finish e) o = IsOrderly-of _ _ (finish_shutdown-health s e) o
Move-IsOrderly s (Move.lock_publish b) o = publish-IsOrderly s.health b o
Move-IsOrderly s _ o = o
