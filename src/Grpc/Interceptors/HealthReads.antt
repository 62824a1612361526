-- ===== src/Grpc/Interceptors/HealthReads.antt =====
-- pkg/api/grpcserver/interceptors.go and health.go: what Check and List read, among other refreshes.
use mathlib.Core.Bool.{not}
use final_weave.Prelude.{
  [], sym, ◌∙◌, ◌≡◌, ◌&&◌, refl, inl, inr, ap, Bool, true, false, none, some, List, ◌∷◌, arith,
  Bool-cases,
}
use final_weave.Health.{decode}
use final_weave.Grpc.HealthBridge.{Bridge, publish}
use final_weave.Grpc.HealthBridge.Status.{
  HealthServer, IsOrderly, publish-IsOrderly, shutdown_bridge-IsOrderly,
}
use final_weave.Grpc.Interceptors.{
  HealthEvent, stores, publishes, shuts_down, occur, occur_all, Rpc, Environment, InterceptorSet,
  Shared, Handler, returned, is_unary_health_method, after_unary, checked, finish, unary, refresh,
}
use final_weave.Grpc.HealthBridge.{shutdown_bridge}
use final_weave.Grpc.Interceptors.Admission.{IsAdmitted, with_id, id_of, unary_state, unary-runs}

-- The flag that was published last.
abbrev pub last_published : Bool → List HealthEvent → Bool
last_published ready [] = ready
last_published ready (publishes b ∷ events) = last_published b events
last_published ready (stores n ∷ events) = last_published ready events
last_published ready (shuts_down ∷ events) = last_published ready events

-- Whether the bridge is stopped after some events.
abbrev pub stopped_by : Bool → List HealthEvent → Bool
stopped_by stopped [] = stopped
stopped_by stopped (shuts_down ∷ events) = stopped_by true events
stopped_by stopped (stores n ∷ events) = stopped_by stopped events
stopped_by stopped (publishes b ∷ events) = stopped_by stopped events

publish_stopped : (b : Bridge) (ready : Bool) → (publish b ready).stopped ≡ b.stopped
unfolding publish
publish_stopped b ready = ground arith

shutdown_bridge_stopped : (b : Bridge) → (shutdown_bridge b).stopped ≡ true
unfolding shutdown_bridge
shutdown_bridge_stopped b = ground arith

published :
    (h : HealthServer) (b : Bridge) (ready : Bool)
    → IsOrderly b
    → h.is_serving (h.after (publish b ready).calls) ≡ (not b.stopped && ready)
unfolding publish
published h b ready orderly = elim (Bool-cases b.stopped) [
  | inl down ↦ let (rest, e) = orderly.ended down in rw (down, e) (h.ends rest)
  | inr up ↦ rw up (h.sets b.calls ready (orderly.alive up))
]

shut_down :
    (h : HealthServer) (b : Bridge)
    → IsOrderly b
    → h.is_serving (h.after (shutdown_bridge b).calls) ≡ false
unfolding shutdown_bridge
shut_down h b orderly = elim (Bool-cases b.stopped) [
  | inl down ↦ let (rest, e) = orderly.ended down in rw (down, e) (h.ends rest)
  | inr up ↦ rw up (h.ends b.calls)
]

-- A bridge whose health server shows a flag until the bridge is stopped.
record Shows (h : HealthServer) (b : Bridge) (ready : Bool) : Type 0 where
  orderly : IsOrderly b
  shown : h.is_serving (h.after b.calls) ≡ (not b.stopped && ready)

publish-Shows :
    (h : HealthServer) (b : Bridge) (ready : Bool) → IsOrderly b → Shows h (publish b ready) ready
publish-Shows h b ready orderly = record {
  orderly = publish-IsOrderly b ready orderly;
  shown = published h b ready orderly ∙ ap (λ x. not x && ready) (sym (publish_stopped b ready));
}

shutdown_bridge-Shows :
    (h : HealthServer) (b : Bridge) (ready : Bool) → IsOrderly b → Shows h (shutdown_bridge b) ready
shutdown_bridge-Shows h b ready orderly = record {
  orderly = shutdown_bridge-IsOrderly b orderly;
  shown = shut_down h b orderly ∙ ap (λ x. not x && ready) (sym (shutdown_bridge_stopped b));
}

occur_all-Shows :
    (h : HealthServer) (events : List HealthEvent) (s : Shared) {ready : Bool}
    → Shows h s.health ready
    → Shows h (occur_all events s).health (last_published ready events)
unfolding occur_all
occur_all-Shows h [] s w = w
occur_all-Shows h (stores n ∷ events) s w = occur_all-Shows h events (occur (stores n) s) w
occur_all-Shows h (publishes b ∷ events) s w =
    occur_all-Shows h events (occur (publishes b) s) (publish-Shows h s.health b w.orderly)
occur_all-Shows h (shuts_down ∷ events) s w =
    occur_all-Shows h events (occur shuts_down s) (shutdown_bridge-Shows h s.health _ w.orderly)

occur_all-IsOrderly :
    (events : List HealthEvent) (s : Shared)
    → IsOrderly s.health
    → IsOrderly (occur_all events s).health
unfolding occur_all
occur_all-IsOrderly [] s o = o
occur_all-IsOrderly (stores n ∷ events) s o = occur_all-IsOrderly events (occur (stores n) s) o
occur_all-IsOrderly (publishes b ∷ events) s o =
    occur_all-IsOrderly events (occur (publishes b) s) (publish-IsOrderly s.health b o)
occur_all-IsOrderly (shuts_down ∷ events) s o =
    occur_all-IsOrderly events (occur shuts_down s) (shutdown_bridge-IsOrderly s.health o)

occur_all_stopped :
    (events : List HealthEvent) (s : Shared)
    → (occur_all events s).health.stopped ≡ stopped_by s.health.stopped events
unfolding occur_all
occur_all_stopped [] s = refl
occur_all_stopped (stores n ∷ events) s = occur_all_stopped events (occur (stores n) s)
occur_all_stopped (publishes b ∷ events) s =
    occur_all_stopped events (occur (publishes b) s)
    ∙ ap (λ x. stopped_by x events) (publish_stopped s.health b)
occur_all_stopped (shuts_down ∷ events) s =
    occur_all_stopped events (occur shuts_down s)
    ∙ ap (λ x. stopped_by x events) (shutdown_bridge_stopped s.health)

-- What a refresh leaves for the handler to read.
refresh_shown :
    (h : HealthServer) (env : Environment) (s : Shared)
    → IsOrderly s.health
    → h.is_serving (h.after (refresh env s).health.calls) ≡ (
        not (stopped_by (stopped_by s.health.stopped env.before_lock) env.before_handler)
        && last_published (decode s.tracker.state).ready env.before_handler)
refresh_shown h env s o =
    let ready = (decode s.tracker.state).ready in
    let t = occur_all env.before_lock s in
    let u : Shared = record t { health = publish t.health ready } in
    let w =
      occur_all-Shows h env.before_handler u
        (publish-Shows h t.health ready (occur_all-IsOrderly env.before_lock s o)) in
    let down =
      occur_all_stopped env.before_handler u
      ∙ ap (λ x. stopped_by x env.before_handler)
          (publish_stopped t.health ready ∙ occur_all_stopped env.before_lock s) in
    w.shown ∙ ap (λ x. not x && last_published ready env.before_handler) down

-- An admitted Check or List whose context is not done afterwards, with a refresher and an orderly
-- bridge, whose handler answers what the health server says in the state in which it runs, whatever
-- other goroutines do to the tracker and the bridge meanwhile: the answer is NOT_SERVING if the bridge
-- is stopped by then. Else it is the tracker's flag that the RPC's own refresh has read, unless another
-- refresh publishes between that refresh and the handler: then it is the flag which the last of these
-- publishes.
pub grpc_health_read :
    (h : HealthServer) (set : InterceptorSet) (env : Environment) (rpc : Rpc)
    (handler : Handler Bool) (s : Shared)
    → IsAdmitted set env rpc
    → env.after ≡ none
    → set.has_refresher ≡ true
    → is_unary_health_method rpc.full_method ≡ true
    → IsOrderly s.health
    → (handler (unary_state set env rpc s)).1
      ≡ returned (some (h.is_serving (h.after (unary_state set env rpc s).health.calls))) none
    → (unary set env rpc handler s).1 ≡ (
      some (
          not (stopped_by (stopped_by s.health.stopped env.before_lock) env.before_handler)
          && last_published (decode s.tracker.state).ready env.before_handler),
      none,
    )
unfolding checked after_unary finish
grpc_health_read h set env rpc handler s ok in_time has health_method orderly reads =
    let t : Shared = record (with_id rpc s) { header = some (id_of rpc s) } in
    let refreshed : unary_state set env rpc s ≡ refresh env t = rw (has, health_method) refl in
    let shown =
      ap (λ u. h.is_serving (h.after u.health.calls)) refreshed ∙ refresh_shown h env t orderly in
    rw (unary-runs set env rpc handler s ok, reads, in_time) (ap (λ b. (some b, none)) shown)
