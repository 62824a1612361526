-- ===== src/Http/Pipeline/Probes.antt =====
-- The two probes behind the middlewares.
use Prim.Native.String.{String}
use final_weave.Prelude.{◌≡◌, refl, ◌⊎◌, inl, inr, false, some, returns, ap}
use final_weave.Health.{Tracker, decode, snapshot, reason_unavailable, is_ready, not_ready}
use final_weave.Health.Projection.{IsKnown, snapshot_vocabulary}
use final_weave.Http.Pipeline.{
  Exchange, probe_response, finish_access, recovered, ready_handler, app,
}
use final_weave.Http.Pipeline.Answers.{has_body, app-settled}

-- What the readiness probe answers for a tracker.
abbrev pub ProbeAnswer : Tracker → Exchange → Type 0
ProbeAnswer t y =
    ((snapshot (some t) ≡ returns is_ready)
      × (y.status ≡ 200)
      × (y.body ≡ probe_response "ready" ""))
    ⊎ ((reason : String) × (snapshot (some t) ≡ returns (not_ready reason))
        × (IsKnown reason ⊎ (reason ≡ reason_unavailable))
        × (y.status ≡ 503)
        × (y.body ≡ probe_response "not_ready" reason))

tracker_told :
    (t : Tracker)
    → (decode t.state ≡ is_ready)
      ⊎ ((reason : String) × (decode t.state ≡ not_ready reason)
          × (IsKnown reason ⊎ (reason ≡ reason_unavailable)))
unfolding snapshot decode
tracker_told t = elim (snapshot_vocabulary t refl) [
  | inl up ↦ inl up
  | inr (down, reason) ↦ inr (
    (decode t.state).reason,
    ap (λ b. record { ready = b; reason = (decode t.state).reason }) down,
    reason,
  )
]

-- A readiness request without a body is answered from the tracker's snapshot: 200 and "ready" if that
-- is ready, else 503, "not_ready" and the snapshot's reason, one of the closed vocabulary.
pub http_readiness_answer :
    (t : Tracker) (x : Exchange) → has_body x ≡ false → ProbeAnswer t (app (ready_handler t) x).0
unfolding ready_handler snapshot finish_access recovered
http_readiness_answer t x bare = elim (tracker_told t) [
  | inl up ↦ inl (
    rw up refl,
    rw (app-settled (ready_handler t) x, bare, up) refl,
    rw (app-settled (ready_handler t) x, bare, up) refl,
  )
  | inr (reason, down, known) ↦ inr (
    reason,
    rw down refl,
    known,
    rw (app-settled (ready_handler t) x, bare, down) refl,
    rw (app-settled (ready_handler t) x, bare, down) refl,
  )
]
