-- ===== src/Health/Projection.antt =====
-- pkg/api/health/readiness.go: what a reader of the tracker sees.
use text.Mathlib.TextEquality.{eq_iff}
use final_weave.Prelude.{
  ◌≡◌, ◌⊎◌, refl, true, false, some, List, [], ◌∷◌, ◌++◌, arith, returns, Call, ◌>>=◌,
}
use final_weave.Health.{
  Reason, Readiness, Tracker, encode, decode, store, snapshot, reason_unavailable,
  reason_runtime_unavailable, reason_recovering, reason_draining, reason_failed, is_ready,
}

-- The reasons that may cross an API, other than the default.
abbrev pub IsKnown : Reason → Type 0
IsKnown r =
    (r ≡ reason_runtime_unavailable)
    ⊎ (r ≡ reason_recovering)
    ⊎ (r ≡ reason_draining)
    ⊎ (r ≡ reason_failed)

-- What a reader may be told after `asked` was stored.
pub record IsProjection (asked told : Readiness) : Type 0 where
  pub same_flag : told.ready ≡ asked.ready
  pub silent_when_ready : asked.ready ≡ true → told.reason ≡ ""
  pub keeps_known : asked.ready ≡ false → IsKnown asked.reason → told.reason ≡ asked.reason
  pub hides_other : asked.ready ≡ false → ¬ IsKnown asked.reason → told.reason ≡ reason_unavailable

decode-encode-IsProjection : (r : Readiness) → IsProjection r (decode (encode r))
unfolding encode decode
decode-encode-IsProjection r = ground (
  arith,
  eq_iff r.reason reason_runtime_unavailable,
  eq_iff r.reason reason_recovering,
  eq_iff r.reason reason_draining,
  eq_iff r.reason reason_failed,
)

-- The writers' calls in the order in which their stores take effect.
pub store_all : Tracker → List Readiness → Call Tracker
store_all t [] = returns t
store_all t (r ∷ rs) = store (some t) r >>= λ u. store_all u rs

store_all-append :
    (t : Tracker) (rs : List Readiness) (r : Readiness)
    → (u : Tracker) × (store_all t (rs ++ r ∷ []) ≡ returns u) × (u.state ≡ encode r)
unfolding store_all store
store_all-append t [] r = (record t { state = encode r }, refl, refl)
store_all-append t (x ∷ rs) r = store_all-append (record t { state = encode x }) rs r

-- However many stores came before, a snapshot tells the last one, reduced to the closed vocabulary:
-- the flag unchanged, no reason when ready, a known reason as it is, any other as unavailable.
pub snapshot-store_all :
    (t : Tracker) (earlier : List Readiness) (asked : Readiness)
    → (told : Readiness) × ((store_all t (earlier ++ asked ∷ []) >>= λ u. snapshot (some u))
        ≡ returns told)
      × IsProjection asked told
unfolding snapshot
snapshot-store_all t earlier asked =
    let (u, done, holds) = store_all-append t earlier asked in
    (decode u.state, rw done, rw holds (decode-encode-IsProjection asked))

-- Whatever 32 bits the register holds, a snapshot is ready with no reason, or not ready with a reason
-- of the closed vocabulary.
pub snapshot_vocabulary :
    (t : Tracker) {told : Readiness}
    → snapshot (some t) ≡ returns told
    → (told ≡ is_ready)
      ⊎ ((told.ready ≡ false) × (IsKnown told.reason ⊎ (told.reason ≡ reason_unavailable)))
unfolding snapshot
snapshot_vocabulary t {told} h = ground arith
