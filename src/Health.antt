-- ===== src/Health.antt =====
-- pkg/api/health/readiness.go: the readiness projection that the transport adapters share. The
-- atomic `uint32` is one register: `Store` and `Load` are single steps on it. A nil `*Tracker` is
-- `none`.
pub mod Projection
mod Examples
use Prim.Native.String.{String}
use text.Mathlib.Text.{◌==◌ as str_eq}
use final_weave.Prelude.{
  ℕ, Bool, true, false, Option, none, some, List, [], ◌∷◌, ◌==◌, if◌then◌else◌, Call, returns,
  panics,
}

abbrev pub Reason : Type 0
Reason = String

abbrev pub reason_unavailable : Reason
reason_unavailable = "unavailable"

abbrev pub reason_runtime_unavailable : Reason
reason_runtime_unavailable = "runtime_unavailable"

abbrev pub reason_recovering : Reason
reason_recovering = "recovering"

abbrev pub reason_draining : Reason
reason_draining = "draining"

abbrev pub reason_failed : Reason
reason_failed = "failed"

pub record Readiness : Type 0 where
  pub ready : Bool
  pub reason : Reason

-- The `iota` block of states.
abbrev pub state_unavailable : ℕ
state_unavailable = 0

abbrev pub state_runtime_unavailable : ℕ
state_runtime_unavailable = 1

abbrev pub state_recovering : ℕ
state_recovering = 2

abbrev pub state_draining : ℕ
state_draining = 3

abbrev pub state_failed : ℕ
state_failed = 4

abbrev pub state_ready : ℕ
state_ready = 5

pub record Tracker : Type 0 where
  pub state : ℕ  -- atomic.Uint32

abbrev pub zero_tracker : Tracker
zero_tracker = record { state = 0 }

unfoldable pub new_tracker : Tracker
new_tracker = record { state = state_runtime_unavailable }

unfoldable pub encode : Readiness → ℕ
encode r =
    if r.ready
    then state_ready
    else if str_eq r.reason reason_runtime_unavailable
    then state_runtime_unavailable
    else if str_eq r.reason reason_recovering
    then state_recovering
    else if str_eq r.reason reason_draining
    then state_draining
    else if str_eq r.reason reason_failed
    then state_failed
    else state_unavailable

-- A `Readiness` literal that names only its reason, or only its flag.
abbrev pub not_ready : Reason → Readiness
not_ready reason = record { ready = false; reason = reason }

abbrev pub is_ready : Readiness
is_ready = record { ready = true; reason = "" }

unfoldable pub decode : ℕ → Readiness
decode state =
    if state == state_runtime_unavailable
    then not_ready reason_runtime_unavailable
    else if state == state_recovering
    then not_ready reason_recovering
    else if state == state_draining
    then not_ready reason_draining
    else if state == state_failed
    then not_ready reason_failed
    else if state == state_ready
    then is_ready
    else not_ready reason_unavailable

unfoldable pub store : Option Tracker → Readiness → Call Tracker
unfolding encode
store none r = panics
store (some t) r = returns (record t { state = encode r })

unfoldable pub snapshot : Option Tracker → Call Readiness
unfolding decode
snapshot none = panics
snapshot (some t) = returns (decode t.state)
