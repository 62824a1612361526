-- ===== src/Grpc/HealthBridge/Status.antt =====
-- What a health server that does what grpc-go documents answers after the calls of the bridge.
use final_weave.Prelude.{
  ◌≡◌, refl, sym, subst, Bool-cases, inl, inr, Bool, true, false, List, [], ◌∷◌, if◌then◌else◌,
}
use final_weave.Grpc.HealthBridge.{
  HealthCall, set_serving_status, shutdown_all, Bridge, new_bridge, publish, shutdown_bridge,
}

-- Whether the server was shut down before.
abbrev pub was_shut_down : List HealthCall → Bool
was_shut_down [] = false
was_shut_down (shutdown_all ∷ calls) = true
was_shut_down (set_serving_status b ∷ calls) = was_shut_down calls

-- A health server: its state after some calls, and whether it answers SERVING. grpc-go documents that
-- `SetServingStatus` sets the status, and that `Shutdown` sets every status to NOT_SERVING.
pub record HealthServer : Type 1 where
  pub State : Type 0
  pub after : List HealthCall → State
  pub is_serving : State → Bool
  pub sets :
      (calls : List HealthCall) (b : Bool)
      → was_shut_down calls ≡ false
      → is_serving (after (set_serving_status b ∷ calls)) ≡ b
  pub ends : (calls : List HealthCall) → is_serving (after (shutdown_all ∷ calls)) ≡ false

-- A health server that just keeps its status.
abbrev pub status : List HealthCall → Bool
status [] = true
status (shutdown_all ∷ calls) = false
status (set_serving_status b ∷ calls) = if was_shut_down calls then false else b

pub status-sets :
    (calls : List HealthCall) (b : Bool)
    → was_shut_down calls ≡ false
    → status (set_serving_status b ∷ calls) ≡ b
status-sets calls b h = rw h

abbrev pub keeps_status : HealthServer
keeps_status = record {
  State = Bool;
  after = status;
  is_serving = λ s. s;
  sets = status-sets;
  ends = λ calls. refl;
}

-- What the bridge guarantees of its calls: once stopped, the last of them was `Shutdown`; before, none
-- was, and it has set the status.
pub record IsOrderly (b : Bridge) : Type 0 where
  pub ended : b.stopped ≡ true → (rest : List HealthCall) × (b.calls ≡ shutdown_all ∷ rest)
  pub alive : b.stopped ≡ false → was_shut_down b.calls ≡ false

if_true : {A : Type 0} {b : Bool} (x y : A) → b ≡ true → (if b then x else y) ≡ x
if_true x y h = rw h

if_false : {A : Type 0} {b : Bool} (x y : A) → b ≡ false → (if b then x else y) ≡ y
if_false x y h = rw h

pub new_bridge-IsOrderly : IsOrderly new_bridge
unfolding new_bridge
new_bridge-IsOrderly = record { ended = λ h. absurd (cc); alive = λ _. refl }

pub publish-IsOrderly : (b : Bridge) (ready : Bool) → IsOrderly b → IsOrderly (publish b ready)
unfolding publish
publish-IsOrderly b ready o = elim (Bool-cases b.stopped) [
  | inl down ↦ subst IsOrderly (sym (if_true _ _ down)) o
  | inr up ↦
      subst IsOrderly (sym (if_false _ _ up))
        (record { ended = λ h. absurd (cc); alive = λ _. o.alive up })
]

pub shutdown_bridge-IsOrderly : (b : Bridge) → IsOrderly b → IsOrderly (shutdown_bridge b)
unfolding shutdown_bridge
shutdown_bridge-IsOrderly b o = elim (Bool-cases b.stopped) [
  | inl down ↦ subst IsOrderly (sym (if_true _ _ down)) o
  | inr up ↦
      subst IsOrderly (sym (if_false _ _ up))
        (record { ended = λ _. (b.calls, refl); alive = λ h. absurd (cc) })
]
