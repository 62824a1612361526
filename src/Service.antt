-- ===== src/Service.antt =====
-- What `Serve` and `Shutdown` of pkg/api/httpserver/server.go and pkg/api/grpcserver/server.go promise
-- alike: a service that is used once. The phases and the actions are the contract; `Implementation` is
-- what an adapter shows of its own steps.
pub mod History
use final_weave.Prelude.{ℕ, ◌≡◌, Option, none, List, [], ◌∷◌}
use final_weave.GoErrors.{Err}

pub data Phase : Type 0 where
  fresh running ending : Phase
  ended : Option Err → Phase

-- What a caller learns by a step: its `Serve` was admitted, or refused because the service runs or
-- because it has been shut down, or its `Shutdown` has a result.
pub data Label : Type 0 where
  admitted busy late silent : Label
  answered : Option Err → Label

pub data Act : Phase → Label → Phase → Type 0 where
  rest : (p : Phase) → Act p silent p
  start : Act fresh admitted running
  refuse_busy : Act running busy running
  refuse_ending : Act ending late ending
  refuse_ended : (e : Option Err) → Act (ended e) late (ended e)
  retire : Act fresh (answered none) (ended none)
  begin : Act running silent ending
  leave : Act running silent (ended none)
  finish : (e : Option Err) → Act ending (answered e) (ended e)
  repeat : (e : Option Err) → Act (ended e) (answered e) (ended e)

-- A history of labels, newest first.
pub data Trace (p : Phase) : List Label → Phase → Type 0 where
  nothing : Trace p [] p
  then : {l : Label} {ls : List Label} {q r : Phase} → Trace p ls q → Act q l r → Trace p (l ∷ ls) r

-- A system whose steps are actions of the service.
pub record Implementation : Type 1 where
  pub System : Type 0
  pub Step : System → System → Type 0
  pub initial : System
  pub Inv : System → Type 0
  pub view : System → Phase
  pub label : {a b : System} → Step a b → Label
  pub starts : Inv initial × (view initial ≡ fresh)
  pub keeps : {a b : System} → Step a b → Inv a → Inv b
  pub simulates : {a b : System} (st : Step a b) → Inv a → Act (view a) (label st) (view b)

-- A run from the start, and its labels.
pub data Run (m : Implementation) : m.System → Type 0 where
  here : Run m m.initial
  next : {a b : m.System} → Run m a → m.Step a b → Run m b

unfoldable pub labels : (m : Implementation) {a : m.System} → Run m a → List Label
labels m here = []
labels m (next r st) = m.label st ∷ labels m r
