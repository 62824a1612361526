-- ===== src/Service/History.antt =====
-- What the contract means for a whole history, proved once for every implementation.
use final_weave.Prelude.{
  ℕ, ◌+◌, ◌≤◌, ◌≡◌, refl, sym, subst, Option, none, List, [], ◌∷◌, All, arith,
}
use final_weave.GoErrors.{Err}
use final_weave.Service.{
  Phase, fresh, running, ending, ended, Label, admitted, busy, late, silent, answered, Act, Trace,
  Implementation, Run, labels,
}

unfoldable pub run_inv : (m : Implementation) {a : m.System} → Run m a → m.Inv a
run_inv m Run.here = m.starts.0
run_inv m (Run.next r st) = m.keeps st (run_inv m r)

-- Every run is a history that the contract allows.
pub Run-Trace :
    (m : Implementation) {a : m.System} (r : Run m a) → Trace fresh (labels m r) (m.view a)
unfolding labels
Run-Trace m Run.here = subst (λ p. Trace fresh [] p) (sym (m.starts.1)) Trace.nothing
Run-Trace m (Run.next r st) = Trace.then (Run-Trace m r) (m.simulates st (run_inv m r))

-- How often `Serve` was admitted.
abbrev pub admissions : List Label → ℕ
admissions [] = 0
admissions (admitted ∷ ls) = 1 + admissions ls
admissions (_ ∷ ls) = admissions ls

abbrev pub Says : Option Err → Label → Type 0
Says e (answered f) = f ≡ e
Says e _ = Unit

abbrev pub Before : Label → Type 0
Before (answered f) = ⊥
Before _ = Unit

-- What the phase says of the labels so far.
Fits : Phase → List Label → Type 0
Fits fresh ls = (admissions ls ≡ 0) × All Before ls
Fits running ls = (admissions ls ≡ 1) × All Before ls
Fits ending ls = (admissions ls ≡ 1) × All Before ls
Fits (ended e) ls = (admissions ls ≤ 1) × All (Says e) ls

All-Says : (e : Option Err) (ls : List Label) → All Before ls → All (Says e) ls
All-Says e [] h = tt
All-Says e (answered f ∷ ls) h = absurd (h.0)
All-Says e (admitted ∷ ls) h = (tt, All-Says e ls h.1)
All-Says e (busy ∷ ls) h = (tt, All-Says e ls h.1)
All-Says e (late ∷ ls) h = (tt, All-Says e ls h.1)
All-Says e (silent ∷ ls) h = (tt, All-Says e ls h.1)

Act-Fits : {p q : Phase} {l : Label} (ls : List Label) → Act p l q → Fits p ls → Fits q (l ∷ ls)
unfolding Fits
Act-Fits ls (Act.rest fresh) h = (h.0, (tt, h.1))
Act-Fits ls (Act.rest running) h = (h.0, (tt, h.1))
Act-Fits ls (Act.rest ending) h = (h.0, (tt, h.1))
Act-Fits ls (Act.rest (ended e)) h = (h.0, (tt, h.1))
Act-Fits ls Act.start h = (omega arith, (tt, h.1))
Act-Fits ls Act.refuse_busy h = (h.0, (tt, h.1))
Act-Fits ls Act.refuse_ending h = (h.0, (tt, h.1))
Act-Fits ls (Act.refuse_ended e) h = (h.0, (tt, h.1))
Act-Fits ls Act.retire h = (omega arith, (refl, All-Says none ls h.1))
Act-Fits ls Act.begin h = (h.0, (tt, h.1))
Act-Fits ls Act.leave h = (omega arith, (tt, All-Says none ls h.1))
Act-Fits ls (Act.finish e) h = (omega arith, (refl, All-Says e ls h.1))
Act-Fits ls (Act.repeat e) h = (h.0, (refl, h.1))

Trace-Fits : {ls : List Label} {p : Phase} → Trace fresh ls p → Fits p ls
unfolding Fits
Trace-Fits Trace.nothing = (refl, tt)
Trace-Fits (Trace.then {ls} t act) = Act-Fits ls act (Trace-Fits t)

-- No `Serve` is admitted after a `Shutdown` was answered.
abbrev pub IsOrderly : List Label → Type 0
IsOrderly [] = Unit
IsOrderly (admitted ∷ ls) = All Before ls × IsOrderly ls
IsOrderly (_ ∷ ls) = IsOrderly ls

Trace-IsOrderly : {ls : List Label} {p : Phase} → Trace fresh ls p → IsOrderly ls
unfolding Fits
Trace-IsOrderly Trace.nothing = tt
Trace-IsOrderly (Trace.then t Act.start) = ((Trace-Fits t).1, Trace-IsOrderly t)
Trace-IsOrderly (Trace.then t (Act.rest p)) = Trace-IsOrderly t
Trace-IsOrderly (Trace.then t Act.refuse_busy) = Trace-IsOrderly t
Trace-IsOrderly (Trace.then t Act.refuse_ending) = Trace-IsOrderly t
Trace-IsOrderly (Trace.then t (Act.refuse_ended e)) = Trace-IsOrderly t
Trace-IsOrderly (Trace.then t Act.retire) = Trace-IsOrderly t
Trace-IsOrderly (Trace.then t Act.begin) = Trace-IsOrderly t
Trace-IsOrderly (Trace.then t Act.leave) = Trace-IsOrderly t
Trace-IsOrderly (Trace.then t (Act.finish e)) = Trace-IsOrderly t
Trace-IsOrderly (Trace.then t (Act.repeat e)) = Trace-IsOrderly t

-- What a history shows of a service that is used once: at most one admission, none of them after an
-- answer, and one result that all answers give.
pub record IsSingleUse (ls : List Label) : Type 0 where
  pub once : admissions ls ≤ 1
  pub orderly : IsOrderly ls
  pub result : Option Err
  pub agreed : All (Says result) ls

pub Trace-IsSingleUse : {ls : List Label} {p : Phase} → Trace fresh ls p → IsSingleUse ls
unfolding Fits
Trace-IsSingleUse {ls} {p} t =
    let (once, result, agreed) = summary p ls (Trace-Fits t) in
    record { once = once; orderly = Trace-IsOrderly t; result = result; agreed = agreed }
  where
    summary :
        (q : Phase) (ms : List Label)
        → Fits q ms
        → (admissions ms ≤ 1) × (e : Option Err) × All (Says e) ms
    summary fresh ms h = (omega arith, none, All-Says none ms h.1)
    summary running ms h = (omega arith, none, All-Says none ms h.1)
    summary ending ms h = (omega arith, none, All-Says none ms h.1)
    summary (ended e) ms h = (h.0, e, h.1)
