-- ===== src/Log/Sequence.antt =====
-- pkg/observability/logging.go: the numbers that the hook gives to the lines.
use Prim.Native.String.{String}
use final_weave.Prelude.{
  Option, none, some, ◌≢◌, All, returns, panics, ℕ, ◌+◌, ◌-◌, ◌^◌, ◌≤◌, ◌<◌, ◌≡◌, refl, ◌⊎◌, inl,
  inr, Bool, List, [], ◌∷◌, length, arith, Bool-cases, subst,
}
use final_weave.Log.{Logger, ZerologLevel, Line, Output, write, send, emit, emit_all}

-- Lines, newest first, whose numbers run down from `n` to 1 without a gap.
abbrev pub IsNumbered : ℕ → List Line → Type 0
IsNumbered n [] = n ≡ 0
IsNumbered n (line ∷ lines) = (line.sequence ≡ n) × (1 ≤ n) × IsNumbered (n - 1) lines

abbrev pub Numbered : Output → Type 0
Numbered out = IsNumbered out.sequence out.lines

write-IsNumbered :
    (l : Logger) (level : ZerologLevel) (event : String) (out : Output)
    → out.sequence + 1 < 2 ^ 64
    → Numbered out
    → Numbered (write l level event out)
unfolding write
write-IsNumbered l level event out small h =
    (refl, omega arith, subst (λ n. IsNumbered n out.lines) (omega arith) h)

send-cases :
    (enabled : ZerologLevel → ZerologLevel → Bool) (l : Logger) (level : ZerologLevel)
    (event : String) (out : Output)
    → (send enabled l level event out ≡ write l level event out)
      ⊎ (send enabled l level event out ≡ out)
unfolding send
send-cases enabled l level event out = elim (Bool-cases (enabled l.level level)) [
  | inl on ↦ inl (rw on refl)
  | inr off ↦ inr (rw off refl)
]

-- An event leaves the numbering as it was or adds one line to it.
send-Numbered :
    (enabled : ZerologLevel → ZerologLevel → Bool) (l : Logger) (level : ZerologLevel)
    (event : String) (out : Output)
    → out.sequence + 1 < 2 ^ 64
    → Numbered out
    → Numbered (send enabled l level event out)
      × ((send enabled l level event out).sequence ≤ out.sequence + 1)
unfolding write
send-Numbered enabled l level event out small h = elim (send-cases enabled l level event out) [
  | inl on ↦ rw on (write-IsNumbered l level event out small h, omega arith)
  | inr off ↦ rw off (h, omega arith)
]

abbrev pub Event : Type 0
Event = Option Logger × ZerologLevel × String

-- The receiver of an event was made by `NewLogger` or `NopLogger`.
abbrev pub IsMade : Event → Type 0
IsMade event = event.0 ≢ none

-- What a sequence of events comes to.
abbrev pub Result : (ZerologLevel → ZerologLevel → Bool) → List Event → Output → Type 0
Result enabled events out =
    (All IsMade events
      × (last : Output) × (emit_all enabled events out ≡ returns last)
      × Numbered last)
    ⊎ ((¬ All IsMade events) × (emit_all enabled events out ≡ panics))

-- From an output whose lines are numbered 1, 2, 3 and so on up to the sequence, events of any loggers
-- that share it, whatever their levels let through, leave such an output, while the numbers stay below
-- 2^64. If a logger was not made by `NewLogger` or `NopLogger`, its event panics.
pub emit_all-Numbered :
    (enabled : ZerologLevel → ZerologLevel → Bool) (events : List Event) (out : Output)
    → out.sequence + length events < 2 ^ 64
    → Numbered out
    → Result enabled events out
unfolding emit_all emit
emit_all-Numbered enabled [] out small h = inl (tt, out, refl, h)
emit_all-Numbered enabled ((none, level, event) ∷ events) out small h =
    inr ((λ made. made.0 refl), refl)
emit_all-Numbered enabled ((some l, level, event) ∷ events) out small h =
    let (numbered, grown) = send-Numbered enabled l level event out (omega arith) h in
    elim (emit_all-Numbered enabled events (send enabled l level event out) (omega arith)
      numbered) [
        | inl (made, last, e, kept) ↦ inl (((λ gone. cc), made), last, e, kept)
        | inr (not_made, e) ↦ inr ((λ made. not_made made.1), e)
      ]
