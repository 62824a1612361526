-- ===== src/Grpc/RequestContext/Ends.antt =====
-- pkg/api/grpcserver/interceptors.go: what ends a request context.
use final_weave.Prelude.{
  ℕ, ◌≡◌, ◌≢◌, refl, ◌∙◌, ap, Bool, true, false, Option, none, some, List, [], ◌∷◌, arith,
  if◌then◌else◌, ℤ, pos, ltb_ℤ,
}
use final_weave.Grpc.Interceptors.{ContextError, canceled, deadline_exceeded}
use final_weave.Grpc.RequestContext.{
  RequestContext, or_else, cancel, canceled_by, derive_request_context, stored_request_id,
  ContextEvent, incoming_done, root_done, timer_fires, happen, happen_all, cleanup,
}

-- The error of the first event that ends a context, with a timer or without.
abbrev pub first_end : Bool → List ContextEvent → Option ContextError
first_end timed [] = none
first_end timed (incoming_done e ∷ events) = some e
first_end timed (root_done ∷ events) = some canceled
first_end timed (timer_fires ∷ events) =
    if timed then some deadline_exceeded else first_end timed events

happen_all-first :
    (events : List ContextEvent) (c : RequestContext)
    → c.armed ≡ true
    → (happen_all events c).err ≡ or_else c.err (first_end c.timed events)
unfolding happen_all happen
happen_all-first [] c armed = ground arith
happen_all-first (incoming_done e ∷ events) c armed =
    ground (arith, happen_all-first events (cancel e c))
happen_all-first (root_done ∷ events) c armed =
    rw armed (ground (arith, happen_all-first events (cancel canceled c)))
happen_all-first (timer_fires ∷ events) c armed =
    ground (arith, happen_all-first events (cancel deadline_exceeded c), happen_all-first events c)

pub ended_stays :
    (events : List ContextEvent) (c : RequestContext) {e : ContextError}
    → c.err ≡ some e
    → (happen_all events c).err ≡ some e
unfolding happen_all happen
ended_stays [] c h = h
ended_stays (x ∷ events) c h = ended_stays events (happen x c) (ground arith)

happen_deaf :
    (x : ContextEvent) (c : RequestContext) {e : ContextError}
    → c.err ≡ some e
    → c.armed ≡ false
    → c.timed ≡ false
    → happen x c ≡ c
unfolding happen
happen_deaf x c h unarmed untimed = ground arith

cleanup_ends : (c : RequestContext) → (e : ContextError) × ((cleanup c).err ≡ some e)
unfolding cleanup
cleanup_ends c = go c.err
  where
    go : (o : Option ContextError) → (e : ContextError) × (or_else o (some canceled) ≡ some e)
    go none = (canceled, refl)
    go (some d) = (d, refl)

or_else_assoc : (a b c : Option ContextError) → or_else (or_else a b) c ≡ or_else a (or_else b c)
or_else_assoc none b c = refl
or_else_assoc (some d) b c = refl

-- Nothing happens to a context after its cleanup.
deaf :
    (events : List ContextEvent) (c : RequestContext) {e : ContextError}
    → c.err ≡ some e
    → c.armed ≡ false
    → c.timed ≡ false
    → happen_all events c ≡ c
unfolding happen_all happen
deaf [] c h unarmed untimed = refl
deaf (x ∷ events) c h unarmed untimed =
    ap (happen_all events) (happen_deaf x c h unarmed untimed) ∙ deaf events c h unarmed untimed

happen_request_id : (x : ContextEvent) (c : RequestContext) → (happen x c).request_id ≡ c.request_id
unfolding happen
happen_request_id x c = ground arith

happen_all_request_id :
    (events : List ContextEvent) (c : RequestContext)
    → (happen_all events c).request_id ≡ c.request_id
unfolding happen_all
happen_all_request_id [] c = refl
happen_all_request_id (x ∷ events) c =
    happen_all_request_id events (happen x c) ∙ happen_request_id x c

-- The error of a request context is the first of: the incoming context's at the call, Canceled if the
-- root had ended by then, and what first ends it later, where the timer counts only if the timeout is
-- positive. After the cleanup the context is done and nothing that happens changes it, and `RequestID`
-- of it is the request's ID throughout.
pub grpc_context_ends :
    (incoming root : Option ContextError) (timeout : ℤ) (id : List ℕ)
    (events later : List ContextEvent)
    → let c = derive_request_context incoming root timeout id in
      ((happen_all events c).err
        ≡ or_else incoming (or_else (canceled_by root) (first_end (ltb_ℤ (pos 0) timeout) events)))
      × ((cleanup (happen_all events c)).err ≢ none)
      × (happen_all later (cleanup (happen_all events c)) ≡ cleanup (happen_all events c))
      × (stored_request_id (some (happen_all events c)) ≡ id)
      × (stored_request_id (some (cleanup (happen_all events c))) ≡ id)
unfolding derive_request_context cleanup stored_request_id
grpc_context_ends incoming root timeout id events later =
    let c = derive_request_context incoming root timeout id in
    let (e, ended) = cleanup_ends (happen_all events c) in
    (
      happen_all-first events c refl ∙ or_else_assoc incoming _ _,
      (λ h. cc),
      deaf later (cleanup (happen_all events c)) ended refl refl,
      happen_all_request_id events c,
      happen_all_request_id events c,
    )
