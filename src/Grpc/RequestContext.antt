-- ===== src/Grpc/RequestContext.antt =====
-- pkg/api/grpcserver/interceptors.go: `deriveRequestContext` and the context that it returns, as package
-- context documents them: a context keeps the first error that ends it, a done parent ends its
-- children, and `AfterFunc` calls its function when its context ends, unless it was stopped. What
-- happens to the parents and to the timer is a list of events.
pub mod Ends
pub mod Refusal
mod Examples
use final_weave.Prelude.{
  ℕ, Bool, true, false, Option, none, some, List, [], ◌∷◌, if◌then◌else◌, ℤ, pos, ltb_ℤ,
}
use final_weave.Grpc.Interceptors.{
  ContextError, canceled, deadline_exceeded, Environment, HealthEvent,
}

-- The request context: its error, whether the root's end still cancels it, whether it has a timer, and
-- the request ID that it carries.
pub record RequestContext : Type 0 where
  pub err : Option ContextError
  pub armed : Bool
  pub timed : Bool
  pub request_id : List ℕ

-- The first error stays.
abbrev pub or_else : Option ContextError → Option ContextError → Option ContextError
or_else none e = e
or_else (some d) e = some d

abbrev pub cancel : ContextError → RequestContext → RequestContext
cancel e c = record c { err = or_else c.err (some e) }

-- What `root.Err() != nil` leads to.
abbrev pub canceled_by : Option ContextError → Option ContextError
canceled_by none = none
canceled_by (some e) = some canceled

-- `deriveRequestContext`, for what the incoming context and the root say at the call.
unfoldable pub derive_request_context :
    (incoming root : Option ContextError) → ℤ → List ℕ → RequestContext
derive_request_context incoming root timeout request_id = record {
  err = or_else incoming (canceled_by root);
  armed = true;
  timed = ltb_ℤ (pos 0) timeout;
  request_id = request_id;
}

-- `RequestID` of a context, which is `none` if it is a nil interface.
unfoldable pub stored_request_id : Option RequestContext → List ℕ
stored_request_id none = []
stored_request_id (some c) = c.request_id

pub data ContextEvent : Type 0 where
  incoming_done : ContextError → ContextEvent
  root_done : ContextEvent
  timer_fires : ContextEvent

unfoldable pub happen : ContextEvent → RequestContext → RequestContext
happen (incoming_done e) c = cancel e c
happen root_done c = if c.armed then cancel canceled c else c
happen timer_fires c = if c.timed then cancel deadline_exceeded c else c

unfoldable pub happen_all : List ContextEvent → RequestContext → RequestContext
happen_all [] c = c
happen_all (e ∷ events) c = happen_all events (happen e c)

-- The function that `deriveRequestContext` returns with the context.
unfoldable pub cleanup : RequestContext → RequestContext
cleanup c = record (cancel canceled c) { armed = false; timed = false }

-- What the interceptors see of a context, for what happens before their handler and during it, and for
-- what other goroutines do to the health service meanwhile.
unfoldable pub environment :
    Bool
    → RequestContext
    → (before during : List ContextEvent) → (before_lock before_handler : List HealthEvent)
    → Environment
environment header_accepted c before during before_lock before_handler = record {
  header_accepted = header_accepted;
  before = (happen_all before c).err;
  after = (happen_all during (happen_all before c)).err;
  before_lock = before_lock;
  before_handler = before_handler;
}
