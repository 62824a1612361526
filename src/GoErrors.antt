-- ===== src/GoErrors.antt =====
-- The error values that the adapters' lifecycles meet, with package errors: `Is` goes through `%w`
-- wrapping and through `Join`.
use final_weave.Prelude.{ℕ, Bool, false, ◌||◌, Option, none, some, ◌==◌}

-- Sentinel errors, of the packages under pkg/api and of the libraries that they call.
pub data Sentinel : Type 0 where
  nil_listener server_already_serving server_stopped : Sentinel
  nil_shutdown_context unbounded_shutdown_context : Sentinel
  net_closed context_canceled deadline_exceeded : Sentinel
  fiber_not_running grpc_server_stopped : Sentinel

-- A number for each, by which they are told apart.
abbrev tag : Sentinel → ℕ
tag nil_listener = 0
tag server_already_serving = 1
tag server_stopped = 2
tag nil_shutdown_context = 3
tag unbounded_shutdown_context = 4
tag net_closed = 5
tag context_canceled = 6
tag deadline_exceeded = 7
tag fiber_not_running = 8
tag grpc_server_stopped = 9

pub data Err : Type 0 where
  sentinel : Sentinel → Err
  wrapped : Err → Err  -- fmt.Errorf("%w: …", err)
  joined_one : Err → Err  -- errors.Join of one error and nils
  joined_two : Err → Err → Err
  other : ℕ → Err

abbrev pub is : Err → Sentinel → Bool
is (sentinel s) t = tag s == tag t
is (wrapped e) t = is e t
is (joined_one e) t = is e t
is (joined_two e f) t = is e t || is f t
is (other n) t = false

-- `errors.Is` and `errors.Join`; nil is `none`.
abbrev pub errors_is : Option Err → Sentinel → Bool
errors_is none t = false
errors_is (some e) t = is e t

abbrev pub errors_join : Option Err → Option Err → Option Err
errors_join none none = none
errors_join (some e) none = some (joined_one e)
errors_join none (some f) = some (joined_one f)
errors_join (some e) (some f) = some (joined_two e f)

abbrev pub is_nil : Option Err → Bool
is_nil none = Bool.true
is_nil (some e) = false

abbrev pub fails : Sentinel → Option Err
fails s = some (sentinel s)
