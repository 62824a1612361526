-- ===== src/Log.antt =====
-- pkg/observability/logging.go: the construction of a logger and the loggers derived from it. zerolog is
-- not part of the repository: which events a level lets through is the argument `enabled`, and zerolog
-- runs the hooks of a logger exactly on those. A writer is an interface value.
pub mod Construction
pub mod Sequence
mod Examples
use Prim.Native.String.{String}
use text.Mathlib.Text.{◌==◌ as str_eq}
use final_weave.Prelude.{
  ℕ, ◌+◌, ◌%◌, ◌^◌, Bool, Option, none, some, List, [], ◌∷◌, ◌++◌, if◌then◌else◌, ◌⊎◌, inl, inr,
  Call, returns, panics, ◌>>=◌,
}
use final_weave.GoInterfaces.{GoInterface, is_nil_interface}

abbrev pub level_debug : String
level_debug = "debug"

abbrev pub level_info : String
level_info = "info"

abbrev pub level_warn : String
level_warn = "warn"

abbrev pub level_error : String
level_error = "error"

abbrev pub level_disabled : String
level_disabled = "disabled"

abbrev pub format_json : String
format_json = "json"

abbrev pub format_console : String
format_console = "console"

-- The levels of zerolog that are used.
pub data ZerologLevel : Type 0 where
  debug info warn error disabled : ZerologLevel

pub record LogConfig : Type 0 where
  pub level : String
  pub format : String

unfoldable pub default_log_config : LogConfig
default_log_config = record { level = level_info; format = format_json }

pub data LogError : Type 0 where
  nil_log_writer : LogError
  invalid_log_level : String → LogError
  invalid_log_format : String → LogError

unfoldable pub parse_level : String → LogError ⊎ ZerologLevel
parse_level level =
    if str_eq level level_debug
    then inr debug
    else if str_eq level level_info
    then inr info
    else if str_eq level level_warn
    then inr warn
    else if str_eq level level_error
    then inr error
    else if str_eq level level_disabled
    then inr disabled
    else inl (invalid_log_level level)

-- The synchronized writer as it is, or behind the console writer.
pub data Writer : Type 0 where
  synchronized console : GoInterface → Writer

unfoldable pub log_writer : GoInterface → String → LogError ⊎ Writer
log_writer out format =
    if str_eq format format_json
    then inr (synchronized out)
    else if str_eq format format_console
    then inr (console out)
    else inl (invalid_log_format format)

-- A zerolog logger with its component fields, newest first, and whether it carries the hook.
pub record Logger : Type 0 where
  pub writer : Option Writer
  pub level : ZerologLevel
  pub components : List String
  pub hooked : Bool

abbrev with_writer : ZerologLevel → LogError ⊎ Writer → LogError ⊎ Logger
with_writer level (inl e) = inl e
with_writer level (inr w) =
    inr (record { writer = some w; level = level; components = []; hooked = Bool.true })

abbrev with_level : GoInterface → String → LogError ⊎ ZerologLevel → LogError ⊎ Logger
unfolding log_writer
with_level out format (inl e) = inl e
with_level out format (inr level) = with_writer level (log_writer out format)

unfoldable pub new_logger : GoInterface → LogConfig → LogError ⊎ Logger
unfolding parse_level log_writer is_nil_interface
new_logger out config =
    if is_nil_interface out
    then inl nil_log_writer
    else with_level out config.format (parse_level config.level)

unfoldable pub nop_logger : Logger
nop_logger = record { writer = none; level = disabled; components = []; hooked = Bool.false }

-- `mustLogger`; the receiver is `none` if it or its zerolog logger is nil.
abbrev must_logger : Option Logger → Call Logger
must_logger none = panics
must_logger (some l) = returns l

-- `Component`
unfoldable pub component : Option Logger → String → Call Logger
component l name =
    must_logger l >>= λ logger. returns (record logger { components = name ∷ logger.components })

-- A line of the log, with its number.
pub record Line : Type 0 where
  pub level : ZerologLevel
  pub components : List String
  pub event : String
  pub sequence : ℕ

-- The sequence that the loggers of one `NewLogger` share, and the lines, newest first.
pub record Output : Type 0 where
  pub sequence : ℕ
  pub lines : List Line

-- A hooked logger's event that is let through.
unfoldable pub write : Logger → ZerologLevel → String → Output → Output
write l level event out =
    let number = (out.sequence + 1) % 2 ^ 64 in
    record {
      sequence = number;
      lines =
          record { level = level; components = l.components; event = event; sequence = number }
          ∷ out.lines;
    }

module _ (enabled : ZerologLevel → ZerologLevel → Bool) where
  -- An event of a logger with the hook, which its level lets through or not.
  unfoldable pub send : Logger → ZerologLevel → String → Output → Output
  send l level event out = if enabled l.level level then write l level event out else out

  -- `Debug`, `Info`, `Warn` or `Error` of a receiver, up to the end of `Msg`.
  unfoldable pub emit : Option Logger → ZerologLevel → String → Output → Call Output
  emit l level event out = must_logger l >>= λ logger. returns (send logger level event out)

  -- Events of any receivers that share the sequence, in the order in which they reach the hook.
  unfoldable pub emit_all : List (Option Logger × ZerologLevel × String) → Output → Call Output
  emit_all [] out = returns out
  emit_all ((l, level, event) ∷ events) out =
      emit l level event out >>= λ next. emit_all events next
