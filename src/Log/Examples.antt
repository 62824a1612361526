-- ===== src/Log/Examples.antt =====
-- The default configuration, and two components that share a sequence, as in
-- pkg/observability/logging_test.go.
use Prim.Native.String.{String}
use final_weave.Prelude.{◌≡◌, ◌⊎◌, refl, Bool, true, false, some, List, [], ◌∷◌, inl, inr, arith}
use final_weave.GoInterfaces.{GoInterface, holding, pointer, is_nil_interface}
use final_weave.Log.{
  LogError, Logger, ZerologLevel, debug, info, warn, Output, synchronized, default_log_config,
  new_logger,
}
use final_weave.Log.Construction.{IsLevel, IsFormat, Refused, new_logger_outcome}
use final_weave.Log.Sequence.{Event, Result, emit_all-Numbered}

-- `os.Stderr`, a pointer.
abbrev stderr : GoInterface
stderr = holding pointer false

new_logger_outcome_example :
    ((l : Logger) × (new_logger stderr default_log_config ≡ inr l)
      × (l.hooked ≡ true)
      × (is_nil_interface stderr ≡ false)
      × IsLevel default_log_config.level
      × IsFormat default_log_config.format)
    ⊎ ((e : LogError) × (new_logger stderr default_log_config ≡ inl e)
        × Refused stderr default_log_config e)
new_logger_outcome_example = new_logger_outcome stderr default_log_config

-- Drops what is for debugging only.
abbrev no_debug : ZerologLevel → ZerologLevel → Bool
no_debug _ debug = false
no_debug _ _ = true

abbrev named : String → Logger
named name = record {
  writer = some (synchronized stderr);
  level = info;
  components = name ∷ [];
  hooked = true;
}

abbrev events : List Event
events =
    (some (named "http"), info, "http_request_completed")
    ∷ (some (named "grpc"), debug, "detail")
    ∷ (some (named "grpc"), warn, "grpc_request_completed")
    ∷ []

abbrev nothing_yet : Output
nothing_yet = record { sequence = 0; lines = [] }

emit_all-Numbered_example : Result no_debug events nothing_yet
emit_all-Numbered_example = emit_all-Numbered no_debug events nothing_yet (omega arith) refl
