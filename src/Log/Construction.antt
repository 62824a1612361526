-- ===== src/Log/Construction.antt =====
-- pkg/observability/logging.go: what `NewLogger` accepts and what it reports.
use Prim.Native.String.{String}
use text.Mathlib.Text.{◌==◌ as str_eq}
use text.Mathlib.TextEquality.{eq_iff}
use final_weave.Prelude.{false, ◌≡◌, refl, ◌⊎◌, inl, inr, true, some, [], arith, Bool-cases}
use final_weave.GoInterfaces.{GoInterface, is_nil_interface}
use final_weave.Log.{
  LogConfig, LogError, nil_log_writer, invalid_log_level, invalid_log_format, Writer, synchronized,
  console, debug, info, warn, error, disabled, Logger, ZerologLevel, level_debug, level_info,
  level_warn, level_error, level_disabled, format_json, format_console, parse_level, log_writer,
  new_logger,
}

abbrev pub IsLevel : String → Type 0
IsLevel s =
    (s ≡ level_debug)
    ⊎ (s ≡ level_info)
    ⊎ (s ≡ level_warn)
    ⊎ (s ≡ level_error)
    ⊎ (s ≡ level_disabled)

abbrev pub IsFormat : String → Type 0
IsFormat s = (s ≡ format_json) ⊎ (s ≡ format_console)

parse_level-cases :
    (s : String)
    → ((l : ZerologLevel) × (parse_level s ≡ inr l) × IsLevel s)
      ⊎ ((parse_level s ≡ inl (invalid_log_level s)) × (¬ IsLevel s))
unfolding parse_level
parse_level-cases s = elim (Bool-cases (str_eq s level_debug)) [
  | inl on ↦ inl (debug, rw on refl, ground (arith, eq_iff s level_debug))
  | inr not_debug ↦ elim (Bool-cases (str_eq s level_info)) [
    | inl on ↦ inl (info, rw (not_debug, on) refl, ground (arith, eq_iff s level_info))
    | inr not_info ↦ elim (Bool-cases (str_eq s level_warn)) [
      | inl on ↦ inl (warn, rw (not_debug, not_info, on) refl, ground (arith, eq_iff s level_warn))
      | inr not_warn ↦ elim (Bool-cases (str_eq s level_error)) [
        | inl on ↦ inl (
          error,
          rw (not_debug, not_info, not_warn, on) refl,
          ground (arith, eq_iff s level_error),
        )
        | inr not_error ↦ elim (Bool-cases (str_eq s level_disabled)) [
          | inl on ↦ inl (
            disabled,
            rw (not_debug, not_info, not_warn, not_error, on) refl,
            ground (arith, eq_iff s level_disabled),
          )
          | inr not_disabled ↦ inr (
            rw (not_debug, not_info, not_warn, not_error, not_disabled) refl,
            (λ is. ground (
              arith,
              eq_iff s level_debug,
              eq_iff s level_info,
              eq_iff s level_warn,
              eq_iff s level_error,
              eq_iff s level_disabled,
            )),
          )
        ]
      ]
    ]
  ]
]

log_writer-cases :
    (out : GoInterface) (s : String)
    → ((w : Writer) × (log_writer out s ≡ inr w) × IsFormat s)
      ⊎ ((log_writer out s ≡ inl (invalid_log_format s)) × (¬ IsFormat s))
unfolding log_writer
log_writer-cases out s = elim (Bool-cases (str_eq s format_json)) [
  | inl on ↦ inl (synchronized out, rw on refl, ground (arith, eq_iff s format_json))
  | inr not_json ↦ elim (Bool-cases (str_eq s format_console)) [
    | inl on ↦ inl (console out, rw (not_json, on) refl, ground (arith, eq_iff s format_console))
    | inr not_console ↦ inr (
      rw (not_json, not_console) refl,
      (λ is. ground (arith, eq_iff s format_json, eq_iff s format_console)),
    )
  ]
]

-- What `NewLogger` must report for a writer and a configuration: the first of the three that is wrong.
abbrev pub Refused : GoInterface → LogConfig → LogError → Type 0
Refused out c nil_log_writer = is_nil_interface out ≡ true
Refused out c (invalid_log_level s) = (is_nil_interface out ≡ false) × (s ≡ c.level) × (¬ IsLevel s)
Refused out c (invalid_log_format s) =
    (is_nil_interface out ≡ false) × IsLevel c.level × (s ≡ c.format) × (¬ IsFormat s)

-- `NewLogger` either builds a logger with the hook, and then the writer is not nil (nor holds a nil
-- pointer, map, slice, function, channel or interface) and level and format are among the constants,
-- or reports the first of the three that is wrong.
pub new_logger_outcome :
    (out : GoInterface) (c : LogConfig)
    → ((l : Logger) × (new_logger out c ≡ inr l)
        × (l.hooked ≡ true)
        × (is_nil_interface out ≡ false)
        × IsLevel c.level
        × IsFormat c.format)
      ⊎ ((e : LogError) × (new_logger out c ≡ inl e) × Refused out c e)
unfolding new_logger
new_logger_outcome out c = elim (Bool-cases (is_nil_interface out)) [
  | inl gone ↦ inr (nil_log_writer, rw gone refl, gone)
  | inr here ↦ elim (parse_level-cases c.level) [
    | inr (bad, no_level) ↦
        inr (invalid_log_level c.level, rw (here, bad) refl, (here, refl, no_level))
    | inl (level, good, is_level) ↦ elim (log_writer-cases out c.format) [
      | inr (bad, no_format) ↦ inr (
        invalid_log_format c.format,
        rw (here, good, bad) refl,
        (here, is_level, refl, no_format),
      )
      | inl (w, fine, is_format) ↦ inl (
        record { writer = some w; level = level; components = []; hooked = true },
        rw (here, good, fine) refl,
        refl,
        here,
        is_level,
        is_format,
      )
    ]
  ]
]
