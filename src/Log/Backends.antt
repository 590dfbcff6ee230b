-- ===== src/Log/Backends.antt =====
-- The shims of log/zap.go, log/logrus.go and log/gomol.go, and the writer of log/gomol_json.go.
use nacelle.Prelude.{
  ℕ, String, ◌⊎◌, inl, inr, Bool, true, false, ◌||◌, Option, none, some, List, [], ◌∷◌, ◌++◌, Dict,
  lookup, insert, if◌then◌else◌, string_comparable, nat_comparable, int_comparable,
  bytes_comparable, ◌==◌, Bytes,
}
use nacelle.Error.{Error}
use nacelle.Log.Message.{
  LogMessage, LogLevel, Fields, text_value, add_caller, copy_into, normalize_time_values,
  level_debug, level_info, level_warning, level_error, level_fatal,
}
use nacelle.Log.Shim.{LogShim}

-- The methods of the third-party loggers, and the levels of gomol.
pub data Severity : Type 0 where
  debug_severity info_severity warning_severity error_severity fatal_severity : Severity

-- What a third-party logger was given: the fields that it was made with, and those of the message.
pub record Entry : Type 0 where
  pub bound : List Fields
  pub severity : Severity
  pub fields : Fields
  pub format : String
  pub args : List ℕ

-- `exited` is set where the process ends.
pub record Sink : Type 0 where
  pub entries : List Entry
  pub exited : Bool

abbrev pub is_fatal : Severity → Bool
is_fatal fatal_severity = true
is_fatal _ = false

-- A fatal message ends the process: zap and logrus do so themselves, and the shim of gomol does it.
abbrev pub write : List Fields → Severity → Fields → LogMessage → Sink → Sink
write bound severity fields m s = record {
  entries =
      s.entries
      ++ record {
        bound = bound;
        severity = severity;
        fields = fields;
        format = m.format;
        args = m.args;
      }
        ∷ [];
  exited = s.exited || is_fatal severity;
}

-- The loggers that `WithFields` makes, in all three shims.
unfoldable pub bind_fields : Fields → List Fields → List Fields
bind_fields [] bound = bound
bind_fields (f ∷ fs) bound = bound ++ (f ∷ fs) ∷ []

-- The `switch` over the level; there is no default case.
unfoldable pub severity_of : LogLevel → Option Severity
severity_of level =
    if level == level_debug
    then some debug_severity
    else if level == level_info
    then some info_severity
    else if level == level_warning
    then some warning_severity
    else if level == level_error
    then some error_severity
    else if level == level_fatal
    then some fatal_severity
    else none

abbrev write_if : List Fields → Option Severity → Fields → LogMessage → Sink → Sink
write_if bound none fields m s = s
write_if bound (some severity) fields m s = write bound severity fields m s

unfoldable pub zap_log : Bytes → LogMessage → List Fields → Sink → Sink × Fields
unfolding severity_of add_caller
zap_log caller m bound s =
    let fields = add_caller caller (some m.fields) in
    (write_if bound (severity_of m.level) fields m s, fields)

abbrev pub zap_shim : Option Error → LogShim
zap_shim sync_result = record {
  Shim = List Fields;
  State = Sink;
  with_fields = λ fields bound s. (bind_fields fields bound, s);
  log_with_fields = zap_log;
  sync = λ bound s. (s, sync_result);
}

-- `gomolLevels`. A level that is not in the map reads as the zero value of the levels of gomol.
unfoldable pub gomol_levels : Dict LogLevel Severity
gomol_levels =
    (level_debug, debug_severity)
    ∷ (level_info, info_severity)
    ∷ (level_warning, warning_severity)
    ∷ (level_error, error_severity)
    ∷ (level_fatal, fatal_severity)
    ∷ []

unfoldable pub gomol_severity : Severity → LogLevel → Severity
unfolding gomol_levels lookup
gomol_severity zero_level level = elim (lookup level gomol_levels) [
  | some severity ↦ severity
  | none ↦ zero_level
]

module _ (format_time : ℕ → Bytes) where
  -- The entry is made before the `switch`, and so the fields are normalized at every level.
  unfoldable pub logrus_log : Bytes → LogMessage → List Fields → Sink → Sink × Fields
  unfolding severity_of add_caller normalize_time_values
  logrus_log caller m bound s =
      let fields = normalize_time_values format_time (add_caller caller (some m.fields)) in
      (write_if bound (severity_of m.level) fields m s, fields)

  abbrev pub logrus_shim : LogShim
  logrus_shim = record {
    Shim = List Fields;
    State = Sink;
    with_fields =
        λ fields bound s. (bind_fields (normalize_time_values format_time fields) bound, s);
    log_with_fields = logrus_log;
    sync = λ bound s. (s, none);
  }

  unfoldable pub gomol_log : Severity → Bytes → LogMessage → List Fields → Sink → Sink × Fields
  unfolding gomol_severity add_caller normalize_time_values
  gomol_log zero_level caller m bound s =
      let fields = normalize_time_values format_time (add_caller caller (some m.fields)) in
      let written = write bound (gomol_severity zero_level m.level) fields m s in
      (record written { exited = s.exited || (m.level == level_fatal) }, fields)

  abbrev pub gomol_shim : Severity → Option Error → LogShim
  gomol_shim zero_level sync_result = record {
    Shim = List Fields;
    State = Sink;
    with_fields = λ fields bound s. (bind_fields fields bound, s);
    log_with_fields = gomol_log zero_level;
    sync = λ bound s. (s, sync_result);
  }

-- `jsonLogger`: what was written to its stream, the attributes of the base logger, `none` where
-- there is no base, and whether it is initialized.
pub record JsonLogger : Type 0 where
  pub stream : List Bytes
  pub base : Option Fields
  pub initialized : Bool

unfoldable pub new_json_logger : JsonLogger
new_json_logger = record { stream = []; base = none; initialized = false }

unfoldable pub set_base : Option Fields → JsonLogger → JsonLogger
set_base base l = record l { base = base }

unfoldable pub init_logger : JsonLogger → JsonLogger
init_logger l = record l { initialized = true }

unfoldable pub is_initialized : JsonLogger → Bool
is_initialized l = l.initialized

unfoldable pub shutdown_logger : JsonLogger → JsonLogger
shutdown_logger l = record l { initialized = false }

abbrev with_base : Option Fields → Fields
with_base none = []
with_base (some base) = copy_into base []

unfoldable pub merged_attrs : Option Fields → Fields → Bytes → Bytes → Bytes → Fields
unfolding copy_into
merged_attrs base attrs message timestamp level = insert "level" (text_value level) (
    insert "timestamp" (text_value timestamp)
      (insert "message" (text_value message) (copy_into attrs (with_base base))))

-- `Logm`; `marshal` is package json.
unfoldable pub logm :
    (Fields → Bytes ⊎ Error)
    → Bytes
    → Bytes
    → Fields
    → Bytes
    → JsonLogger
    → JsonLogger × Option Error
unfolding merged_attrs
logm marshal timestamp level attrs message l =
    elim (marshal (merged_attrs l.base attrs message timestamp level)) [
      | inl out ↦ (record l { stream = l.stream ++ (out ++ b'\n' ∷ []) ∷ [] }, none)
      | inr e ↦ (l, some e)
    ]
