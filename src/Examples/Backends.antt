-- ===== src/Examples/Backends.antt =====
-- The backends of logging at work.
use nacelle.Prelude.{
  ◌≡◌, refl, inl, false, none, List, [], ◌∷◌, arith, lookup, string_comparable, nat_comparable,
  int_comparable, bytes_comparable, Bytes, codes,
}
use nacelle.Log.Message.{LogMessage, Fields, user_value, time_value, level_info, level_fatal}
use nacelle.Log.Backends.{Sink, debug_severity, zap_shim, logrus_shim, gomol_shim}
use nacelle.Error.{Error}
use nacelle.Log.Settings.{LogConfig}
use nacelle.Log.Setup.{Libraries}
use nacelle.Log.Callers.{LogCall, Named, log_all, log_all-first_caller}

abbrev fatal_message : LogMessage
fatal_message = record {
  level = level_fatal;
  fields = ("at", time_value 5) ∷ [];
  format = "failed after %d";
  args = 3 ∷ [];
}

abbrev log_call : Bytes → LogCall
log_call caller = record { level = level_info; format = "x"; args = []; caller = caller }

abbrev two_calls : List LogCall
two_calls = log_call (codes "a.go:1") ∷ log_call (codes "b.go:2") ∷ []

abbrev shared_fields : Fields
shared_fields = ("user", user_value 1) ∷ []

abbrev quiet : Sink
quiet = record { entries = []; exited = false }

no_caller : lookup "caller" shared_fields ≡ none
unfolding lookup
no_caller = refl

log_all-first_caller_example :
    Named
      (codes "a.go:1")
      two_calls
      quiet
      (log_all (zap_shim none) two_calls shared_fields [] quiet).0
    × Named
        (codes "a.go:1")
        two_calls
        quiet
        (log_all (logrus_shim (λ t. t ∷ [])) two_calls shared_fields [] quiet).0
    × Named
        (codes "a.go:1")
        two_calls
        quiet
        (log_all (gomol_shim (λ t. t ∷ []) debug_severity none) two_calls shared_fields [] quiet).0
log_all-first_caller_example =
    log_all-first_caller (λ t. t ∷ []) debug_severity none (log_call (codes "a.go:1"))
      (log_call (codes "b.go:2") ∷ []) shared_fields [] quiet
      ((3, omega arith, refl), ((3, omega arith, refl), tt)) no_caller

-- Packages that know every level.
abbrev libraries : Libraries Bytes
libraries = record {
  unmarshal_text = inl;
  build = λ c. none;
  parse_level = inl;
  to_log_level = λ l. l;
  new_console_logger = none;
  new_template = λ t. none;
  init_loggers = λ g. none;
}

abbrev plain_console : LogConfig
plain_console = record {
  log_backend = codes "gomol";
  log_level = codes "INFO";
  log_encoding = codes "console";
  log_colorize = false;
  log_initial_fields = [];
}
