-- ===== src/Log/Shim.antt =====
-- log/shim.go: the interface of the shims, the adapter that makes a logger of one, and the shims of
-- log/replay.go and log/nil.go behind that interface.
use nacelle.Prelude.{
  ℕ, String, Option, none, some, List, [], ◌∷◌, string_comparable, nat_comparable, int_comparable,
  bytes_comparable, Bytes,
}
use nacelle.Error.{Error}
use nacelle.Log.Message.{
  LogMessage, LogLevel, Fields, add_caller, level_debug, level_info, level_warning, level_error,
  level_fatal,
}
use nacelle.Log.Replay
use nacelle.Log.Replay.{LoggerRef, ReplayState}

-- `logShim`. A shim is a reference, and what it stands for is in the state. A call that logs is given
-- what `getCaller` finds, and returns the map of fields as it is afterwards.
pub record LogShim : Type 1 where
  pub Shim : Type 0
  pub State : Type 0
  pub with_fields : Fields → Shim → State → Shim × State
  pub log_with_fields : Bytes → LogMessage → Shim → State → State × Fields
  pub sync : Shim → State → State × Option Error

-- `shimAdapter`; `none` is the nil map.
module _ (I : LogShim) where
  open I use {Shim, State}

  unfoldable pub with_fields : Fields → Shim → State → Shim × State
  with_fields [] shim s = (shim, s)
  with_fields (f ∷ fs) shim s = I.with_fields (f ∷ fs) shim s

  unfoldable pub log_with_fields :
      LogLevel → Option Fields → String → List ℕ → Bytes → Shim → State → State × Fields
  unfolding add_caller
  log_with_fields level fields format args caller =
      I.log_with_fields caller
        (record { level = level; fields = add_caller caller fields; format = format; args = args })

  unfoldable pub sync : Shim → State → State × Option Error
  sync = I.sync

  -- The methods `Debug` to `Fatal`, which differ in the level only.
  abbrev log_at : LogLevel → String → List ℕ → Bytes → Shim → State → State
  log_at level format args caller shim s =
      (I.log_with_fields caller
        (record { level = level; fields = add_caller caller none; format = format; args = args })
        shim s).0

  unfoldable pub debug : String → List ℕ → Bytes → Shim → State → State
  unfolding add_caller
  debug = log_at level_debug

  unfoldable pub info : String → List ℕ → Bytes → Shim → State → State
  unfolding add_caller
  info = log_at level_info

  unfoldable pub warning : String → List ℕ → Bytes → Shim → State → State
  unfolding add_caller
  warning = log_at level_warning

  unfoldable pub error : String → List ℕ → Bytes → Shim → State → State
  unfolding add_caller
  error = log_at level_error

  unfoldable pub fatal : String → List ℕ → Bytes → Shim → State → State
  unfolding add_caller
  fatal = log_at level_fatal

  unfoldable pub debug_with_fields :
      Option Fields → String → List ℕ → Bytes → Shim → State → State × Fields
  unfolding log_with_fields
  debug_with_fields = log_with_fields level_debug

  unfoldable pub info_with_fields :
      Option Fields → String → List ℕ → Bytes → Shim → State → State × Fields
  unfolding log_with_fields
  info_with_fields = log_with_fields level_info

  unfoldable pub warning_with_fields :
      Option Fields → String → List ℕ → Bytes → Shim → State → State × Fields
  unfolding log_with_fields
  warning_with_fields = log_with_fields level_warning

  unfoldable pub error_with_fields :
      Option Fields → String → List ℕ → Bytes → Shim → State → State × Fields
  unfolding log_with_fields
  error_with_fields = log_with_fields level_error

  unfoldable pub fatal_with_fields :
      Option Fields → String → List ℕ → Bytes → Shim → State → State × Fields
  unfolding log_with_fields
  fatal_with_fields = log_with_fields level_fatal

-- The replay shim. `sync_result` is what the wrapped logger returns.
abbrev pub replay_shim : (Fields → Fields) → Option Error → LogShim
replay_shim wrapped sync_result = record {
  Shim = LoggerRef;
  State = ReplayState;
  with_fields = λ fields logger s. (Replay.with_fields fields logger, s);
  log_with_fields = λ caller m logger s. (
    Replay.log_with_fields wrapped caller logger m s,
    wrapped (add_caller caller (some m.fields)),
  );
  sync = λ logger s. (s, sync_result);
}

abbrev pub nil_shim : LogShim
nil_shim = record {
  Shim = Unit {0};
  State = Unit {0};
  with_fields = λ fields shim s. (shim, s);
  log_with_fields = λ caller m shim s. (s, m.fields);
  sync = λ shim s. (s, none);
}
