-- ===== src/Log/Setup.antt =====
-- `InitZapShim`, `InitLogrusShim` and `InitGomolShim` of log/zap.go, log/logrus.go and
-- log/gomol.go: how the third-party loggers are set up for a configuration. Texts are lists of
-- characters.
use nacelle.Prelude.{
  ℕ, zero, suc, ◌⊎◌, inl, inr, Bool, true, false, not, ◌&&◌, Option, none, some, List, [], ◌∷◌,
  ◌++◌, eqb, if◌then◌else◌, string_comparable, nat_comparable, int_comparable, bytes_comparable,
  ◌==◌, Bytes, codes,
}
use nacelle.Error.{Error}
use nacelle.Log.Message.{Fields, normalize_time_values}
use nacelle.Log.Settings.{LogConfig, Backend}
use nacelle.Log.Backends.{bind_fields}

pub data LevelEncoder : Type 0 where
  capital_color capital lowercase : LevelEncoder

pub data TimeFormat : Type 0 where
  console_time_format json_time_format : TimeFormat

-- The fields of `zap.Config` that depend on the configuration, and the keys.
pub record ZapConfig (Level : Type 0) : Type 0 where
  pub level : Level
  pub encoding : Bytes
  pub level_encoder : LevelEncoder
  pub time_encoder : TimeFormat
  pub time_key : Bytes
  pub level_key : Bytes
  pub message_key : Bytes
  pub caller_key : Bytes

-- The formatters of logrus: text with colors or without, or JSON with its keys for time, level and
-- message.
pub data Formatter : Type 0 where
  text_formatter : TimeFormat → Bool → Formatter
  json_formatter : TimeFormat → Bytes → Bytes → Bytes → Formatter

-- The loggers that gomol is given: one for the console, with its template, or that of
-- log/gomol_json.go.
pub data GomolLogger : Type 0 where
  console_logger : Bytes → GomolLogger
  json_logger : GomolLogger

-- The package-wide state of gomol.
pub record GomolState (Level : Type 0) : Type 0 where
  pub level : Option Level
  pub loggers : List GomolLogger

-- The third-party packages. gomol makes a level of every text, and the error is dropped.
pub record Libraries (Level : Type 0) : Type 0 where
  pub unmarshal_text : Bytes → Level ⊎ Error
  pub build : ZapConfig Level → Option Error
  pub parse_level : Bytes → Level ⊎ Error
  pub to_log_level : Bytes → Level
  pub new_console_logger : Option Error
  pub new_template : Bytes → Option Error
  pub init_loggers : GomolState Level → Option Error

-- A logger with the initial fields that its shim has.
pub data Logger (Level : Type 0) : Type 0 where
  zap_logger : ZapConfig Level → List Fields → Logger Level
  logrus_logger : Level → Formatter → List Fields → Logger Level
  gomol_logger : GomolState Level → List Fields → Logger Level

-- Does a text start so?
abbrev starts_with : Bytes → Bytes → Bool
starts_with [] s = true
starts_with (p ∷ ps) [] = false
starts_with (p ∷ ps) (b ∷ s) = eqb p b && starts_with ps s

-- `removeColor`, which replaces `{{color}}` and `{{reset}}`, of nine characters each, by nothing.
-- The number counts the characters of a replaced text that are still to be left out.
unfoldable pub remove_from : ℕ → Bytes → Bytes
remove_from n [] = []
remove_from (suc n) (b ∷ s) = remove_from n s
remove_from zero (b ∷ s) =
    let removed = remove_from 8 s in
    let kept = remove_from 0 s in
    if starts_with (codes "{{color}}") (b ∷ s)
    then removed
    else if starts_with (codes "{{reset}}") (b ∷ s)
    then removed
    else b ∷ kept

unfoldable pub remove_color : Bytes → Bytes
unfolding remove_from
remove_color text = remove_from 0 text

-- The text of the template in `newGomolConsoleTemplate`.
abbrev pub template_text : Bytes
template_text =
    codes "[{{.Timestamp.Format \"2006-01-02 15:04:05.000\"}}] "
    ++ codes "{{color}}{{printf \"%5s\" (ucase .LevelName)}}{{reset}} "
    ++ codes "{{.Message}}"
    ++ codes
        "{{if .Attrs}}{{range $key, $val := .Attrs}} {{color}}{{$key}}{{reset}}={{$val}}{{end}}{{end}}"

unfoldable pub console_template : Bool → Bytes
unfolding remove_color
console_template color = if not color then remove_color template_text else template_text

module _ {Level : Type 0} (L : Libraries Level) where
  abbrev pub zap_config : Level → LogConfig → ZapConfig Level
  zap_config level c =
      let is_console = c.log_encoding == codes "console" in
      record {
        level = level;
        encoding = c.log_encoding;
        level_encoder =
            if is_console then (if c.log_colorize then capital_color else capital) else lowercase;
        time_encoder = if is_console then console_time_format else json_time_format;
        time_key = codes "timestamp";
        level_key = codes "level";
        message_key = codes "message";
        caller_key = codes "caller";
      }

  unfoldable pub init_zap_shim : Backend (Logger Level)
  unfolding bind_fields
  init_zap_shim c = elim (L.unmarshal_text c.log_level) [
    | inr e ↦ (none, some e)
    | inl level ↦ elim (L.build (zap_config level c)) [
      | some e ↦ (none, some e)
      | none ↦ (some (zap_logger (zap_config level c) (bind_fields c.log_initial_fields [])), none)
    ]
  ]

  abbrev pub formatter : LogConfig → Formatter
  formatter c =
      if c.log_encoding == codes "console"
      then text_formatter console_time_format c.log_colorize
      else json_formatter json_time_format (codes "timestamp") (codes "level") (codes "message")

  -- `format_time` is the formatting of package time, for the times among the initial fields.
  unfoldable pub init_logrus_shim : (ℕ → Bytes) → Backend (Logger Level)
  unfolding bind_fields normalize_time_values
  init_logrus_shim format_time c = elim (L.parse_level c.log_level) [
    | inr e ↦ (none, some e)
    | inl level ↦ (
      some (
          logrus_logger level (formatter c)
            (bind_fields (normalize_time_values format_time c.log_initial_fields) [])),
      none,
    )
  ]

  -- `emergencyLogger` of logging.go; the error is dropped.
  unfoldable pub emergency_logger : (ℕ → Bytes) → Option (Logger Level)
  unfolding init_logrus_shim
  emergency_logger format_time =
      (init_logrus_shim format_time (record {
        log_backend = [];
        log_level = codes "DEBUG";
        log_encoding = codes "json";
        log_colorize = false;
        log_initial_fields = [];
      })).0

  -- The part of `InitGomolShim` behind the loggers, with those in the state.
  abbrev pub finish_gomol :
      LogConfig → GomolState Level → GomolState Level × (Option (Logger Level) × Option Error)
  finish_gomol c g = elim (L.init_loggers g) [
    | some e ↦ (g, (none, some e))
    | none ↦ (g, (some (gomol_logger g (bind_fields c.log_initial_fields [])), none))
  ]

  abbrev pub add_logger : GomolLogger → GomolState Level → GomolState Level
  add_logger logger g = record g { loggers = g.loggers ++ logger ∷ [] }

  unfoldable pub init_gomol_shim :
      LogConfig → GomolState Level → GomolState Level × (Option (Logger Level) × Option Error)
  unfolding bind_fields console_template
  init_gomol_shim c g =
      let g' : GomolState Level = record g { level = some (L.to_log_level c.log_level) } in
      if c.log_encoding == codes "console"
      then elim L.new_console_logger [
        | some e ↦ (g', (none, some e))
        | none ↦ elim (L.new_template (console_template c.log_colorize)) [
          | some e ↦ (g', (none, some e))
          | none ↦ finish_gomol c (add_logger (console_logger (console_template c.log_colorize)) g')
        ]
      ]
      else finish_gomol c (add_logger json_logger g')
