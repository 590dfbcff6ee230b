-- ===== src/Log/Chosen.antt =====
-- `InitLogging` of logging.go with the backends of the library: the logger that it returns.
use nacelle.Prelude.{
  ℕ, ◌≡◌, ◌⊎◌, Bool, true, false, ◌&&◌, Option, none, some, List, [], ◌∷◌, ◌++◌, map,
  string_comparable, nat_comparable, int_comparable, bytes_comparable, ◌==◌, Bytes, codes,
}
use nacelle.Error.{Error}
use nacelle.Log.Message.{Fields, normalize_time_values}
use nacelle.Log.Backends.{bind_fields}
use nacelle.Log.Settings.{LogConfig}
use nacelle.Log.Setup.{
  Libraries, Logger, GomolState, Formatter, zap_logger, logrus_logger, gomol_logger, text_formatter,
  json_formatter, console_logger, json_logger, capital_color, template_text, LevelEncoder, capital,
  lowercase, GomolLogger,
}

abbrev formatter_encoding : Formatter → Bytes
formatter_encoding (text_formatter t colors) = codes "console"
formatter_encoding (json_formatter t a b c) = codes "json"

abbrev gomol_encoding : GomolLogger → Bytes
gomol_encoding (console_logger template) = codes "console"
gomol_encoding json_logger = codes "json"

abbrev is_capital_color : LevelEncoder → Bool
is_capital_color capital_color = true
is_capital_color capital = false
is_capital_color lowercase = false

abbrev formatter_colors : Formatter → Bool
formatter_colors (text_formatter t colors) = colors
formatter_colors (json_formatter t a b c) = false

abbrev gomol_colors : GomolLogger → Bool
gomol_colors (console_logger template) = template == template_text
gomol_colors json_logger = false

abbrev gomol_writer : GomolLogger → Bytes × Bool
gomol_writer g = (gomol_encoding g, gomol_colors g)

-- What a logger writes to: the encodings, and whether it uses colors.
abbrev pub writers : {Level : Type 0} → Logger Level → List (Bytes × Bool)
writers (zap_logger c bound) = (c.encoding, is_capital_color c.level_encoder) ∷ []
writers (logrus_logger level f bound) = (formatter_encoding f, formatter_colors f) ∷ []
writers (gomol_logger g bound) = map gomol_writer g.loggers

-- Those that the shared state of gomol had before.
abbrev pub earlier_writers :
    {Level : Type 0} → GomolState Level → Logger Level → List (Bytes × Bool)
earlier_writers g (zap_logger c bound) = []
earlier_writers g (logrus_logger level f bound) = []
earlier_writers g (gomol_logger h bound) = map gomol_writer g.loggers

-- The fields that a logger adds to each of its messages.
abbrev pub bound_fields : {Level : Type 0} → Logger Level → List Fields
bound_fields (zap_logger c bound) = bound
bound_fields (logrus_logger level f bound) = bound
bound_fields (gomol_logger g bound) = bound

-- Initial fields as the logger has them: logrus has times as texts.
abbrev pub as_bound : {Level : Type 0} → (ℕ → Bytes) → Logger Level → Fields → Fields
as_bound format_time (zap_logger c bound) fields = fields
as_bound format_time (logrus_logger level f bound) fields = normalize_time_values format_time fields
as_bound format_time (gomol_logger g bound) fields = fields

-- Either a logger and no error, where the logger writes as the configuration says, or an error and no
-- logger.
abbrev pub SetUp :
    {Level : Type 0}
    → (ℕ → Bytes)
    → GomolState Level
    → LogConfig
    → Option (Logger Level) × Option Error
    → Type 0
SetUp {Level} format_time g c result =
    ((logger : Logger Level) × (result ≡ (some logger, none))
      × (writers logger
          ≡ earlier_writers g logger
            ++ (c.log_encoding, (c.log_encoding == codes "console") && c.log_colorize) ∷ [])
      × (bound_fields logger ≡ bind_fields (as_bound format_time logger c.log_initial_fields) []))
    ⊎ ((e : Error) × (result ≡ (none, some e)))

module _ {Level : Type 0} (L : Libraries Level) (format_time : ℕ → Bytes) (g : GomolState Level)
    (c : LogConfig) where
  abbrev IsEncoding : Type 0
  IsEncoding = (c.log_encoding ≡ codes "console") ⊎ (c.log_encoding ≡ codes "json")
