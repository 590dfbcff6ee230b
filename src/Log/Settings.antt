-- ===== src/Log/Settings.antt =====
-- log/config.go, and `InitLogging` of logging.go, which chooses the backend.
use nacelle.Prelude.{
  Bool, true, false, not, ◌||◌, Option, none, some, List, [], ◌∷◌, map, if◌then◌else◌,
  string_comparable, nat_comparable, int_comparable, bytes_comparable, ◌==◌, Bytes, codes, lower,
}
use nacelle.Error.{
  Error, Outcome, ok, err, panic, bad_logging_config, illegal_log_backend, illegal_log_level,
  illegal_log_encoding,
}
use nacelle.Log.Message.{Fields}

-- `Config`; texts are lists of characters.
pub record LogConfig : Type 0 where
  pub log_backend : Bytes
  pub log_level : Bytes
  pub log_encoding : Bytes
  pub log_colorize : Bool
  pub log_initial_fields : Fields

-- The loop of `isLegalBackend` and `isLegalLevel`.
unfoldable pub whitelisted : Bytes → List Bytes → Bool
whitelisted text [] = false
whitelisted text (t ∷ ts) = if text == t then true else whitelisted text ts

unfoldable pub is_legal_backend : Bytes → Bool
unfolding whitelisted
is_legal_backend backend = whitelisted backend (codes "gomol" ∷ codes "logrus" ∷ codes "zap" ∷ [])

unfoldable pub is_legal_level : Bytes → Bool
unfolding whitelisted
is_legal_level level =
    whitelisted level
      (codes "debug" ∷ codes "info" ∷ codes "warning" ∷ codes "error" ∷ codes "fatal" ∷ [])

unfoldable pub is_legal_encoding : Bytes → Bool
is_legal_encoding encoding = (encoding == codes "console") || (encoding == codes "json")

unfoldable pub post_load : LogConfig → LogConfig × Option Error
unfolding is_legal_backend is_legal_level is_legal_encoding
post_load c =
    let c' : LogConfig = record c { log_level = map lower c.log_level } in
    if not (is_legal_backend c'.log_backend)
    then (c', some illegal_log_backend)
    else if not (is_legal_level c'.log_level)
    then (c', some illegal_log_level)
    else if not (is_legal_encoding c'.log_encoding)
    then (c', some illegal_log_encoding)
    else (c', none)

-- What the constructor of a backend returns: the logger, `none` for nil, and the error.
abbrev pub Backend : Type 0 → Type 0
Backend Logger = LogConfig → Option Logger × Option Error

-- `InitLogging`. `fetched` is what `Fetch` makes of a new configuration. Where no case of the switch
-- applies, both results are nil. A panic in `Fetch` ends the function, which returns nothing.
unfoldable pub init_logging :
    {Logger : Type 0}
    → Backend Logger
    → Backend Logger
    → Backend Logger
    → Outcome LogConfig
    → Outcome (Option Logger × Option Error)
init_logging gomol logrus zap fetched = elim fetched [
  | err _ ↦ ok (none, some bad_logging_config)
  | panic p ↦ panic p
  | ok c ↦ ok (
      if c.log_backend == codes "gomol"
      then gomol c
      else if c.log_backend == codes "logrus"
      then logrus c
      else if c.log_backend == codes "zap"
      then zap c
      else (none, none))
]
