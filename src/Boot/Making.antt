-- ===== src/Boot/Making.antt =====
-- `NewBootstrapper` of boot.go and its configuration functions.
use nacelle.Prelude.{
  String, Option, List, [], ◌∷◌, string_comparable, nat_comparable, int_comparable,
  bytes_comparable,
}
use nacelle.Error.{Error}
use nacelle.Service.Defs.{ServiceContainer}
use nacelle.Config.Registry.{EnvConfig}
use nacelle.Runner.Registry.{ProcessRunner}
use nacelle.Boot.{Bootstrapper}

-- `LoggingInitFunc`
abbrev pub LoggingInitFunc : Type 0 → Type 0 → Type 0
LoggingInitFunc GoType Value = EnvConfig GoType Value → Option Value × Option Error

-- `BoostraperConfigFunc`: the only field of `bootstrapperConfig` is the function that initializes
-- logging.
abbrev pub BootstrapperConfigFunc : Type 0 → Type 0 → Type 0
BootstrapperConfigFunc GoType Value = LoggingInitFunc GoType Value → LoggingInitFunc GoType Value

module _ {GoType Value : Type 0} where
  unfoldable pub with_logging_init_func :
      LoggingInitFunc GoType Value → BootstrapperConfigFunc GoType Value
  with_logging_init_func f _ = f

  -- The loop over the configuration functions.
  unfoldable pub configure_logging :
      List (BootstrapperConfigFunc GoType Value)
      → LoggingInitFunc GoType Value
      → LoggingInitFunc GoType Value
  configure_logging [] f = f
  configure_logging (config ∷ configs) f = configure_logging configs (config f)

  -- `init_logging` is `InitLogging`, with the conversion of its logger to a value.
  unfoldable pub new_bootstrapper :
      LoggingInitFunc GoType Value
      → String
      → (EnvConfig GoType Value → EnvConfig GoType Value × Option Error)
      → (ProcessRunner
          → ServiceContainer Value
          → (ProcessRunner × ServiceContainer Value) × Option Error)
      → List (BootstrapperConfigFunc GoType Value)
      → Bootstrapper GoType Value
  unfolding configure_logging
  new_bootstrapper init_logging name config_setup_func init_func configs = record {
    name = name;
    config_setup_func = config_setup_func;
    logging_init_func = configure_logging configs init_logging;
    init_func = init_func;
  }
