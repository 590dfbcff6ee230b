-- ===== src/Boot.antt =====
-- boot.go: `Boot` puts the other parts together and turns their results into the exit status.
pub mod Failing
pub mod Exiting
pub mod Making
use nacelle.Prelude.{
  ℕ, zero, suc, leb, length, String, Option, none, some, List, [], ◌∷◌, Dict, if◌then◌else◌,
  string_comparable, nat_comparable, int_comparable, bytes_comparable, Bytes,
}
use nacelle.Error.{Error, Panic, Outcome, Status, ok, err, panic, nil_dereference}
use nacelle.Key.{Key, text, named}
use nacelle.Reflect.{Runtime}
use nacelle.Service.Defs.{ServiceContainer, set, new_service_container}
use nacelle.Service.Inject.{Object}
use nacelle.Config.Registry.{Chunk, EnvConfig, new_env_config, register}
use nacelle.Config.Json.{Json}
use nacelle.Config.Loading.{Environment, load}
use nacelle.Config.Dumping.{to_map}
use nacelle.Runner.Registry.{ProcessRunner, new_process_runner, get_priorities}
use nacelle.Runner.World.{Application, Call, starts, Execution}
use nacelle.Runner.Startup.{completed, failed, hung, crashed, run}
use nacelle.Runner.Watch.Loop.{ErrMeta, Event, Watch, new_watch, watch, drain}

-- How the program ends.
pub data Exit : Type 0 where
  exits : ℕ → Exit
  never_exits : Exit
  panics : Panic → Exit

-- `Bootstrapper`: the functions of the application. A logger is a value, `none` for nil.
pub record Bootstrapper (GoType Value : Type 0) : Type 0 where
  pub name : String
  pub config_setup_func : EnvConfig GoType Value → EnvConfig GoType Value × Option Error
  pub logging_init_func : EnvConfig GoType Value → Option Value × Option Error
  pub init_func :
      ProcessRunner
      → ServiceContainer Value
      → (ProcessRunner × ServiceContainer Value) × Option Error

-- What the program meets: package json, the environment, the container's pointer to itself, the
-- registered logging configuration, the objects and the memory of the application, what the watch
-- receives, the results of the started processes that return when another one fails to start (nothing
-- where none was started), and how many errors `chainUntilHalt` receives before its `select` takes the closed `done`.
pub record Surroundings (GoType Value Memory : Type 0) : Type 0 where
  pub json : Json GoType Value
  pub marshal_error : Value → Error
  pub env : Environment
  pub self : Value
  pub logging_config : Chunk GoType Value
  pub objects : ℕ → Object GoType Value
  pub memory : Memory
  pub events : List Event
  pub results : List ErrMeta
  pub received : ℕ

abbrev logging_config_token : Key
logging_config_token = named "loggingConfigToken" "nacelle-logging"

-- `chainUntilHalt`: what comes out of the channel that `Run` returns; the rest is dropped.
unfoldable pub chain_until_halt : ℕ → List Error → List Error
chain_until_halt zero es = []
chain_until_halt (suc n) [] = []
chain_until_halt (suc n) (e ∷ es) = e ∷ chain_until_halt n es

-- The loop over the errors of the run.
unfoldable pub status_code : List Error → ℕ
status_code [] = 0
status_code (e ∷ es) = 1

-- The counter of the wait group: how many processes were started.
abbrev pub count_starts : List Call → ℕ
count_starts [] = 0
count_starts (starts id ∷ calls) = suc (count_starts calls)
count_starts (_ ∷ calls) = count_starts calls

module _ (R : Runtime) {Memory : Type 0} (app : Application (R.GoType) (R.Value) Memory)
    (bs : Bootstrapper (R.GoType) (R.Value)) (u : Surroundings (R.GoType) (R.Value) Memory) where
  open R use {GoType, Value}

  abbrev pub execution : ServiceContainer Value → Execution GoType Value Memory
  execution container = record {
    world = record { container = container; objects = u.objects; memory = u.memory };
    calls = [];
    sent = [];
  }

  -- A watch that does not return leaves the channel of errors open.
  abbrev pub watched : Watch GoType Value Memory → Exit
  watched w =
      if w.returned
      then exits (status_code (chain_until_halt u.received w.execution.sent))
      else never_exits

  -- The channel of errors of a failed start is closed when every process that had started has
  -- returned (`closeAfterWait`): `u.results` has the results of those that return.
  abbrev pub drained : Execution GoType Value Memory → Exit
  drained s =
      if leb (count_starts s.calls) (length u.results)
      then exits (status_code (drain R u.results s).sent)
      else never_exits

  unfoldable pub boot_run : ProcessRunner → ServiceContainer Value → Exit
  unfolding chain_until_halt status_code
  boot_run pr container =
      let r = run R app pr (execution container) in
      elim r.1 [
        | completed ↦
            watched (watch R app pr.processes (get_priorities pr) (new_watch r.0) u.events)
        | failed e ↦ drained r.0
        | hung ↦ never_exits
        | crashed p ↦ panics p
      ]

  abbrev pub after_init : (ProcessRunner × ServiceContainer Value) × Option Error → Exit
  after_init ((pr, container), none) = boot_run pr container
  after_init ((pr, container), some e) = exits 1

  -- From `config.ToMap` on.
  abbrev pub boot_dumped : ServiceContainer Value → Outcome (Dict Bytes Bytes) → Exit
  boot_dumped container (err e) = exits 1
  boot_dumped container (panic p) = panics p
  boot_dumped container (ok m) = after_init (bs.init_func new_process_runner container)

  abbrev pub boot_set : EnvConfig GoType Value → ServiceContainer Value × Status → Exit
  boot_set c (container, err e) = exits 1
  boot_set c (container, panic p) = panics p
  boot_set c (container, ok _) = boot_dumped container (to_map (u.json) (u.marshal_error) c)

  abbrev pub boot_logging : EnvConfig GoType Value → Option Value × Option Error → Exit
  boot_logging c (l, some e) = exits 1
  boot_logging c (none, none) = panics nil_dereference
  boot_logging c (some logger, none) =
      boot_set c (set R (new_service_container R (u.self)) (text "logger") logger)

  abbrev pub boot_loaded : EnvConfig GoType Value × List Error → Exit
  boot_loaded (c, []) = boot_logging c (bs.logging_init_func c)
  boot_loaded (c, e ∷ es) = exits 1

  abbrev pub boot_configured : EnvConfig GoType Value × Option Error → Exit
  boot_configured (c, none) = boot_loaded (load (u.json) (u.env) c)
  boot_configured (c, some e) = exits 1

  abbrev pub boot_registered : EnvConfig GoType Value × Status → Exit
  boot_registered (c, ok _) = boot_configured (bs.config_setup_func c)
  boot_registered (c, err e) = exits 1
  boot_registered (c, panic p) = panics p

  unfoldable pub boot : Exit
  unfolding boot_run load to_map set register
  boot = boot_registered (register (new_env_config bs.name) logging_config_token u.logging_config)
