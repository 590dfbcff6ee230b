-- ===== src/Examples/Booting.antt =====
-- The whole program at work: a process that returns, and its end.
use nacelle.Prelude.{
  ℕ, ◌≡◌, refl, none, some, List, [], ◌∷◌, string_comparable, nat_comparable, int_comparable,
  bytes_comparable,
}
use nacelle.Error.{foreign}
use nacelle.Service.Inject.{other_kind}
use nacelle.Config.Registry.{Chunk}
use nacelle.Runner.Meta.{new_process_meta}
use nacelle.Runner.Registry.{register_process}
use nacelle.Runner.Watch.Loop.{Event, start_error, start_errors_closed, start_result}
use nacelle.Boot.{exits, Bootstrapper, Surroundings, boot}
use nacelle.Boot.Exiting.{CleanBoot, boot-CleanBoot}
use nacelle.Examples.Toy.{ToyType, ToyValue, toy, app, toy_json, environment, logger}

abbrev bootstrapper : Bootstrapper ToyType ToyValue
bootstrapper = record {
  name = "app";
  config_setup_func = λ c. (c, none);
  logging_init_func = λ c. (some logger, none);
  init_func = λ pr services. ((register_process pr 4 [], services), none);
}

abbrev empty_chunk : Chunk ToyType ToyValue
empty_chunk = record { fields = []; post_load = none }

abbrev surroundings : List Event → ℕ → Surroundings ToyType ToyValue ℕ
surroundings events received = record {
  json = toy_json;
  marshal_error = λ v. foreign 0;
  env = environment;
  self = logger;
  logging_config = empty_chunk;
  objects = λ i. other_kind;
  memory = 0;
  events = events;
  results = [];
  received = received;
}

-- The process returns without an error, or with one.
abbrev clean_events : List Event
clean_events = start_error (start_result (new_process_meta 4) none) ∷ start_errors_closed ∷ []

abbrev fatal_events : List Event
fatal_events =
    start_error (start_result (new_process_meta 4) (some (foreign 3))) ∷ start_errors_closed ∷ []

-- A clean end is status 0 and the error of a process status 1, unless `chainUntilHalt` takes the
-- closed `done` before that error.
boots :
    (boot toy app bootstrapper (surroundings clean_events 9) ≡ exits 0)
    × (boot toy app bootstrapper (surroundings fatal_events 9) ≡ exits 1)
    × (boot toy app bootstrapper (surroundings fatal_events 0) ≡ exits 0)
unfolding boot nacelle.Config.Registry.new_env_config nacelle.Key.same_key nacelle.Prelude.insert
    nacelle.Prelude.keys nacelle.Prelude.lookup nacelle.Runner.Registry.get_priorities
    nacelle.Runner.Registry.new_process_runner nacelle.Runner.Startup.init_and_start_processes
    nacelle.Runner.Startup.inject_processes nacelle.Runner.Startup.run
    nacelle.Runner.Startup.run_initializers nacelle.Runner.Startup.run_processes
    nacelle.Runner.Startup.start_priorities nacelle.Runner.Startup.stop_processes_below_priority
    nacelle.Runner.Watch.Loop.watch nacelle.Runner.World.call_init nacelle.Runner.World.call_inject
    nacelle.Runner.World.call_start nacelle.Runner.World.call_stop nacelle.Runner.World.send
    nacelle.Service.Defs.new_service_container nacelle.Service.Inject.inject register_process
    start_result
boots = (refl, refl, refl)

boot-CleanBoot_example : CleanBoot toy app bootstrapper (surroundings clean_events 9)
boot-CleanBoot_example = boot-CleanBoot toy app bootstrapper (surroundings clean_events 9) boots.0
