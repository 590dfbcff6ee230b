-- ===== src/Boot/Exiting.antt =====
-- What the exit status of the program says.
use nacelle.Prelude.{
  ◌≡◌, refl, ap, inl, inr, true, Option, none, some, List, [], ◌∷◌, arith, Bool-cases, leb, Dict,
  length, string_comparable, nat_comparable, int_comparable, bytes_comparable, Bytes,
}
use nacelle.Error.{Error, Outcome, Status, ok, err, panic, done}
use nacelle.Key.{text}
use nacelle.Reflect.{Runtime}
use nacelle.Service.Defs.{ServiceContainer, set, new_service_container}
use nacelle.Config.Registry.{EnvConfig, new_env_config, register}
use nacelle.Config.Loading.{load}
use nacelle.Config.Dumping.{to_map}
use nacelle.Runner.Registry.{ProcessRunner, new_process_runner, get_priorities}
use nacelle.Runner.World.{Application, Execution}
use nacelle.Runner.Startup.{Phase, completed, failed, hung, crashed, run}
use nacelle.Runner.Watch.Loop.{new_watch, watch, drain}
use nacelle.Boot.{
  Exit, exits, never_exits, panics, Bootstrapper, Surroundings, logging_config_token,
  chain_until_halt, status_code, count_starts, execution, watched, drained, boot_run, after_init,
  boot_dumped, boot_set, boot_logging, boot_loaded, boot_configured, boot_registered, boot,
}
use nacelle.Boot.Failing.{Reports, run-Reports, drain-grows}

module _ (R : Runtime) {Memory : Type 0} (app : Application (R.GoType) (R.Value) Memory)
    (bs : Bootstrapper (R.GoType) (R.Value)) (u : Surroundings (R.GoType) (R.Value) Memory) where
  open R use {GoType, Value}

  -- All processes start, the watch of them returns, and no error comes out of the channel.
  abbrev pub CleanRun : ProcessRunner → ServiceContainer Value → Type 0
  CleanRun pr container =
      let r = run R app pr (execution R app bs u container) in
      let w = watch R app pr.processes (get_priorities pr) (new_watch r.0) u.events in
      (r.1 ≡ completed) × (w.returned ≡ true) × (chain_until_halt u.received w.execution.sent ≡ [])

  -- The application registers its processes, and their run is clean.
  abbrev pub CleanInit : ServiceContainer Value → Type 0
  CleanInit services =
      (pr : ProcessRunner) × (container : ServiceContainer Value) × (bs.init_func new_process_runner
          services
        ≡ ((pr, container), none))
      × CleanRun pr container

  -- There is a logger, the container takes it, the configuration can be written, and the rest is
  -- clean.
  abbrev pub CleanLogging : EnvConfig GoType Value → Type 0
  CleanLogging c =
      (logger : Value) × (bs.logging_init_func c ≡ (some logger, none))
      × ((set R (new_service_container R (u.self)) (text "logger") logger).1 ≡ done)
      × ((m : Dict Bytes Bytes) × (to_map (u.json) (u.marshal_error) c ≡ ok m))
      × CleanInit (set R (new_service_container R (u.self)) (text "logger") logger).0

  -- The application registers its configurations, all of them load, and the rest is clean.
  abbrev pub CleanBoot : Type 0
  CleanBoot =
      (c : EnvConfig GoType Value) × (bs.config_setup_func
          (register (new_env_config bs.name) logging_config_token u.logging_config).0
        ≡ (c, none))
      × ((load (u.json) (u.env) c).1 ≡ [])
      × CleanLogging (load (u.json) (u.env) c).0

  no_errors : (es : List Error) → exits (status_code es) ≡ exits 0 → es ≡ []
  unfolding status_code
  no_errors [] h = refl
  no_errors (e ∷ es) h = cc

  drained_lem :
      (s : Execution GoType Value Memory)
      → drained R app bs u s ≡ exits 0
      → exits (status_code (drain R u.results s).sent) ≡ exits 0
  drained_lem s h = elim (Bool-cases (leb (count_starts s.calls) (length u.results))) [
    | inl over ↦ ground (arith, h)
    | inr waiting ↦ absurd (ground (arith, h))
  ]

  boot_run_lem :
      (pr : ProcessRunner) (container : ServiceContainer Value)
      → boot_run R app bs u pr container ≡ exits 0
      → CleanRun pr container
  unfolding boot_run status_code
  boot_run_lem pr container =
      go (run R app pr (execution R app bs u container))
        (run-Reports R app pr (execution R app bs u container))
    where
      go :
          (r : Execution GoType Value Memory × Phase)
          → Reports R app r
          → (elim r.1 as (λ _. Exit) [
            | completed ↦
                watched R app bs u
                  (watch R app pr.processes (get_priorities pr) (new_watch r.0) u.events)
            | failed e ↦ drained R app bs u r.0
            | hung ↦ never_exits
            | crashed p ↦ panics p
          ])
            ≡ exits 0
          → (r.1 ≡ completed)
            × ((watch R app pr.processes (get_priorities pr) (new_watch r.0) u.events).returned
                ≡ true)
            × (chain_until_halt u.received
                  (watch R app pr.processes
                    (get_priorities pr)
                    (new_watch r.0)
                    u.events).execution.sent
                ≡ [])
      go (s, completed) reports h =
          let w = watch R app pr.processes (get_priorities pr) (new_watch s) u.events in
          let returned : w.returned ≡ true = ground arith in
          (refl, returned, no_errors (chain_until_halt u.received w.execution.sent) (ground arith))
      go (s, failed e) reports h = absurd (
          omega (
            arith,
            reports e refl,
            drain-grows R app u.results s,
            ap length (no_errors (drain R u.results s).sent (drained_lem s h)),
          ))
      go (s, hung) reports h = cc
      go (s, crashed p) reports h = cc

  after_init_lem :
      (x : (ProcessRunner × ServiceContainer Value) × Option Error)
      → after_init R app bs u x ≡ exits 0
      → (pr : ProcessRunner) × (container : ServiceContainer Value) × (x ≡ ((pr, container), none))
        × CleanRun pr container
  after_init_lem ((pr, container), none) h = (pr, container, refl, boot_run_lem pr container h)
  after_init_lem ((pr, container), some e) h = cc

  boot_dumped_lem :
      (services : ServiceContainer Value) (r : Outcome (Dict Bytes Bytes))
      → boot_dumped R app bs u services r ≡ exits 0
      → ((m : Dict Bytes Bytes) × (r ≡ ok m)) × CleanInit services
  boot_dumped_lem services (ok m) h =
      ((m, refl), after_init_lem (bs.init_func new_process_runner services) h)
  boot_dumped_lem services (err e) h = cc
  boot_dumped_lem services (panic p) h = cc

  boot_set_lem :
      (c : EnvConfig GoType Value) (x : ServiceContainer Value × Status)
      → boot_set R app bs u c x ≡ exits 0
      → (x.1 ≡ done)
        × ((m : Dict Bytes Bytes) × (to_map (u.json) (u.marshal_error) c ≡ ok m))
        × CleanInit x.0
  boot_set_lem c (services, ok _) h =
      let (written, rest) = boot_dumped_lem services (to_map (u.json) (u.marshal_error) c) h in
      (refl, written, rest)
  boot_set_lem c (services, err e) h = cc
  boot_set_lem c (services, panic p) h = cc

  boot_logging_lem :
      (c : EnvConfig GoType Value) (x : Option Value × Option Error)
      → boot_logging R app bs u c x ≡ exits 0
      → (logger : Value) × (x ≡ (some logger, none))
        × ((set R (new_service_container R (u.self)) (text "logger") logger).1 ≡ done)
        × ((m : Dict Bytes Bytes) × (to_map (u.json) (u.marshal_error) c ≡ ok m))
        × CleanInit (set R (new_service_container R (u.self)) (text "logger") logger).0
  boot_logging_lem c (some logger, none) h =
      let services = set R (new_service_container R (u.self)) (text "logger") logger in
      let (registered, written, rest) = boot_set_lem c services h in
      (logger, refl, registered, written, rest)
  boot_logging_lem c (none, none) h = cc
  boot_logging_lem c (l, some e) h = cc

  boot_loaded_lem :
      (x : EnvConfig GoType Value × List Error)
      → boot_loaded R app bs u x ≡ exits 0
      → (x.1 ≡ []) × CleanLogging x.0
  boot_loaded_lem (c, []) h = (refl, boot_logging_lem c (bs.logging_init_func c) h)
  boot_loaded_lem (c, e ∷ es) h = cc

  boot_configured_lem :
      (x : EnvConfig GoType Value × Option Error)
      → boot_configured R app bs u x ≡ exits 0
      → (c : EnvConfig GoType Value) × (x ≡ (c, none))
        × ((load (u.json) (u.env) c).1 ≡ [])
        × CleanLogging (load (u.json) (u.env) c).0
  boot_configured_lem (c, none) h =
      let (loaded, rest) = boot_loaded_lem (load (u.json) (u.env) c) h in (c, refl, loaded, rest)
  boot_configured_lem (c, some e) h = cc

  boot_registered_lem :
      (x : EnvConfig GoType Value × Status)
      → boot_registered R app bs u x ≡ exits 0
      → (c : EnvConfig GoType Value) × (bs.config_setup_func x.0 ≡ (c, none))
        × ((load (u.json) (u.env) c).1 ≡ [])
        × CleanLogging (load (u.json) (u.env) c).0
  boot_registered_lem (c, ok _) h = boot_configured_lem (bs.config_setup_func c) h
  boot_registered_lem (c, err e) h = cc
  boot_registered_lem (c, panic p) h = cc

  -- If `Boot` exits with status 0, then every step of it has succeeded: the application registered
  -- its configurations, each of them was loaded without an error, a logger was made and registered,
  -- the configuration was written, the application registered its processes, all of them started,
  -- their watch returned, and no error came out of the channel of `Run`.
  pub boot-CleanBoot : boot R app bs u ≡ exits 0 → CleanBoot
  unfolding boot
  boot-CleanBoot h =
      boot_registered_lem (register (new_env_config bs.name) logging_config_token u.logging_config)
        h
