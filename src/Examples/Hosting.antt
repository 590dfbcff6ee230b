-- ===== src/Examples/Hosting.antt =====
-- Two HTTP servers in a run.
use nacelle.Prelude.{
  ◌+◌, ◌≤◌, ◌≡◌, refl, true, false, none, some, [], ◌∷◌, lookup, insert, keys, pos,
  string_comparable, nat_comparable, int_comparable, bytes_comparable,
}
use nacelle.Error.{ok}
use nacelle.Service.Inject.{other_kind, inject}
use nacelle.Runner.Meta.{display_name, new_process_meta}
use nacelle.Runner.Registry.{ProcessRunner, get_priorities, processes_at}
use nacelle.Runner.World.{
  Execution, starts, stops, inits, injects, call_inject, call_init, call_start, call_stop, send,
}
use nacelle.Runner.Startup.{
  run, run_initializers, run_processes, inject_processes, start_priorities,
  init_and_start_processes, stop_processes_below_priority,
}
use nacelle.Runner.Watch.Loop.{signal, watch}
use nacelle.Process.Http.{new_http_server, make_listener}
use nacelle.Process.Hosting.{Hosted, Site, lifetime, http_application}
use nacelle.Process.Orderly.{lifetime_lem}
use nacelle.Examples.Toy.{ToyType, ToyValue, toy}

abbrev site : Site ToyType ToyValue
site = record {
  fetch = λ id token. ok (record {
    http_port = pos (5000 + id);
    http_cert_file = "";
    http_key_file = "";
    raw_shutdown_timeout = pos 5;
    shutdown_timeout = pos 5000000000;
  });
  object_init = λ id object. (object, none);
  returns_at = λ id. some 0;
  wins_tie = λ id. true;
  shutdown = λ id timeout. none;
}

abbrev two_servers : ProcessRunner
two_servers = record {
  initializers = [];
  processes = (pos 0, new_process_meta 1 ∷ []) ∷ (pos 3, new_process_meta 2 ∷ []) ∷ [];
  num_processes = 2;
}

abbrev before : Execution ToyType ToyValue (Hosted ToyType ToyValue)
before = record {
  world = record {
    container = record { services = [] };
    objects = λ id. other_kind;
    memory = record {
      servers = λ id. new_http_server [];
      initializers = λ id. other_kind;
      net = record { listening = []; resolve = λ port. none; listen = λ port ports. none };
      shutdowns = λ id. 0;
      panicked = false;
    };
  };
  calls = [];
  sent = [];
}

lifetime_lem_example :
    let after = lifetime toy site two_servers before (signal ∷ signal ∷ []) in
    (after.world.memory.panicked ≡ false) × (after.world.memory.shutdowns 2 ≤ 1)
lifetime_lem_example =
    lifetime_lem toy site two_servers before (signal ∷ signal ∷ []) 2 refl (λ i. refl)

-- Both servers are shut down, the later one first, and only once.
both_shut_down :
    let after = lifetime toy site two_servers before (signal ∷ signal ∷ []) in
    (after.world.memory.shutdowns 1 ≡ 1)
    × (after.world.memory.shutdowns 2 ≡ 1)
    × (after.calls
        ≡ injects 1 ∷ injects 2 ∷ inits 1 ∷ starts 1 ∷ inits 2 ∷ starts 2 ∷ stops 2 ∷ stops 1 ∷ [])
unfolding lifetime http_application run run_initializers run_processes inject_processes
    start_priorities init_and_start_processes stop_processes_below_priority get_priorities
    processes_at call_inject inject call_init call_start call_stop send keys lookup insert
    display_name watch new_http_server make_listener
both_shut_down = (refl, refl, refl)
