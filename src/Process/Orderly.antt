-- ===== src/Process/Orderly.antt =====
-- The runner stops no HTTP server whose `Init` has not made it.
use nacelle.Prelude.{
  ℕ, ◌≤◌, ◌≡◌, refl, true, false, Option, none, some, List, arith, eqb_iff, string_comparable,
  nat_comparable, int_comparable, bytes_comparable,
}
use nacelle.Error.{Error, Outcome, Status, ok, err, panic}
use nacelle.Key.{Key}
use nacelle.Reflect.{Runtime}
use nacelle.Service.Inject.{Object}
use nacelle.Service.Defs.{ServiceContainer}
use nacelle.Runner.Registry.{ProcessRunner, get_priorities}
use nacelle.Runner.World.{World, Execution}
use nacelle.Runner.Startup.{Phase, completed, failed, hung, crashed, run}
use nacelle.Runner.Ready.{Readies, Careful, AllStarted}
use nacelle.Runner.Careful.{run-careful, run-started, watch-careful}
use nacelle.Runner.Watch.Loop.{Event, new_watch, watch}
use nacelle.Process.Http.{HttpConfig, HttpServer, Network, init, stop, make_listener}
use nacelle.Process.Hosting.{Hosted, Site, http_application, lifetime, init_run, shutdowns_lem}

module _ (R : Runtime) (site : Site (R.GoType) (R.Value)) where
  open R use {GoType, Value}

  abbrev IsMade : ℕ → World GoType Value (Hosted GoType Value) → Type 0
  IsMade id w = (w.memory.servers id).server ≡ true

  module _ (fetch : Key → Outcome HttpConfig)
      (object_init : Object GoType Value → Object GoType Value × Option Error)
      (container : ServiceContainer Value) (object : Object GoType Value) (s : HttpServer)
      (net : Network) where
    init-server :
        s.server ≡ true → (init R fetch object_init container object s net).0.0.server ≡ true
    unfolding init make_listener
    init-server h = ground arith

    init-made :
        (x : Unit {0})
        → (init R fetch object_init container object s net).1 ≡ ok x
        → (init R fetch object_init container object s net).0.0.server ≡ true
    unfolding init make_listener
    init-made x h = ground arith

  init_run-ok :
      (id d : ℕ) (r : Status)
      → (init_run R site id r).returns_at ≡ some d
      → (init_run R site id r).result ≡ none
      → (x : Unit {0}) × (r ≡ ok x)
  init_run-ok id d (ok x) returns result = (x, refl)
  init_run-ok id d (err e) returns result = cc
  init_run-ok id d (panic p) returns result = cc

  initializing-made :
      (id i : ℕ) (w : World GoType Value (Hosted GoType Value))
      → IsMade i w
      → IsMade i ((http_application R site).init id w).0
  unfolding http_application
  initializing-made id i w h = ground (
    arith,
    eqb_iff i id,
    init-server (site.fetch id) (site.object_init id) w.container (w.memory.initializers id)
        (w.memory.servers id) w.memory.net,
  )

  stopping-made :
      (id i : ℕ) (w : World GoType Value (Hosted GoType Value))
      → IsMade i w
      → IsMade i ((http_application R site).stop id w).0
  unfolding http_application stop
  stopping-made id i w h = ground (arith, eqb_iff i id)

  making-made :
      (id : ℕ) (w : World GoType Value (Hosted GoType Value)) (d : ℕ)
      → ((http_application R site).init id w).1.returns_at ≡ some d
      → ((http_application R site).init id w).1.result ≡ none
      → IsMade id ((http_application R site).init id w).0
  unfolding http_application
  making-made id w d returns result =
      let m = w.memory in
      let r =
        init R (site.fetch id) (site.object_init id) w.container (m.initializers id) (m.servers id)
          m.net in
      let (x, e) = init_run-ok id d r.1 returns result in
      ground (
        arith,
        eqb_iff id id,
        init-made (site.fetch id) (site.object_init id) w.container (w.memory.initializers id)
            (w.memory.servers id) w.memory.net x e,
      )

  readies : Readies R (http_application R site) IsMade
  readies = record {
    lasting = λ i. record {
      injecting = λ w objects h. h;
      initializing = λ id w h. initializing-made id i w h;
      stopping = λ id w h. stopping-made id i w h;
    };
    making = making-made;
  }

  careful : Careful R (http_application R site) IsMade readies (λ w. w.memory.panicked ≡ false)
  unfolding http_application stop
  careful = record {
    injecting = λ w objects h. h;
    initializing = λ id w h. h;
    stopping = λ id w made h. ground arith;
  }

  lifetime-panicked :
      (pr : ProcessRunner) (s : Execution GoType Value (Hosted GoType Value)) (events : List Event)
      → s.world.memory.panicked ≡ false
      → (lifetime R site pr s events).world.memory.panicked ≡ false
  unfolding lifetime
  lifetime-panicked pr s events h =
      ended (run R (http_application R site) pr s)
        (run-careful R (http_application R site) IsMade readies _ careful pr s h)
        (run-started R (http_application R site) IsMade readies _ careful pr s)
    where
      ended :
          (r : Execution GoType Value (Hosted GoType Value) × Phase)
          → r.0.world.memory.panicked ≡ false
          → (r.1 ≡ completed
              → AllStarted R
                  (http_application R site)
                  IsMade
                  readies
                  pr.processes
                  (get_priorities pr)
                  r.0)
          → (elim r.1 as (λ _. Execution GoType Value (Hosted GoType Value)) [
            | completed ↦
                (watch R
                  (http_application R site)
                  pr.processes
                  (get_priorities pr)
                  (new_watch r.0)
                  events).execution
            | failed e ↦ r.0
            | hung ↦ r.0
            | crashed p ↦ r.0
          ]).world.memory.panicked
            ≡ false
      ended (t, completed) h' started =
          watch-careful R (http_application R site) IsMade readies _ careful pr.processes
            (get_priorities pr) events t (started refl) h'
      ended (t, failed e) h' started = h'
      ended (t, hung) h' started = h'
      ended (t, crashed p) h' started = h'

  -- In a run of HTTP servers as the processes of the runner, whatever the configuration, the
  -- initializers and the network do, however the start ends, and whatever the watch receives: no
  -- call of `Stop` panics, since a server is stopped only after an `Init` that has made it, and a
  -- server that had not been shut down before `Run` is shut down at most once.
  pub lifetime_lem :
      (pr : ProcessRunner) (s : Execution GoType Value (Hosted GoType Value)) (events : List Event)
      (id : ℕ)
      → s.world.memory.panicked ≡ false
      → ((i : ℕ) → s.world.memory.shutdowns i ≡ 0)
      → ((lifetime R site pr s events).world.memory.panicked ≡ false)
        × ((lifetime R site pr s events).world.memory.shutdowns id ≤ 1)
  lifetime_lem pr s events id calm fresh =
      (lifetime-panicked pr s events calm, shutdowns_lem R site pr s events id fresh)
