-- ===== src/Process/Hosting.antt =====
-- The HTTP servers of process/http.go as processes of the runner of runner.go.
use nacelle.Prelude.{
  ℕ, ◌+◌, ◌≤◌, ◌≡◌, ◌⊎◌, inl, inr, Bool, true, false, Option, none, some, List, arith, eqb, eqb_iff,
  if◌then◌else◌, ℤ, string_comparable, nat_comparable, int_comparable, bytes_comparable,
}
use nacelle.Error.{Error, Outcome, Status, ok, err, panic}
use nacelle.Key.{Key}
use nacelle.Reflect.{Runtime}
use nacelle.Service.Inject.{Object}
use nacelle.Runner.Registry.{ProcessRunner, get_priorities}
use nacelle.Runner.World.{World, Application, Execution, InitRun}
use nacelle.Runner.Startup.{Phase, completed, failed, hung, crashed, run}
use nacelle.Runner.Keeping.{Keeps, run-keeps}
use nacelle.Runner.Watch.Loop.{Event, new_watch, watch}
use nacelle.Runner.Watch.Lasting.{watch-keeps}
use nacelle.Process.Http.{HttpConfig, HttpServer, Network, init, stop, make_listener}

-- What the processes of an application that serves HTTP share: the servers and their initializers
-- by the address of the process, the network, how often `Shutdown` of a server was called, and
-- whether a `Stop` panicked.
pub record Hosted (GoType Value : Type 0) : Type 0 where
  pub servers : ℕ → HttpServer
  pub initializers : ℕ → Object GoType Value
  pub net : Network
  pub shutdowns : ℕ → ℕ
  pub panicked : Bool

-- What the processes meet: the configuration of each, its initializer's `Init`, how long `Init`
-- takes, and what `Shutdown` returns.
pub record Site (GoType Value : Type 0) : Type 0 where
  pub fetch : ℕ → Key → Outcome HttpConfig
  pub object_init : ℕ → Object GoType Value → Object GoType Value × Option Error
  pub returns_at : ℕ → Option ℕ
  pub wins_tie : ℕ → Bool
  pub shutdown : ℕ → ℤ → Option Error

-- `f` with another value at one address.
abbrev pub update {ℓ} : {A : Type ℓ} → ℕ → A → (ℕ → A) → ℕ → A
update id a f i = if eqb i id then a else f i

module _ (R : Runtime) (site : Site (R.GoType) (R.Value)) where
  open R use {GoType, Value}

  -- A call of `Init` that panics does not return to the runner.
  abbrev pub init_run : ℕ → Status → InitRun
  init_run id (ok _) = record {
    returns_at = site.returns_at id;
    result = none;
    wins_tie = site.wins_tie id;
  }
  init_run id (err e) = record {
    returns_at = site.returns_at id;
    result = some e;
    wins_tie = site.wins_tie id;
  }
  init_run id (panic p) = record { returns_at = none; result = none; wins_tie = false }

  abbrev pub init_hosted :
      ℕ
      → World GoType Value (Hosted GoType Value)
      → World GoType Value (Hosted GoType Value) × InitRun
  init_hosted id w =
      let m = w.memory in
      let ((s, object, net), r) =
        init R (site.fetch id) (site.object_init id) w.container (m.initializers id) (m.servers id)
          m.net in
      (
        record w {
          memory = record m {
            servers = update id s m.servers;
            initializers = update id object m.initializers;
            net = net;
          };
        },
        init_run id r,
      )

  -- `Shutdown` of a server, which is counted.
  abbrev pub shutdown_hosted : ℕ → ℤ → (ℕ → ℕ) → (ℕ → ℕ) × Option Error
  shutdown_hosted id timeout shutdowns =
      (update id (shutdowns id + 1) shutdowns, site.shutdown id timeout)

  abbrev pub stop_hosted :
      ℕ → Hosted GoType Value → (HttpServer × (ℕ → ℕ)) × Status → Hosted GoType Value × Option Error
  stop_hosted id m ((s, shutdowns), r) =
      let m' : Hosted GoType Value = record m {
        servers = update id s m.servers;
        shutdowns = shutdowns;
      } in
      elim r [
        | ok _ ↦ (m', none)
        | err e ↦ (m', some e)
        | panic p ↦ (record m' { panicked = true }, none)
      ]

  -- The application whose processes are HTTP servers.
  unfoldable pub http_application : Application GoType Value (Hosted GoType Value)
  unfolding init stop
  http_application = record {
    init = init_hosted;
    stop = λ id w.
        let (m, e) =
          stop_hosted id w.memory
            (stop (shutdown_hosted id) (w.memory.servers id) w.memory.shutdowns) in
        (record w { memory = m }, e);
  }

  -- `Run`, and, if all processes start, the watch.
  unfoldable pub lifetime :
      ProcessRunner
      → Execution GoType Value (Hosted GoType Value)
      → List Event
      → Execution GoType Value (Hosted GoType Value)
  unfolding http_application run watch
  lifetime pr s events =
      let r = run R http_application pr s in
      elim r.1 [
        | completed ↦
            (watch R http_application pr.processes (get_priorities pr) (new_watch r.0)
              events).execution
        | failed e ↦ r.0
        | hung ↦ r.0
        | crashed p ↦ r.0
      ]

  -- A server is shut down at most once, and not before `Stop` was called.
  abbrev pub IsShutOnce : World GoType Value (Hosted GoType Value) → Type 0
  IsShutOnce w =
      (id : ℕ)
      → (w.memory.shutdowns id ≡ 0)
        ⊎ ((w.memory.shutdowns id ≡ 1) × ((w.memory.servers id).called ≡ true))

  init-called :
      (id : ℕ) (w : World GoType Value (Hosted GoType Value)) (s : HttpServer)
      → (init R
          (site.fetch id)
          (site.object_init id)
          w.container
          (w.memory.initializers id)
          s
          w.memory.net).0.0.called
        ≡ s.called
  unfolding init make_listener
  init-called id w s = ground arith

  stopping :
      (id : ℕ) (w : World GoType Value (Hosted GoType Value))
      → IsShutOnce w
      → IsShutOnce (http_application.stop id w).0
  unfolding http_application stop
  stopping id w h i = ground (arith, h i, h id, eqb_iff i id)

  keeps : Keeps R http_application IsShutOnce
  unfolding http_application
  keeps = record {
    injecting = λ w objects h. h;
    initializing =
        λ id w h i. ground (arith, h i, eqb_iff i id, init-called id w (w.memory.servers id));
    stopping = stopping;
  }

  lifetime-IsShutOnce :
      (pr : ProcessRunner) (s : Execution GoType Value (Hosted GoType Value)) (events : List Event)
      → IsShutOnce s.world
      → IsShutOnce (lifetime pr s events).world
  unfolding lifetime
  lifetime-IsShutOnce pr s events h =
      ended (run R http_application pr s) (run-keeps R http_application IsShutOnce keeps pr s h)
    where
      ended :
          (r : Execution GoType Value (Hosted GoType Value) × Phase)
          → IsShutOnce r.0.world
          → IsShutOnce
              (elim r.1 as (λ _. Execution GoType Value (Hosted GoType Value)) [
                | completed ↦
                    (watch R http_application pr.processes
                      (get_priorities pr)
                      (new_watch r.0)
                      events).execution
                | failed e ↦ r.0
                | hung ↦ r.0
                | crashed p ↦ r.0
              ]).world
      ended (t, completed) h' =
          watch-keeps R http_application IsShutOnce keeps pr.processes (get_priorities pr) events
            (new_watch t) h'
      ended (t, failed e) h' = h'
      ended (t, hung) h' = h'
      ended (t, crashed p) h' = h'

  -- Whatever the configuration, the initializers and the network do, however the start ends, and
  -- whatever the watch receives: a server that had not been shut down before `Run` is shut down at
  -- most once.
  pub shutdowns_lem :
      (pr : ProcessRunner) (s : Execution GoType Value (Hosted GoType Value)) (events : List Event)
      (id : ℕ)
      → ((i : ℕ) → s.world.memory.shutdowns i ≡ 0)
      → (lifetime pr s events).world.memory.shutdowns id ≤ 1
  shutdowns_lem pr s events id fresh =
      elim (lifetime-IsShutOnce pr s events (λ i. inl (fresh i)) id) [
        | inl e ↦ omega (arith, e)
        | inr (e, _) ↦ omega (arith, e)
      ]
