-- ===== src/Examples/Parts.antt =====
-- The worker, the logging configuration and service discovery at work.
use nacelle.Prelude.{
  ℕ, String, ◌≡◌, refl, ◌≢◌, true, false, ◌||◌, none, some, List, [], ◌∷◌, arith, lookup, pos,
  leb_ℤ, string_comparable, nat_comparable, int_comparable, bytes_comparable, same_bytes, codes,
  lower,
}
use nacelle.Error.{Outcome, ok, panic, nil_dereference}
use nacelle.Key.{text, same_key}
use nacelle.Service.Defs.{ServiceContainer, get, get_logger, as_logger}
use nacelle.Process.Worker.{
  Event, make_worker, stop_called, halt_received, tick_due, tick_returns, start, run_loop, is_done,
}
use nacelle.Process.Ticking.{
  IsStoppable, History, has_returned, any_stop, run_loop_lem, run_loop-halts,
}
use nacelle.Log.Settings.{LogConfig, Backend, post_load as post_load_log}
use nacelle.Log.Legal.{IsLegal, post_load-IsLegal}
use nacelle.Discovery.Client.{DiscoveryConfig, Dial, make_client, post_load as post_load_discovery}
use nacelle.Discovery.Accepted.{IsBackend, Dials, Lasts, post_load_lem, make_client_lem}
use nacelle.Examples.Toy.{ToyValue, toy, logger}

-- Two ticks, a call of `Stop` during the second, and the end.
abbrev events : List Event
events =
    tick_due ∷ tick_returns none ∷ tick_due ∷ stop_called ∷ tick_returns none ∷ halt_received ∷ []

worker_IsStoppable : IsStoppable (make_worker [])
unfolding make_worker is_done
worker_IsStoppable = (omega arith, refl)

run_loop_lem_example :
    let s = run_loop events (start (make_worker [])) in
    IsStoppable s.worker
    × History s.position s.ticks
    × (is_done s.worker
        ≡ (is_done (make_worker []) || (any_stop events || has_returned s.position)))
run_loop_lem_example = run_loop_lem events (make_worker []) worker_IsStoppable

run_loop-halts_example :
    has_returned
      (run_loop
        (stop_called ∷ tick_returns none ∷ halt_received ∷ [])
        (run_loop (tick_due ∷ []) (start (make_worker [])))).position
    ≡ true
run_loop-halts_example = run_loop-halts (tick_due ∷ []) (make_worker []) none worker_IsStoppable

abbrev log_config : LogConfig
log_config = record {
  log_backend = codes "zap";
  log_level = codes "INFO";
  log_encoding = codes "json";
  log_colorize = true;
  log_initial_fields = [];
}

log_config_accepted : (post_load_log log_config).1 ≡ none
unfolding post_load_log lower same_bytes
log_config_accepted = refl

post_load-IsLegal_example :
    IsLegal (post_load_log log_config).0
    × (post_load_log (post_load_log log_config).0 ≡ ((post_load_log log_config).0, none))
post_load-IsLegal_example = post_load-IsLegal log_config log_config_accepted

abbrev backend : ℕ → Backend ℕ
backend n c = (some n, none)

abbrev discovery_config : String → DiscoveryConfig
discovery_config b = record {
  discovery_addr = "addr";
  discovery_backend = b;
  raw_discovery_ttl = pos 120;
  raw_discovery_interval = pos 60;
  discovery_prefix = "";
  discovery_host = "";
  discovery_port = pos 0;
  discovery_ttl = pos 0;
  discovery_interval = pos 0;
}

etcd_accepted : (post_load_discovery "host" (discovery_config "etcd")).1 ≡ none
unfolding post_load_discovery
etcd_accepted = refl

post_load_lem_example :
    let c = (post_load_discovery "host" (discovery_config "etcd")).0 in
    IsBackend c.discovery_backend
    × (c.discovery_host ≢ "")
    × (c.discovery_host ≡ "host")
    × (leb_ℤ (pos 120) (pos 60) ≡ false)
    × Lasts (pos 120) c.discovery_ttl
    × Lasts (pos 60) c.discovery_interval
post_load_lem_example = post_load_lem "host" (discovery_config "etcd") etcd_accepted

abbrev with_logger : ServiceContainer ToyValue
with_logger = record { services = (text "logger", logger) ∷ [] }

abbrev dial : Dial → Outcome Dial
dial = ok

logger_found : get_logger toy with_logger ≡ ok (some logger)
unfolding get_logger get lookup same_key as_logger
logger_found = refl

make_client_lem_example :
    Dials toy dial with_logger (post_load_discovery "host" (discovery_config "etcd")).0
make_client_lem_example =
    make_client_lem toy dial with_logger (some logger) "host" (discovery_config "etcd") logger_found
      etcd_accepted

-- `makeClient` panics for a configuration that `PostLoad` accepts.
make_client_etcd :
    make_client toy dial (ok (post_load_discovery "host" (discovery_config "etcd")).0) with_logger
    ≡ panic nil_dereference
unfolding make_client post_load_discovery get same_key as_logger
make_client_etcd = refl
