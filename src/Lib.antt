-- ===== src/Lib.antt =====
-- Nacelle, a framework for services in Go: a bootstrapper loads a configuration from the
-- environment, fills a container of services, and hands both to a runner that starts, watches and
-- stops the processes of an application.
--
-- The parts and their files. A state is a record with the fields of the Go struct, an operation is a
-- function that returns the new state with its result, and names are those of the source in
-- lower case.
--   Prelude     shared names; Go maps as association lists, whose order stands for that of `range`
--   Error       errors as a data type with a constructor for each message, panics, outcomes
--   Key         util.go: the `interface{}` keys and `serializeKey`
--   Reflect     what package reflect shows: struct fields, tags; the run time is a parameter
--   Service     service.go: Defs (Get, Set, GetLogger) and Inject; Store, Registry, Tagged and
--               Filling prove
--   Runner      meta.go and runner.go: Meta, Registry (registration), World (the calls into the
--               application), Startup (initializers, start, stop), Watch/Loop (watch, Shutdown);
--               Calls, Order, Returns, Count, Priorities, Sorting, Registered, Capacity, Keeping, Ready,
--               Careful and the rest of Watch prove
--   Config      config.go: Registry, Json, Loading, Fetching, Dumping; Keys, Ordering,
--               Fields, Copying, Masking and Quoting prove
--   Tags        config_tags.go: Modifiers (the interface of package structtag and both modifiers),
--               Types (reflected types, makeType, ApplyTagModifiers); Kinds, Shape and Prefixed prove
--   Log         log/logger.go, log/fields.go, log/caller.go (Message, proofs in Trimming),
--               log/rollup.go (Rollup, proofs in Burst), log/replay.go (Replay, proofs in Journal),
--               log/shim.go and log/nil.go (Shim: the interface of the shims, and the adapter over
--               it), log/zap.go, log/logrus.go, log/gomol.go and log/gomol_json.go (Backends,
--               proofs in Severities and Callers), and log/config.go with `InitLogging` of
--               logging.go (Settings, proofs in Legal); the Init functions of the backends (Setup,
--               proofs in Chosen)
--   Duration    seconds as an `int64` of nanoseconds, with its overflow
--   Process     process/worker*.go: Worker (Init, the loop of Start, Stop), proofs in Ticking;
--               process/http*.go and process/util.go: Http, proofs in Ports, Stopping and Serving,
--               and the servers as processes of the runner in Hosting, proofs in Orderly;
--               process/grpc*.go: Grpc, proofs in Remote
--   Discovery   discovery/config.go and discovery/client.go: Client (PostLoad, makeClient), proofs in
--               Accepted; discovery/init.go and discovery/logging.go: Init, proofs in Announcing
--   Boot        boot.go: Boot, and NewBootstrapper in Making; Failing and Exiting prove
--   Examples    the theorems at concrete inputs, and tests
-- The runner injects services by the container's `inject`, and `boot` runs the configuration, the
-- container and the runner one after the other. The servers and the worker inject their initializers,
-- and the announcer sets a service, in the same container; the adapter of loggers takes a shim as a
-- parameter, which the replay logger, the nil logger and the three backends fill.
--
-- Concurrency: the goroutines of the runner meet in channels. `Init` is one call whose end races with a
-- timer; the end of `Start`, signals and shutdown requests are a list of events that the watch receives
-- one by one, in any order, and the loop of a worker is another such list. The methods of the loggers
-- hold their mutex and are single steps; the timers of the rollup logger fire as a step of their own. No
-- fuel is needed: every loop runs over a list.
--
-- Parameters: the run time (types, conversion of values), packages json, structtag, net, net/http and
-- grpc, the loggers behind the shims, the discovery client, the environment, the `Init`, `Stop` and
-- `PostLoad` of the application. A listener is known by its port. Reflected types are finite trees. Text
-- is a list of code points where the code walks it, with upper and lower case for ASCII: the names of
-- variables and the texts of levels are taken to be ASCII. What a wrapped logger leaves of a map of
-- fields is a function, too.
--
-- Not modelled: the text of errors and of the library's own log lines; one struct registered under two
-- keys; the effects of an `Init` that goes on after its timeout; a type that reaches itself through a
-- pointer, on which `makeType` does not end; keys of types that Go cannot compare; a map of fields
-- that its caller changes while the rollup logger holds it; `closeAfterWait`, which closes a channel
-- when all processes have returned, but as an event of the watch and as a count after a failed start;
-- the callbacks for a lost connection in discovery/init.go.
pub mod Prelude
pub mod Error
pub mod Key
pub mod Reflect
pub mod Service
pub mod Runner
pub mod Config
pub mod Duration
pub mod Tags
pub mod Process
pub mod Log
pub mod Discovery
pub mod Boot
pub mod Examples
