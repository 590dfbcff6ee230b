-- ===== src/Process/Worker.antt =====
-- process/worker.go, worker_config.go and worker_options.go: a process that calls `Tick` at
-- intervals.
use nacelle.Prelude.{
  ℕ, suc, String, Bool, true, false, Option, none, some, List, [], ◌∷◌, ◌++◌, ltb, if◌then◌else◌, ℤ,
  pos, string_comparable, nat_comparable, int_comparable, bytes_comparable,
}
use Prim.Native.String.{◌++◌ as append_text}
use nacelle.Error.{Error, Outcome, Status, ok, err, panic, done, bad_worker_config}
use nacelle.Key.{Key, named}
use nacelle.Reflect.{Runtime}
use nacelle.Service.Defs.{ServiceContainer}
use nacelle.Service.Inject.{Object, inject}
use nacelle.Duration.{seconds}

pub record WorkerConfig : Type 0 where
  pub raw_worker_tick_interval : ℤ
  pub worker_tick_interval : ℤ

unfoldable pub post_load : WorkerConfig → WorkerConfig × Option Error
unfolding seconds
post_load c = (record c { worker_tick_interval = seconds c.raw_worker_tick_interval }, none)

unfoldable pub make_worker_config_token : String → Key
make_worker_config_token name =
    named "workerConfigToken" (append_text "nacelle-process-worker-" name)

abbrev pub WorkerConfigFunc : Type 0
WorkerConfigFunc = Key → Key

unfoldable pub with_worker_config_token : Key → WorkerConfigFunc
with_worker_config_token token _ = token

-- `getWorkerOptions`: the only option is the token.
unfoldable pub get_worker_options : List WorkerConfigFunc → Key → Key
get_worker_options [] token = token
get_worker_options (f ∷ fs) token = get_worker_options fs (f token)

-- `called` is the state of `once`, and `closes` counts the calls of `close` on `halt`.
pub record Worker : Type 0 where
  pub config_token : Key
  pub tick_interval : ℤ
  pub called : Bool
  pub closes : ℕ

-- `newWorker`
unfoldable pub make_worker : List WorkerConfigFunc → Worker
unfolding get_worker_options make_worker_config_token
make_worker configs = record {
  config_token = get_worker_options configs (make_worker_config_token "default");
  tick_interval = pos 0;
  called = false;
  closes = 0;
}

-- `NewWorker` does not pass its configuration functions on.
unfoldable pub new_worker : List WorkerConfigFunc → Worker
unfolding make_worker
new_worker configs = make_worker []

unfoldable pub is_done : Worker → Bool
is_done w = ltb 0 w.closes

unfoldable pub stop : Worker → Worker
stop w = if w.called then w else record w { called = true; closes = suc w.closes }

module _ (R : Runtime) where
  open R use {GoType, Value}

  abbrev init_status : Option Error → Status
  init_status none = done
  init_status (some e) = err e

  -- `Init`. `fetch` is the method of the configuration on a new `WorkerConfig`, and `spec_init` the
  -- `Init` of the worker's spec, which has a pointer to the worker.
  unfoldable pub init :
      (Key → Outcome WorkerConfig)
      → (Object GoType Value → Worker → Object GoType Value × Worker × Option Error)
      → ServiceContainer Value
      → Object GoType Value
      → Worker
      → (Object GoType Value × Worker) × Status
  init fetch spec_init container spec w = elim (fetch w.config_token) [
    | err _ ↦ ((spec, w), err bad_worker_config)
    | panic p ↦ ((spec, w), panic p)
    | ok c ↦
        let w' : Worker = record w { tick_interval = c.worker_tick_interval } in
        let (spec', injected) = inject R container spec in
        elim injected [
          | err e ↦ ((spec', w'), err e)
          | panic p ↦ ((spec', w'), panic p)
          | ok _ ↦ let (spec'', w'', e) = spec_init spec' w' in ((spec'', w''), init_status e)
        ]
  ]

-- Where the goroutine of `Start` is: in the `select`, in `Tick`, or behind the loop.
pub data Position : Type 0 where
  selecting : Position
  ticking : Position
  returned : Option Error → Position

-- The worker while `Start` runs, and the results of `Tick` so far.
pub record Loop : Type 0 where
  pub worker : Worker
  pub position : Position
  pub ticks : List (Option Error)

-- What may happen: a call of `Stop` by another goroutine or by `Tick`, either case of the `select`,
-- or the end of `Tick`.
pub data Event : Type 0 where
  stop_called : Event
  halt_received : Event
  tick_due : Event
  tick_returns : Option Error → Event

unfoldable pub start : Worker → Loop
start w = record { worker = w; position = selecting; ticks = [] }

-- A return from `Start`, with the deferred `Stop`.
abbrev pub leave : Option Error → Loop → Loop
leave e s = record s { worker = stop s.worker; position = returned e }

abbrev pub on_halt : Position → Loop → Loop
on_halt selecting s = if is_done s.worker then leave none s else s
on_halt ticking s = s
on_halt (returned e) s = s

abbrev pub on_timer : Position → Loop → Loop
on_timer selecting s = record s { position = ticking }
on_timer ticking s = s
on_timer (returned e) s = s

abbrev pub on_tick : Option Error → Position → Loop → Loop
on_tick r selecting s = s
on_tick none ticking s = record s { position = selecting; ticks = s.ticks ++ none ∷ [] }
on_tick (some e) ticking s = leave (some e) (record s { ticks = s.ticks ++ some e ∷ [] })
on_tick r (returned e) s = s

-- One event of the loop of `Start`. One that cannot happen where the loop is changes nothing.
unfoldable pub step : Event → Loop → Loop
unfolding stop is_done
step stop_called s = record s { worker = stop s.worker }
step halt_received s = on_halt s.position s
step tick_due s = on_timer s.position s
step (tick_returns r) s = on_tick r s.position s

unfoldable pub run_loop : List Event → Loop → Loop
unfolding step
run_loop [] s = s
run_loop (event ∷ events) s = run_loop events (step event s)
