-- ===== src/Runner/Watch/Loop.antt =====
-- `watch` and `Shutdown` of runner.go: an event loop over signals, returning processes and the
-- request to shut down.
use nacelle.Prelude.{
  ℕ, suc, Bool, true, false, Option, none, some, List, [], ◌∷◌, Dict, ltb, if◌then◌else◌, ℤ,
  string_comparable, nat_comparable, int_comparable,
}
use mathlib.Core.Option
use mathlib.Core.List.{reverse}
use nacelle.Error.{Error, fatal, shutdown_timeout}
use nacelle.Reflect.{Runtime}
use nacelle.Runner.Meta.{ProcessMeta, display_name}
use nacelle.Runner.World.{Application, Execution, send}
use nacelle.Runner.Startup.{stop_processes_below_priority}

-- `errMeta`: what the goroutine of a process sends when `Start` returns.
pub record ErrMeta : Type 0 where
  pub error : Option Error
  pub process : ProcessMeta

unfoldable pub start_result : ProcessMeta → Option Error → ErrMeta
start_result m r = record { error = Option.map (fatal (display_name m.name)) r; process = m }

-- What the `select` of the loop receives.
pub data Event : Type 0 where
  signal : Event
  start_error : ErrMeta → Event
  start_errors_closed : Event
  halt : Event

-- `returned` is set when the function returns: then `done` and `errChan` are closed.
pub record Watch (GoType Value Memory : Type 0) : Type 0 where
  pub execution : Execution GoType Value Memory
  pub urgent : Bool
  pub stopped : Bool
  pub returned : Bool

abbrev pub new_watch :
    {GoType Value Memory : Type 0} → Execution GoType Value Memory → Watch GoType Value Memory
new_watch s = record { execution = s; urgent = false; stopped = false; returned = false }

module _ (R : Runtime) {Memory : Type 0} (app : Application (R.GoType) (R.Value) Memory)
    (processes : Dict ℤ (List ProcessMeta)) (priorities : List ℤ) where
  open R use {GoType, Value}

  -- All priorities, the highest number first.
  unfoldable pub stop_all : Execution GoType Value Memory → Execution GoType Value Memory
  stop_all = stop_processes_below_priority R app processes (reverse priorities)

  -- The code behind the `select`, at the end of the loop's body.
  unfoldable pub stop_once : Watch GoType Value Memory → Watch GoType Value Memory
  unfolding stop_all
  stop_once w =
      if w.stopped then w else record w { stopped = true; execution = stop_all w.execution }

  unfoldable pub on_start_error : ErrMeta → Watch GoType Value Memory → Watch GoType Value Memory
  unfolding stop_once
  on_start_error m w = elim m.error [
    | none ↦ if m.process.silent_exit then w else stop_once w
    | some e ↦ stop_once (record w { execution = send R e w.execution })
  ]

  abbrev pub receive : Event → Watch GoType Value Memory → Watch GoType Value Memory
  receive signal w =
      if w.urgent then record w { returned = true } else stop_once (record w { urgent = true })
  receive (start_error m) w = on_start_error m w
  receive start_errors_closed w = record w { returned = true }
  receive halt w = stop_once w

  -- One round of the loop; a function that has returned receives nothing.
  unfoldable pub watch_step : Watch GoType Value Memory → Event → Watch GoType Value Memory
  unfolding on_start_error
  watch_step w event = if w.returned then w else receive event w

  unfoldable pub watch : Watch GoType Value Memory → List Event → Watch GoType Value Memory
  unfolding watch_step
  watch w [] = w
  watch w (event ∷ events) = watch (watch_step w event) events

-- The channel `halt` with its `sync.Once`; `closes` counts the calls of `close`.
pub record Halt : Type 0 where
  pub called : Bool
  pub closes : ℕ

-- `Shutdown`: `done_at` is when `done` is closed, `none` for never; where both channels are ready,
-- `select` takes either.
abbrev pub await_done : ℕ → Option ℕ → Bool → Option Error
await_done timeout none tie = some shutdown_timeout
await_done timeout (some t) tie =
    if ltb t timeout
    then none
    else if ltb timeout t
    then some shutdown_timeout
    else if tie
    then none
    else some shutdown_timeout

unfoldable pub shutdown : Halt → ℕ → Option ℕ → Bool → Halt × Option Error
shutdown h timeout done_at tie = (
  if h.called then h else record { called = true; closes = suc h.closes },
  await_done timeout done_at tie,
)

-- Where a priority fails to start, there is no watch: a goroutine forwards the errors of the
-- processes that had started, until all of them have returned.
unfoldable pub drain :
    (R : Runtime) {Memory : Type 0}
    → List ErrMeta
    → Execution (R.GoType) (R.Value) Memory
    → Execution (R.GoType) (R.Value) Memory
drain R [] s = s
drain R (m ∷ ms) s = elim m.error [ none ↦ drain R ms s | some e ↦ drain R ms (send R e s) ]
