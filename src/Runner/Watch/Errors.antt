-- ===== src/Runner/Watch/Errors.antt =====
-- How many errors are ever sent on `errChan`, which has room for `numProcesses * 2 + 1` of them and
-- may have no reader.
use nacelle.Prelude.{
  ℕ, suc, ◌+◌, ◌≤◌, String, ◌≡◌, inl, inr, Option, none, some, List, [], ◌∷◌, arith, Dict,
  if◌then◌else◌, Option-cases, length, length-append, ℤ, string_comparable, nat_comparable,
  int_comparable,
}
use mathlib.Core.List.{reverse}
use nacelle.Error.{Error}
use nacelle.Reflect.{Runtime}
use nacelle.Runner.Meta.{ProcessMeta}
use nacelle.Runner.Registry.{processes_at}
use nacelle.Runner.World.{Application, Execution, send, call_stop}
use nacelle.Runner.Startup.{stop_processes, report_stop, stop_processes_below_priority}
use nacelle.Runner.Count.{count_at, count_at-reverse}
use nacelle.Runner.Watch.Loop.{
  Event, signal, start_error, start_errors_closed, halt, Watch, stop_all, watch_step, watch,
}

-- The processes that return from `Start` among the events.
abbrev pub start_results : List Event → ℕ
start_results [] = 0
start_results (start_error m ∷ events) = suc (start_results events)
start_results (_ ∷ events) = start_results events

module _ (R : Runtime) {Memory : Type 0} (app : Application (R.GoType) (R.Value) Memory)
    (processes : Dict ℤ (List ProcessMeta)) (priorities : List ℤ) where
  open R use {GoType, Value}

  report_stop-sent :
      (name : String) (r : Execution GoType Value Memory × Option Error)
      → length (report_stop R app name r).sent ≤ length r.0.sent + 1
  unfolding send
  report_stop-sent name (s, none) = omega arith
  report_stop-sent name (s, some e) = omega (arith, length-append {0} s.sent)

  stop_processes-sent :
      (ms : List ProcessMeta) (s : Execution GoType Value Memory)
      → length (stop_processes R app ms s).sent ≤ length s.sent + length ms
  unfolding stop_processes call_stop
  stop_processes-sent [] s = omega arith
  stop_processes-sent (m ∷ ms) s = omega (
    arith,
    stop_processes-sent ms (report_stop R app m.name (call_stop R app m.process s)),
    report_stop-sent m.name (call_stop R app m.process s),
  )

  pub stop_processes_below_priority-sent :
      (ps : List ℤ) (s : Execution GoType Value Memory)
      → length (stop_processes_below_priority R app processes ps s).sent
        ≤ length s.sent + count_at processes ps
  unfolding stop_processes_below_priority
  stop_processes_below_priority-sent [] s = omega arith
  stop_processes_below_priority-sent (p ∷ ps) s = omega (
    arith,
    stop_processes_below_priority-sent ps (stop_processes R app (processes_at processes p) s),
    stop_processes-sent (processes_at processes p) s,
  )

  stop_all-sent :
      (s : Execution GoType Value Memory)
      → length (stop_all R app processes priorities s).sent
        ≤ length s.sent + count_at processes priorities
  unfolding stop_all
  stop_all-sent s = omega (
    arith,
    stop_processes_below_priority-sent (reverse priorities) s,
    count_at-reverse processes priorities,
  )

  abbrev pub stops_left : Watch GoType Value Memory → ℕ
  stops_left w = if w.stopped then 0 else count_at processes priorities

  abbrev pub results_of : Event → ℕ
  results_of (start_error m) = 1
  results_of _ = 0

  pub send-length :
      (e : Error) (s : Execution GoType Value Memory) → length (send R e s).sent ≡ length s.sent + 1
  unfolding send
  send-length e s = omega (arith, length-append {0} s.sent (e ∷ []))

  step-sent :
      (w : Watch GoType Value Memory) (event : Event)
      → length (watch_step R app processes priorities w event).execution.sent
          + stops_left (watch_step R app processes priorities w event)
        ≤ length w.execution.sent + stops_left w + results_of event
  unfolding watch_step
  step-sent w signal = ground (arith, stop_all-sent w.execution)
  step-sent w (start_error m) = elim (Option-cases m.error) [
    | inl clean ↦ ground (arith, stop_all-sent w.execution)
    | inr (e, q) ↦ ground (arith, send-length e w.execution, stop_all-sent (send R e w.execution))
  ]
  step-sent w start_errors_closed = ground arith
  step-sent w halt = ground (arith, stop_all-sent w.execution)

  pub watch-sent :
      (w : Watch GoType Value Memory) (events : List Event)
      → length (watch R app processes priorities w events).execution.sent
        ≤ length w.execution.sent + stops_left w + start_results events
  unfolding watch
  watch-sent w [] = omega arith
  watch-sent w (signal ∷ events) = omega (
    arith,
    step-sent w signal,
    watch-sent (watch_step R app processes priorities w signal) events,
  )
  watch-sent w (start_error m ∷ events) = omega (
    arith,
    step-sent w (start_error m),
    watch-sent (watch_step R app processes priorities w (start_error m)) events,
  )
  watch-sent w (start_errors_closed ∷ events) = omega (
    arith,
    step-sent w start_errors_closed,
    watch-sent (watch_step R app processes priorities w start_errors_closed) events,
  )
  watch-sent w (halt ∷ events) =
      omega
        (arith, step-sent w halt, watch-sent (watch_step R app processes priorities w halt) events)
