-- ===== src/Examples/Running.antt =====
-- The runner at work.
use nacelle.Prelude.{
  ℕ, ◌≤◌, ◌≡◌, refl, ◌≢◌, true, false, ◌||◌, none, some, List, [], ◌∷◌, ◌++◌, arith, has_key,
  lookup, insert, keys, leb, if◌then◌else◌, length, concat_map, ℤ, pos, string_comparable,
  nat_comparable, int_comparable, bytes_comparable,
}
use mathlib.Core.List.{reverse}
use nacelle.Error.{foreign, initialize_failed, stop_failed}
use nacelle.Runner.Meta.{
  ProcessMeta, ProcessConfigFunc, new_initializer_meta, new_process_meta, with_priority,
  with_silent_exit, display_name, with_initializer_timeout, with_process_init_timeout,
}
use nacelle.Runner.Registry.{
  ProcessRunner, new_process_runner, register_process, processes_at, get_priorities,
}
use nacelle.Runner.World.{
  injects, inits, starts, stops, call_inject, call_init, call_start, call_stop, send,
}
use nacelle.Runner.Startup.{
  run_initializers, run_processes, inject_processes, start_priorities, init_and_start_processes,
  stop_processes_below_priority, run, completed, hung,
}
use nacelle.Service.Inject.{inject}
use nacelle.Runner.Calls.{Ran, initializer_calls, run_initializers-Ran}
use nacelle.Runner.Order.{RunResult, run_processes_lem, stopping_calls}
use nacelle.Runner.Count.{count_at}
use nacelle.Runner.Priorities.{
  register_processes, registered, at_priority, processes_at-register_processes,
}
use nacelle.Runner.Sorting.{IsAscending}
use nacelle.Runner.Registered.{IsRegistered, register_processes-IsRegistered, get_priorities_lem}
use nacelle.Runner.Watch.Loop.{
  Event, Halt, start_error, start_errors_closed, new_watch, watch, Watch, drain, start_result,
}
use nacelle.Runner.Watch.Stopping.{triggered, has_closed, signals, watch_lem}
use nacelle.Runner.Watch.Shutdown.{ShutdownCalls, shutdown_all, AllAwaited, shutdown_all_lem}
use nacelle.Runner.Returns.{run-returns}
use nacelle.Runner.Capacity.{err_chan_capacity, errors-le-capacity}
use nacelle.Runner.World.{InitRun}
use nacelle.Examples.Toy.{ToyType, ToyValue, toy, app, start}

-- Processes 3 and 4 at priority 0, and 9, whose `Init` fails, at priority 5.
abbrev calls : List (ℕ × List ProcessConfigFunc)
calls = (9, with_priority (pos 5) ∷ []) ∷ (3, []) ∷ (4, with_silent_exit ∷ []) ∷ []

abbrev runner : ProcessRunner
runner = register_processes new_process_runner calls

abbrev silent_process : ProcessMeta
silent_process = with_silent_exit (new_process_meta 4)

abbrev events : List Event
events =
    start_error (start_result silent_process none)
    ∷ start_error (start_result (new_process_meta 3) (some (foreign 3)))
    ∷ start_errors_closed
    ∷ []

abbrev run_priorities : List ℤ
run_priorities = pos 0 ∷ pos 5 ∷ []

run_initializers-Ran_example :
    Ran
      (concat_map initializer_calls (new_initializer_meta 1 ∷ new_initializer_meta 9 ∷ []))
      start
      (run_initializers toy app (new_initializer_meta 1 ∷ new_initializer_meta 9 ∷ []) start)
run_initializers-Ran_example =
    run_initializers-Ran toy app (new_initializer_meta 1 ∷ new_initializer_meta 9 ∷ []) start

run_processes_lem_example :
    RunResult toy app runner.processes run_priorities start.calls
      (run_processes toy app runner.processes run_priorities start)
run_processes_lem_example = run_processes_lem toy app runner.processes run_priorities start

processes_at-register_processes_example :
    processes_at runner.processes (pos 0)
    ≡ processes_at new_process_runner.processes (pos 0) ++ at_priority (pos 0) (registered calls)
processes_at-register_processes_example =
    processes_at-register_processes calls new_process_runner (pos 0)

register_processes-IsRegistered_example : IsRegistered runner
register_processes-IsRegistered_example = register_processes-IsRegistered calls

get_priorities_lem_example :
    IsAscending (get_priorities runner)
    × ((p : ℤ) → has_key p (get_priorities runner) ≡ has_key p (keys runner.processes))
    × (count_at runner.processes (get_priorities runner) ≡ runner.num_processes)
get_priorities_lem_example = get_priorities_lem runner (register_processes-IsRegistered calls)

watch_lem_example :
    let w = watch toy app runner.processes run_priorities (new_watch start) events in
    (w.stopped ≡ triggered events)
    × (w.execution.calls ≡ (
        if triggered events
        then start.calls ++ stopping_calls toy app runner.processes (reverse run_priorities)
        else start.calls))
    × (w.returned ≡ (has_closed events || leb 2 (signals events)))
watch_lem_example = watch_lem toy app runner.processes run_priorities start events

abbrev stopped_watch : Watch ToyType ToyValue ℕ
stopped_watch = record { execution = start; urgent = false; stopped = true; returned = false }

abbrev shutdown_calls : ShutdownCalls
shutdown_calls = (10, some 20, true) ∷ (10, some 5, true) ∷ []

abbrev new_halt : Halt
new_halt = record { called = false; closes = 0 }

shutdown_all_lem_example :
    ((shutdown_all shutdown_calls new_halt).0.closes ≡ 1)
    × AllAwaited shutdown_calls (shutdown_all shutdown_calls new_halt).1
shutdown_all_lem_example = shutdown_all_lem shutdown_calls new_halt

-- An `Init` that takes longer than its timeout.
abbrev slow_init : InitRun
slow_init = record { returns_at = some 9; result = none; wins_tie = true }

abbrev timed_runner : ProcessRunner
timed_runner = record {
  initializers = with_initializer_timeout (pos 5) (new_initializer_meta 1) ∷ [];
  processes = (pos 0, with_process_init_timeout (pos 5) (new_process_meta 3) ∷ []) ∷ [];
  num_processes = 1;
}

run-returns_example : (run toy app timed_runner start).1 ≢ hung
unfolding with_initializer_timeout with_process_init_timeout
run-returns_example = run-returns toy app timed_runner start ((λ e. cc), tt) (((λ e. cc), tt), tt)

num_processes_example : runner.num_processes ≡ 3
unfolding register_process new_process_runner
num_processes_example = refl

errors-le-capacity_example :
    let r = run toy app runner start in
    (length (drain toy (start_result (new_process_meta 3) none ∷ []) r.0).sent
      ≤ err_chan_capacity runner)
    × (r.1 ≡ completed
        → (r.0.sent ≡ [])
          × (length
                (watch toy app runner.processes
                  (get_priorities runner)
                  (new_watch r.0)
                  events).execution.sent
              ≤ err_chan_capacity runner))
errors-le-capacity_example =
    errors-le-capacity toy app runner (register_processes-IsRegistered calls) start
      (start_result (new_process_meta 3) none ∷ []) events refl
      (omega (arith, num_processes_example)) (omega (arith, num_processes_example))

-- The whole run: 9 fails to initialize, so 3 and 4 are stopped, and it and the failing stop are sent.
run_example :
    ((run toy app runner start).0.calls
      ≡ injects 3
        ∷ injects 4
        ∷ injects 9
        ∷ inits 3
        ∷ inits 4
        ∷ starts 3
        ∷ starts 4
        ∷ inits 9
        ∷ stops 3
        ∷ stops 4
        ∷ [])
    × ((run toy app runner start).0.sent
        ≡ initialize_failed "<unnamed>" (foreign 1) ∷ stop_failed "<unnamed>" (foreign 2) ∷ [])
unfolding run run_initializers run_processes inject_processes start_priorities
    init_and_start_processes stop_processes_below_priority register_process new_process_runner
    get_priorities processes_at call_inject inject call_init call_start call_stop send keys lookup
    insert display_name with_priority with_silent_exit
run_example = (refl, refl)
