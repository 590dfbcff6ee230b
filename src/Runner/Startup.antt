-- ===== src/Runner/Startup.antt =====
-- The starting half of runner.go: `runInitializers`, `runProcesses`, and stopping.
use nacelle.Prelude.{
  String, Option, none, some, List, [], ◌∷◌, Dict, ℤ, string_comparable, nat_comparable,
  int_comparable,
}
use nacelle.Error.{
  Error, Panic, Status, ok, err, panic, inject_failed, initialize_failed, stop_failed,
}
use nacelle.Reflect.{Runtime}
use nacelle.Runner.Meta.{InitializerMeta, ProcessMeta, display_name}
use nacelle.Runner.Registry.{ProcessRunner, processes_at, get_priorities}
use nacelle.Runner.World.{
  Application, Execution, call_inject, call_init, call_stop, call_start, send,
}

-- How a sequence of calls ends: all made, at the first error, or in a call that never returns.
pub data Phase : Type 0 where
  completed : Phase
  failed : Error → Phase
  hung : Phase
  crashed : Panic → Phase

abbrev pub inject_phase : String → Status → Phase
inject_phase name (ok _) = completed
inject_phase name (err e) = failed (inject_failed (display_name name) e)
inject_phase name (panic p) = crashed p

abbrev pub init_phase : String → Option (Option Error) → Phase
init_phase name none = hung
init_phase name (some none) = completed
init_phase name (some (some e)) = failed (initialize_failed (display_name name) e)

-- A loop whose body may return from the function: it goes on only after `completed`.
unfoldable pub each {ℓ κ} : {A : Type ℓ} {S : Type κ} → (A → S → S × Phase) → List A → S → S × Phase
each f [] s = (s, completed)
each f (a ∷ as') s = elim (f a s).1 [
  | completed ↦ each f as' (f a s).0
  | failed e ↦ ((f a s).0, failed e)
  | hung ↦ ((f a s).0, hung)
  | crashed p ↦ ((f a s).0, crashed p)
]

module _ (R : Runtime) {Memory : Type 0} (app : Application (R.GoType) (R.Value) Memory) where
  open R use {GoType, Value}

  -- One round of the loop of `runInitializers`.
  unfoldable pub run_initializer :
      InitializerMeta → Execution GoType Value Memory → Execution GoType Value Memory × Phase
  run_initializer m s =
      let (s', injected) = call_inject R m.initializer s in
      elim (inject_phase m.name injected) [
        | completed ↦
            let (s'', r) = call_init R app m.initializer m.timeout s' in (s'', init_phase m.name r)
        | failed e ↦ (s', failed e)
        | hung ↦ (s', hung)
        | crashed p ↦ (s', crashed p)
      ]

  unfoldable pub run_initializers :
      List InitializerMeta → Execution GoType Value Memory → Execution GoType Value Memory × Phase
  unfolding each run_initializer
  run_initializers = each run_initializer

  unfoldable pub inject_process :
      ProcessMeta → Execution GoType Value Memory → Execution GoType Value Memory × Phase
  inject_process m s = let (s', r) = call_inject R m.process s in (s', inject_phase m.name r)

  unfoldable pub init_process :
      ProcessMeta → Execution GoType Value Memory → Execution GoType Value Memory × Phase
  init_process m s =
      let (s', r) = call_init R app m.process m.init_timeout s in (s', init_phase m.name r)

  unfoldable pub start_processes :
      List ProcessMeta → Execution GoType Value Memory → Execution GoType Value Memory
  start_processes [] s = s
  start_processes (m ∷ ms) s = start_processes ms (call_start R m.process s)

  -- `initAndStartProcesses`: no process of a priority starts before all of them are initialized.
  unfoldable pub init_and_start_processes :
      List ProcessMeta → Execution GoType Value Memory → Execution GoType Value Memory × Phase
  unfolding each init_process start_processes
  init_and_start_processes ms s =
      let (s', r) = each init_process ms s in
      elim r [
        | completed ↦ (start_processes ms s', completed)
        | failed e ↦ (s', failed e)
        | hung ↦ (s', hung)
        | crashed p ↦ (s', crashed p)
      ]

  abbrev pub report_stop :
      String → Execution GoType Value Memory × Option Error → Execution GoType Value Memory
  report_stop name (s, none) = s
  report_stop name (s, some e) = send R (stop_failed (display_name name) e) s

  unfoldable pub stop_processes :
      List ProcessMeta → Execution GoType Value Memory → Execution GoType Value Memory
  stop_processes [] s = s
  stop_processes (m ∷ ms) s = stop_processes ms (report_stop m.name (call_stop R app m.process s))

  module _ (processes : Dict ℤ (List ProcessMeta)) where
    -- `stopProcesessBelowPriority` counts an index down from `p - 1`. Here the priorities below the
    -- index are given, nearest first.
    unfoldable pub stop_processes_below_priority :
        List ℤ → Execution GoType Value Memory → Execution GoType Value Memory
    unfolding stop_processes
    stop_processes_below_priority [] s = s
    stop_processes_below_priority (p ∷ below) s =
        stop_processes_below_priority below (stop_processes (processes_at processes p) s)

    unfoldable pub inject_processes :
        List ℤ → Execution GoType Value Memory → Execution GoType Value Memory × Phase
    unfolding each inject_process
    inject_processes = each (λ p. each inject_process (processes_at processes p))

    -- The loop over the priorities of `runProcesses`. `below` are the priorities that have started,
    -- the last one first: `priorities[i - 1]` down to `priorities[0]`.
    unfoldable pub start_priorities :
        List ℤ → List ℤ → Execution GoType Value Memory → Execution GoType Value Memory × Phase
    start_priorities below [] s = (s, completed)
    start_priorities below (p ∷ ps) s =
        let r = init_and_start_processes (processes_at processes p) s in
        elim r.1 [
          | completed ↦ start_priorities (p ∷ below) ps r.0
          | failed e ↦ (stop_processes_below_priority below (send R e r.0), failed e)
          | hung ↦ (r.0, hung)
          | crashed p ↦ (r.0, crashed p)
        ]

    unfoldable pub run_processes :
        List ℤ → Execution GoType Value Memory → Execution GoType Value Memory × Phase
    run_processes priorities s =
        let r = inject_processes priorities s in
        elim r.1 [
          | completed ↦ start_priorities [] priorities r.0
          | failed e ↦ (send R e r.0, failed e)
          | hung ↦ (r.0, hung)
          | crashed p ↦ (r.0, crashed p)
        ]

  -- `Run`, up to the point where it returns its channel or starts to watch.
  unfoldable pub run :
      ProcessRunner → Execution GoType Value Memory → Execution GoType Value Memory × Phase
  run pr s =
      let r = run_initializers pr.initializers s in
      elim r.1 [
        | completed ↦ run_processes pr.processes (get_priorities pr) r.0
        | failed e ↦ (send R e r.0, failed e)
        | hung ↦ (r.0, hung)
        | crashed p ↦ (r.0, crashed p)
      ]
