-- ===== src/Runner/Careful.antt =====
-- A property that `Stop` keeps only of a process whose `Init` has succeeded, through a whole run.
use nacelle.Prelude.{
  ℕ, ◌≡◌, refl, sym, ap, ◌∙◌, List, [], ◌∷◌, Dict, All, All-append, ℤ, string_comparable,
  nat_comparable, int_comparable, bytes_comparable,
}
use mathlib.Core.Path.{subst}
use mathlib.Core.List.{reverse, reverse-cons}
use nacelle.Error.{Error}
use nacelle.Reflect.{Runtime}
use nacelle.Runner.Meta.{InitializerMeta, ProcessMeta}
use nacelle.Runner.Registry.{ProcessRunner, processes_at, get_priorities}
use nacelle.Runner.World.{World, Application, Execution, call_inject, call_init, call_start, send}
use nacelle.Runner.Startup.{
  Phase, completed, failed, hung, crashed, inject_phase, each, run_initializer, run_initializers,
  inject_process, init_process, start_processes, init_and_start_processes,
  stop_processes_below_priority, inject_processes, start_priorities, run_processes, run,
}
use nacelle.Runner.Keeping.{
  go_on, each-keeps, init_and_start_processes-keeps, start_priorities-keeps, stop_below-keeps,
}
use nacelle.Runner.Ready.{
  Readies, Careful, AllStarted, go_on-completed, all_last, started_last,
  init_and_start_processes-ready, stop_below-careful,
}
use nacelle.Runner.Watch.Loop.{Event, new_watch, watch, stop_all}
use nacelle.Runner.Watch.Lasting.{watch_stable}

-- A step whose continuation keeps what holds of its state, if the step has completed.
go_on_if :
    {S : Type 0} (P : S → Type 0) (p : Phase) (k : S × Phase) (s : S) (g : Error → S)
    → (p ≡ completed → P k.0)
    → P s
    → ((e : Error) → P (g e))
    → P
        (elim p as (λ _. S × Phase) [
          | completed ↦ k
          | failed e ↦ (g e, failed e)
          | hung ↦ (s, hung)
          | crashed q ↦ (s, crashed q)
        ]).0
go_on_if P completed k s g hk hs hg = hk refl
go_on_if P (failed e) k s g hk hs hg = hg e
go_on_if P hung k s g hk hs hg = hs
go_on_if P (crashed q) k s g hk hs hg = hs

All-reverse : {A : Type 0} (Q : A → Type 0) (xs : List A) → All Q xs → All Q (reverse xs)
All-reverse Q [] h = tt
All-reverse Q (x ∷ xs) (q, h) =
    subst (All Q) (sym (reverse-cons x xs))
      (All-append Q (reverse xs) (x ∷ []) (All-reverse Q xs h) (q, tt))

module _ (R : Runtime) {Memory : Type 0} (app : Application (R.GoType) (R.Value) Memory)
    (Ready : ℕ → World (R.GoType) (R.Value) Memory → Type 0) (C : Readies R app Ready)
    (Inv : World (R.GoType) (R.Value) Memory → Type 0) (I : Careful R app Ready C Inv) where
  open R use {GoType, Value}

  abbrev Holds : Execution GoType Value Memory → Type 0
  Holds s = Inv s.world

  call_inject-careful :
      (id : ℕ) (s : Execution GoType Value Memory) → Holds s → Holds (call_inject R id s).0
  unfolding call_inject
  call_inject-careful id s h = I.injecting s.world _ h

  run_initializer-careful :
      (m : InitializerMeta) (s : Execution GoType Value Memory)
      → Holds s
      → Holds (run_initializer R app m s).0
  unfolding run_initializer call_init
  run_initializer-careful m s h =
      let h' = call_inject-careful m.initializer s h in
      go_on Holds (inject_phase m.name (call_inject R m.initializer s).1) _
        (call_inject R m.initializer s).0 (λ e. (call_inject R m.initializer s).0)
        (I.initializing m.initializer _ h') h' (λ e. h')

  inject_process-careful :
      (m : ProcessMeta) (s : Execution GoType Value Memory)
      → Holds s
      → Holds (inject_process R app m s).0
  unfolding inject_process
  inject_process-careful m s h = call_inject-careful m.process s h

  init_process-careful :
      (m : ProcessMeta) (s : Execution GoType Value Memory)
      → Holds s
      → Holds (init_process R app m s).0
  unfolding init_process call_init
  init_process-careful m s h = I.initializing m.process s.world h

  start_processes-careful :
      (ms : List ProcessMeta) (s : Execution GoType Value Memory)
      → Holds s
      → Holds (start_processes R app ms s)
  unfolding start_processes call_start
  start_processes-careful [] s h = h
  start_processes-careful (m ∷ ms) s h = start_processes-careful ms (call_start R m.process s) h

  init_and_start_processes-careful :
      (ms : List ProcessMeta) (s : Execution GoType Value Memory)
      → Holds s
      → Holds (init_and_start_processes R app ms s).0
  unfolding init_and_start_processes
  init_and_start_processes-careful ms s h =
      let r = each (init_process R app) ms s in
      let h' = each-keeps Holds (init_process R app) ms s init_process-careful h in
      go_on Holds r.1 (start_processes R app ms r.0, completed) r.0 (λ e. r.0)
        (start_processes-careful ms r.0 h') h' (λ e. h')

  module _ (processes : Dict ℤ (List ProcessMeta)) where
    start_priorities-started :
        (ps below : List ℤ) (s : Execution GoType Value Memory)
        → (start_priorities R app processes below ps s).1 ≡ completed
        → AllStarted R app Ready C processes ps (start_priorities R app processes below ps s).0
    unfolding start_priorities
    start_priorities-started [] below s h = tt
    start_priorities-started (p ∷ ps) below s h =
        let r = init_and_start_processes R app (processes_at processes p) s in
        let k = start_priorities R app processes (p ∷ below) ps r.0 in
        let (q, e) =
          go_on-completed r.1 k r.0
            (λ e. stop_processes_below_priority R app processes below (send R e r.0)) h in
        let ready =
          all_last R app Ready C (processes_at processes p) r.0 k.0
            (λ id.
              start_priorities-keeps R app (Ready id) (C.lasting id) processes ps (p ∷ below) r.0)
            (init_and_start_processes-ready R app Ready C (processes_at processes p) s q) in
        subst (λ t. AllStarted R app Ready C processes (p ∷ ps) t.0) (sym e)
          (ready, start_priorities-started ps (p ∷ below) r.0 (ap (λ t. t.1) (sym e) ∙ h))

    start_priorities-careful :
        (ps below : List ℤ) (s : Execution GoType Value Memory)
        → AllStarted R app Ready C processes below s
        → Holds s
        → Holds (start_priorities R app processes below ps s).0
    unfolding start_priorities send
    start_priorities-careful [] below s started h = h
    start_priorities-careful (p ∷ ps) below s started h =
        let r = init_and_start_processes R app (processes_at processes p) s in
        let h' = init_and_start_processes-careful (processes_at processes p) s h in
        let started' =
          started_last R app Ready C processes below s r.0
            (λ id.
              init_and_start_processes-keeps R app (Ready id) (C.lasting id)
                (processes_at processes p) s)
            started in
        go_on_if Holds r.1 (start_priorities R app processes (p ∷ below) ps r.0) r.0
          (λ e. stop_processes_below_priority R app processes below (send R e r.0))
          (λ q.
            start_priorities-careful ps (p ∷ below) r.0
              (
                init_and_start_processes-ready R app Ready C (processes_at processes p) s q,
                started',
              )
              h')
          h'
          (λ e. stop_below-careful R app Ready C Inv I processes below (send R e r.0) started' h')

    injected-careful :
        (ps : List ℤ) (s : Execution GoType Value Memory)
        → Holds s
        → Holds (inject_processes R app processes ps s).0
    unfolding inject_processes
    injected-careful ps s h =
        each-keeps Holds (λ p. each (inject_process R app) (processes_at processes p)) ps s
          (λ p t.
            each-keeps Holds (inject_process R app) (processes_at processes p) t
              inject_process-careful)
          h

    run_processes-careful :
        (ps : List ℤ) (s : Execution GoType Value Memory)
        → Holds s
        → Holds (run_processes R app processes ps s).0
    unfolding run_processes send
    run_processes-careful ps s h =
        let r = inject_processes R app processes ps s in
        let h' = injected-careful ps s h in
        go_on Holds r.1 (start_priorities R app processes [] ps r.0) r.0 (λ e. send R e r.0)
          (start_priorities-careful ps [] r.0 tt h') h' (λ e. h')

    run_processes-started :
        (ps : List ℤ) (s : Execution GoType Value Memory)
        → (run_processes R app processes ps s).1 ≡ completed
        → AllStarted R app Ready C processes ps (run_processes R app processes ps s).0
    unfolding run_processes
    run_processes-started ps s h =
        let r = inject_processes R app processes ps s in
        let k = start_priorities R app processes [] ps r.0 in
        let (q, e) = go_on-completed r.1 k r.0 (λ e. send R e r.0) h in
        subst (λ t. AllStarted R app Ready C processes ps t.0) (sym e)
          (start_priorities-started ps [] r.0 (ap (λ t. t.1) (sym e) ∙ h))

    -- The watch, where all processes have started.
    pub watch-careful :
        (ps : List ℤ) (events : List Event) (s : Execution GoType Value Memory)
        → AllStarted R app Ready C processes ps s
        → Holds s
        → Holds (watch R app processes ps (new_watch s) events).execution
    unfolding send stop_all
    watch-careful ps events s started h =
        (watch_stable R app processes ps (λ t. AllStarted R app Ready C processes ps t × Holds t)
          (λ t (started', h'). (
            started_last R app Ready C processes ps t (stop_all R app processes ps t)
                (λ id. stop_below-keeps R app (Ready id) (C.lasting id) processes (reverse ps) t)
                started',
            stop_below-careful R app Ready C Inv I processes (reverse ps) t
                (All-reverse _ ps started') h',
          ))
          (λ e t h'. h') events (new_watch s) (started, h)).1

  pub run-careful :
      (pr : ProcessRunner) (s : Execution GoType Value Memory) → Holds s → Holds (run R app pr s).0
  unfolding run run_initializers send
  run-careful pr s h =
      let r = run_initializers R app pr.initializers s in
      let h' : Holds r.0 =
        each-keeps Holds (run_initializer R app) pr.initializers s run_initializer-careful h in
      go_on Holds r.1 (run_processes R app pr.processes (get_priorities pr) r.0) r.0
        (λ e. send R e r.0) (run_processes-careful pr.processes (get_priorities pr) r.0 h') h'
        (λ e. h')

  -- Where `Run` goes on to watch, all processes have started.
  pub run-started :
      (pr : ProcessRunner) (s : Execution GoType Value Memory)
      → (run R app pr s).1 ≡ completed
      → AllStarted R app Ready C pr.processes (get_priorities pr) (run R app pr s).0
  unfolding run
  run-started pr s h =
      let r = run_initializers R app pr.initializers s in
      let (q, e) =
        go_on-completed r.1 (run_processes R app pr.processes (get_priorities pr) r.0) r.0
          (λ e. send R e r.0) h in
      subst (λ t. AllStarted R app Ready C pr.processes (get_priorities pr) t.0) (sym e)
        (run_processes-started pr.processes (get_priorities pr) r.0 (ap (λ t. t.1) (sym e) ∙ h))
