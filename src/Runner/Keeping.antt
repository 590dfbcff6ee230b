-- ===== src/Runner/Keeping.antt =====
-- What the runner leaves true: it changes the world by the calls into the application and by
-- injection only.
use nacelle.Prelude.{
  ℕ, String, Option, none, some, List, [], ◌∷◌, Dict, ℤ, string_comparable, nat_comparable,
  int_comparable, bytes_comparable,
}
use nacelle.Error.{Error}
use nacelle.Reflect.{Runtime}
use nacelle.Service.Inject.{Object}
use nacelle.Runner.Meta.{InitializerMeta, ProcessMeta}
use nacelle.Runner.Registry.{ProcessRunner, processes_at, get_priorities}
use nacelle.Runner.World.{
  World, Application, Execution, call_inject, call_init, call_stop, call_start, send,
}
use nacelle.Runner.Startup.{
  Phase, completed, failed, hung, crashed, inject_phase, each, run_initializer, run_initializers,
  inject_process, init_process, start_processes, init_and_start_processes, report_stop,
  stop_processes, stop_processes_below_priority, inject_processes, start_priorities, run_processes,
  run,
}

-- A step that goes on after `completed` keeps what holds of its state on every way out.
module _ {S : Type 0} (P : S → Type 0) where
  pub go_on :
      (p : Phase) (k : S × Phase) (s : S) (g : Error → S)
      → P k.0
      → P s
      → ((e : Error) → P (g e))
      → P
          (elim p as (λ _. S × Phase) [
            | completed ↦ k
            | failed e ↦ (g e, failed e)
            | hung ↦ (s, hung)
            | crashed q ↦ (s, crashed q)
          ]).0
  go_on completed k s g hk hs hg = hk
  go_on (failed e) k s g hk hs hg = hg e
  go_on hung k s g hk hs hg = hs
  go_on (crashed q) k s g hk hs hg = hs

  pub each-keeps :
      {A : Type 0} (f : A → S → S × Phase) (as' : List A) (s : S)
      → ((a : A) (t : S) → P t → P (f a t).0)
      → P s
      → P (each f as' s).0
  unfolding each
  each-keeps f [] s keeps h = h
  each-keeps f (a ∷ as') s keeps h =
      let h' = keeps a s h in
      go_on (f a s).1 (each f as' (f a s).0) (f a s).0 (λ e. (f a s).0)
        (each-keeps f as' (f a s).0 keeps h') h' (λ e. h')

module _ (R : Runtime) {Memory : Type 0} (app : Application (R.GoType) (R.Value) Memory)
    (Inv : World (R.GoType) (R.Value) Memory → Type 0) where
  open R use {GoType, Value}

  -- A property of the world that injection and the application keep.
  pub record Keeps : Type 0 where
    pub injecting :
        (w : World GoType Value Memory) (objects : ℕ → Object GoType Value)
        → Inv w
        → Inv (record w { objects = objects })
    pub initializing : (id : ℕ) (w : World GoType Value Memory) → Inv w → Inv (app.init id w).0
    pub stopping : (id : ℕ) (w : World GoType Value Memory) → Inv w → Inv (app.stop id w).0

  module _ (K : Keeps) where
    abbrev pub Holds : Execution GoType Value Memory → Type 0
    Holds s = Inv s.world

    pub call_inject-keeps :
        (id : ℕ) (s : Execution GoType Value Memory) → Holds s → Holds (call_inject R id s).0
    unfolding call_inject
    call_inject-keeps id s h = K.injecting s.world _ h

    pub run_initializer-keeps :
        (m : InitializerMeta) (s : Execution GoType Value Memory)
        → Holds s
        → Holds (run_initializer R app m s).0
    unfolding run_initializer call_init
    run_initializer-keeps m s h =
        let h' = call_inject-keeps m.initializer s h in
        go_on Holds (inject_phase m.name (call_inject R m.initializer s).1) _
          (call_inject R m.initializer s).0 (λ e. (call_inject R m.initializer s).0)
          (K.initializing m.initializer _ h') h' (λ e. h')

    pub inject_process-keeps :
        (m : ProcessMeta) (s : Execution GoType Value Memory)
        → Holds s
        → Holds (inject_process R app m s).0
    unfolding inject_process
    inject_process-keeps m s h = call_inject-keeps m.process s h

    pub init_process-keeps :
        (m : ProcessMeta) (s : Execution GoType Value Memory)
        → Holds s
        → Holds (init_process R app m s).0
    unfolding init_process call_init
    init_process-keeps m s h = K.initializing m.process s.world h

    pub start_processes-keeps :
        (ms : List ProcessMeta) (s : Execution GoType Value Memory)
        → Holds s
        → Holds (start_processes R app ms s)
    unfolding start_processes call_start
    start_processes-keeps [] s h = h
    start_processes-keeps (m ∷ ms) s h = start_processes-keeps ms (call_start R m.process s) h

    pub init_and_start_processes-keeps :
        (ms : List ProcessMeta) (s : Execution GoType Value Memory)
        → Holds s
        → Holds (init_and_start_processes R app ms s).0
    unfolding init_and_start_processes
    init_and_start_processes-keeps ms s h =
        let r = each (init_process R app) ms s in
        let h' = each-keeps Holds (init_process R app) ms s init_process-keeps h in
        go_on Holds r.1 (start_processes R app ms r.0, completed) r.0 (λ e. r.0)
          (start_processes-keeps ms r.0 h') h' (λ e. h')

    report_stop-keeps :
        (name : String) (s : Execution GoType Value Memory) (e : Option Error)
        → Holds s
        → Holds (report_stop R app name (s, e))
    unfolding send
    report_stop-keeps name s none h = h
    report_stop-keeps name s (some e) h = h

    pub stop_processes-keeps :
        (ms : List ProcessMeta) (s : Execution GoType Value Memory)
        → Holds s
        → Holds (stop_processes R app ms s)
    unfolding stop_processes call_stop
    stop_processes-keeps [] s h = h
    stop_processes-keeps (m ∷ ms) s h =
        stop_processes-keeps ms (report_stop R app m.name (call_stop R app m.process s))
          (report_stop-keeps m.name _ _ (K.stopping m.process s.world h))

    module _ (processes : Dict ℤ (List ProcessMeta)) where
      pub stop_below-keeps :
          (below : List ℤ) (s : Execution GoType Value Memory)
          → Holds s
          → Holds (stop_processes_below_priority R app processes below s)
      unfolding stop_processes_below_priority
      stop_below-keeps [] s h = h
      stop_below-keeps (p ∷ below) s h =
          stop_below-keeps below (stop_processes R app (processes_at processes p) s)
            (stop_processes-keeps (processes_at processes p) s h)

      pub start_priorities-keeps :
          (ps below : List ℤ) (s : Execution GoType Value Memory)
          → Holds s
          → Holds (start_priorities R app processes below ps s).0
      unfolding start_priorities send
      start_priorities-keeps [] below s h = h
      start_priorities-keeps (p ∷ ps) below s h =
          let r = init_and_start_processes R app (processes_at processes p) s in
          let h' = init_and_start_processes-keeps (processes_at processes p) s h in
          go_on Holds r.1 (start_priorities R app processes (p ∷ below) ps r.0) r.0
            (λ e. stop_processes_below_priority R app processes below (send R e r.0))
            (start_priorities-keeps ps (p ∷ below) r.0 h') h'
            (λ e. stop_below-keeps below (send R e r.0) h')

      run_processes-keeps :
          (ps : List ℤ) (s : Execution GoType Value Memory)
          → Holds s
          → Holds (run_processes R app processes ps s).0
      unfolding run_processes inject_processes send
      run_processes-keeps ps s h =
          let r = inject_processes R app processes ps s in
          let h' : Holds r.0 =
            each-keeps Holds (λ p. each (inject_process R app) (processes_at processes p)) ps s
              (λ p t ht.
                each-keeps Holds (inject_process R app) (processes_at processes p) t
                  inject_process-keeps ht)
              h in
          go_on Holds r.1 (start_priorities R app processes [] ps r.0) r.0 (λ e. send R e r.0)
            (start_priorities-keeps ps [] r.0 h') h' (λ e. h')

    -- `Run` leaves the property true, however it ends.
    pub run-keeps :
        (pr : ProcessRunner) (s : Execution GoType Value Memory)
        → Holds s
        → Holds (run R app pr s).0
    unfolding run run_initializers send
    run-keeps pr s h =
        let r = run_initializers R app pr.initializers s in
        let h' : Holds r.0 =
          each-keeps Holds (run_initializer R app) pr.initializers s run_initializer-keeps h in
        go_on Holds r.1 (run_processes R app pr.processes (get_priorities pr) r.0) r.0
          (λ e. send R e r.0) (run_processes-keeps pr.processes (get_priorities pr) r.0 h') h'
          (λ e. h')
