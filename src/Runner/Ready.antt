-- ===== src/Runner/Ready.antt =====
-- The runner stops only processes whose `Init` has succeeded.
use nacelle.Prelude.{
  ℕ, String, ◌≡◌, refl, sym, ap, ◌∙◌, inl, inr, Option, none, some, List, [], ◌∷◌, arith, Dict,
  Option-cases, All, ℤ, string_comparable, nat_comparable, int_comparable, bytes_comparable,
}
use mathlib.Core.Path.{subst}
use nacelle.Error.{Error}
use nacelle.Reflect.{Runtime}
use nacelle.Service.Inject.{Object}
use nacelle.Runner.Meta.{ProcessMeta}
use nacelle.Runner.Registry.{processes_at}
use nacelle.Runner.World.{
  World, Application, Execution, InitRun, init_with_timeout, make_timeout_chan, call_init,
  call_stop, send,
}
use nacelle.Runner.Startup.{
  Phase, completed, failed, hung, crashed, init_phase, each, init_process, start_processes,
  init_and_start_processes, report_stop, stop_processes, stop_processes_below_priority,
}
use nacelle.Runner.Keeping.{
  Keeps, each-keeps, init_process-keeps, start_processes-keeps, stop_processes-keeps,
}

-- `initWithTimeout` returns nil only if `Init` has.
pub init_with_timeout-nil :
    (t : ℤ) (run : InitRun)
    → init_with_timeout t run ≡ some none
    → ((d : ℕ) × (run.returns_at ≡ some d)) × (run.result ≡ none)
unfolding init_with_timeout
init_with_timeout-nil t run h = elim (Option-cases run.returns_at) [
  | inl never ↦ elim (Option-cases (make_timeout_chan t)) [
    | inl e ↦ absurd (ground arith)
    | inr (d, e) ↦ absurd (ground arith)
  ]
  | inr (d, returns) ↦ elim (Option-cases (make_timeout_chan t)) [
    | inl e ↦ ((d, returns), ground arith)
    | inr (n, e) ↦ ((d, returns), ground arith)
  ]
]

init_phase-completed :
    (name : String) (r : Option (Option Error)) → init_phase name r ≡ completed → r ≡ some none
init_phase-completed name none h = cc
init_phase-completed name (some none) h = refl
init_phase-completed name (some (some e)) h = cc

-- A step after which the function goes on has completed, and what follows is the result.
pub go_on-completed :
    {S : Type 0} (p : Phase) (k : S × Phase) (s : S) (g : Error → S)
    → let r : S × Phase = elim p as (λ _. S × Phase) [
      | completed ↦ k
      | failed e ↦ (g e, failed e)
      | hung ↦ (s, hung)
      | crashed q ↦ (s, crashed q)
    ] in
      r.1 ≡ completed → (p ≡ completed) × (r ≡ k)
go_on-completed completed k s g h = (refl, refl)
go_on-completed (failed e) k s g h = cc
go_on-completed hung k s g h = cc
go_on-completed (crashed q) k s g h = cc

module _ (R : Runtime) {Memory : Type 0} (app : Application (R.GoType) (R.Value) Memory)
    (Ready : ℕ → World (R.GoType) (R.Value) Memory → Type 0) where
  open R use {GoType, Value}

  -- What a successful `Init` makes true of a process, and nothing makes false again.
  pub record Readies : Type 0 where
    pub lasting : (id : ℕ) → Keeps R app (Ready id)
    pub making :
        (id : ℕ) (w : World GoType Value Memory) (d : ℕ)
        → (app.init id w).1.returns_at ≡ some d
        → (app.init id w).1.result ≡ none
        → Ready id (app.init id w).0

  abbrev pub AllReady : List ProcessMeta → Execution GoType Value Memory → Type 0
  AllReady ms s = All (λ m. Ready m.process s.world) ms

  module _ (C : Readies) where
    init_process-ready :
        (m : ProcessMeta) (s : Execution GoType Value Memory)
        → (init_process R app m s).1 ≡ completed
        → Ready m.process (init_process R app m s).0.world
    unfolding init_process call_init
    init_process-ready m s h =
        let ((d, returns), result) =
          init_with_timeout-nil m.init_timeout _ (init_phase-completed m.name _ h) in
        C.making m.process s.world d returns result

    each-ready :
        (ms : List ProcessMeta) (s : Execution GoType Value Memory)
        → (each (init_process R app) ms s).1 ≡ completed
        → AllReady ms (each (init_process R app) ms s).0
    unfolding each
    each-ready [] s h = tt
    each-ready (m ∷ ms) s h =
        let r = init_process R app m s in
        let (q, e) = go_on-completed r.1 (each (init_process R app) ms r.0) r.0 (λ e. r.0) h in
        let ready : Ready m.process (each (init_process R app) ms r.0).0.world =
          each-keeps (λ t. Ready m.process t.world) (init_process R app) ms r.0
            (init_process-keeps R app (Ready m.process) (C.lasting m.process))
            (init_process-ready m s q) in
        subst (λ t. AllReady (m ∷ ms) t.0) (sym e)
          (ready, each-ready ms r.0 (ap (λ t. t.1) (sym e) ∙ h))

    -- What keeps the property of each process for its own keeps all of them.
    pub all_last :
        (ms : List ProcessMeta) (s s' : Execution GoType Value Memory)
        → ((id : ℕ) → Ready id s.world → Ready id s'.world)
        → AllReady ms s
        → AllReady ms s'
    all_last [] s s' keeps h = tt
    all_last (m ∷ ms) s s' keeps (ready, h) = (keeps m.process ready, all_last ms s s' keeps h)

    pub init_and_start_processes-ready :
        (ms : List ProcessMeta) (s : Execution GoType Value Memory)
        → (init_and_start_processes R app ms s).1 ≡ completed
        → AllReady ms (init_and_start_processes R app ms s).0
    unfolding init_and_start_processes
    init_and_start_processes-ready ms s h =
        let r = each (init_process R app) ms s in
        let (q, e) =
          go_on-completed r.1 (start_processes R app ms r.0, completed) r.0 (λ e. r.0) h in
        subst (λ t. AllReady ms t.0) (sym e)
          (all_last ms r.0 (start_processes R app ms r.0)
            (λ id. start_processes-keeps R app (Ready id) (C.lasting id) ms r.0)
            (each-ready ms s q))

    -- Each process at one of the priorities is ready.
    abbrev pub AllStarted :
        Dict ℤ (List ProcessMeta) → List ℤ → Execution GoType Value Memory → Type 0
    AllStarted processes ps s = All (λ p. AllReady (processes_at processes p) s) ps

    pub started_last :
        (processes : Dict ℤ (List ProcessMeta)) (ps : List ℤ) (s s' : Execution GoType Value Memory)
        → ((id : ℕ) → Ready id s.world → Ready id s'.world)
        → AllStarted processes ps s
        → AllStarted processes ps s'
    started_last processes [] s s' keeps h = tt
    started_last processes (p ∷ ps) s s' keeps (ready, h) = (
      all_last (processes_at processes p) s s' keeps ready,
      started_last processes ps s s' keeps h,
    )

    module _ (Inv : World GoType Value Memory → Type 0) where
      -- A property that injection and `Init` keep, and that `Stop` keeps of a process that is ready.
      pub record Careful : Type 0 where
        pub injecting :
            (w : World GoType Value Memory) (objects : ℕ → Object GoType Value)
            → Inv w
            → Inv (record w { objects = objects })
        pub initializing : (id : ℕ) (w : World GoType Value Memory) → Inv w → Inv (app.init id w).0
        pub stopping :
            (id : ℕ) (w : World GoType Value Memory) → Ready id w → Inv w → Inv (app.stop id w).0

      module _ (I : Careful) where
        report_stop-careful :
            (name : String) (s : Execution GoType Value Memory) (e : Option Error)
            → Inv s.world
            → Inv (report_stop R app name (s, e)).world
        unfolding send
        report_stop-careful name s none h = h
        report_stop-careful name s (some e) h = h

        stop_processes-careful :
            (ms : List ProcessMeta) (s : Execution GoType Value Memory)
            → AllReady ms s
            → Inv s.world
            → Inv (stop_processes R app ms s).world
        unfolding stop_processes call_stop
        stop_processes-careful [] s ready h = h
        stop_processes-careful (m ∷ ms) s (ready, others) h =
            let s' = report_stop R app m.name (call_stop R app m.process s) in
            stop_processes-careful ms s'
              (all_last ms s s'
                (λ id r. stop_processes-keeps R app (Ready id) (C.lasting id) (m ∷ []) s r) others)
              (report_stop-careful m.name _ _ (I.stopping m.process s.world ready h))

        pub stop_below-careful :
            (processes : Dict ℤ (List ProcessMeta)) (below : List ℤ)
            (s : Execution GoType Value Memory)
            → AllStarted processes below s
            → Inv s.world
            → Inv (stop_processes_below_priority R app processes below s).world
        unfolding stop_processes_below_priority
        stop_below-careful processes [] s ready h = h
        stop_below-careful processes (p ∷ below) s (ready, others) h =
            let s' = stop_processes R app (processes_at processes p) s in
            stop_below-careful processes below s'
              (started_last processes below s s'
                (λ id r.
                  stop_processes-keeps R app (Ready id) (C.lasting id) (processes_at processes p) s
                    r)
                others)
              (stop_processes-careful (processes_at processes p) s ready h)
