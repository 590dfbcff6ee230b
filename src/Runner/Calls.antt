-- ===== src/Runner/Calls.antt =====
-- The order of the calls that `Run` makes into the application: initializers, injections, and the
-- processes of each priority.
use nacelle.Prelude.{
  String, ◌≡◌, refl, sym, ap, ◌∙◌, Option, none, some, List, [], ◌∷◌, ◌++◌, append-nil,
  append_assoc, concat_map, string_comparable, nat_comparable, int_comparable,
}
use mathlib.Core.Path.{ap₂}
use nacelle.Error.{Error}
use nacelle.Reflect.{Runtime}
use nacelle.Runner.Meta.{InitializerMeta, ProcessMeta}
use nacelle.Runner.World.{
  Application, Execution, Call, injects, inits, starts, stops, call_inject, call_init, call_stop,
  call_start, send,
}
use nacelle.Runner.Startup.{
  Phase, completed, failed, hung, crashed, each, inject_phase, init_phase, run_initializer,
  run_initializers, inject_process, init_process, start_processes, stop_processes, report_stop,
}

module _ {G V M : Type 0} where
  -- A run made a prefix of the calls `full`, all of them if it completed, and sent no error.
  abbrev pub Ran : List Call → Execution G V M → Execution G V M × Phase → Type 0
  Ran full s r =
      (made : List Call) × (rest : List Call) × (r.0.calls ≡ s.calls ++ made)
      × (full ≡ made ++ rest)
      × (r.1 ≡ completed → rest ≡ [])
      × (r.0.sent ≡ s.sent)

  module _ {A : Type 0} (f : A → Execution G V M → Execution G V M × Phase) (steps : A → List Call)
      (ran : (a : A) (s : Execution G V M) → Ran (steps a) s (f a s)) where
    pub each-Ran : (xs : List A) (s : Execution G V M) → Ran (concat_map steps xs) s (each f xs s)
    unfolding each
    each-Ran [] s = ([], [], sym (append-nil s.calls), refl, λ _. refl, refl)
    each-Ran (a ∷ xs) s = after (f a s) (ran a s) (each-Ran xs (f a s).0)
      where
        after :
            (r : Execution G V M × Phase)
            → Ran (steps a) s r
            → Ran (concat_map steps xs) r.0 (each f xs r.0)
            → Ran (steps a ++ concat_map steps xs) s (elim r.1 [
              | completed ↦ each f xs r.0
              | failed e ↦ (r.0, failed e)
              | hung ↦ (r.0, hung)
              | crashed p ↦ (r.0, crashed p)
            ])
        after (s', completed) (made, rest, c, e, all, q) (made', rest', c', e', all', q') = (
          made ++ made',
          rest',
          c' ∙ ap (λ cs. cs ++ made') c ∙ append_assoc s.calls made made',
          ap₂ ◌++◌ (e ∙ ap (◌++◌ made) (all refl) ∙ append-nil made) e'
              ∙ sym (append_assoc made made' rest'),
          all',
          q' ∙ q,
        )
        after (s', failed x) (made, rest, c, e, all, q) later = (
          made,
          rest ++ concat_map steps xs,
          c,
          ap (λ cs. cs ++ concat_map steps xs) e ∙ append_assoc made rest _,
          λ h. cc,
          q,
        )
        after (s', hung) (made, rest, c, e, all, q) later = (
          made,
          rest ++ concat_map steps xs,
          c,
          ap (λ cs. cs ++ concat_map steps xs) e ∙ append_assoc made rest _,
          λ h. cc,
          q,
        )
        after (s', crashed p) (made, rest, c, e, all, q) later = (
          made,
          rest ++ concat_map steps xs,
          c,
          ap (λ cs. cs ++ concat_map steps xs) e ∙ append_assoc made rest _,
          λ h. cc,
          q,
        )

abbrev pub initializer_calls : InitializerMeta → List Call
initializer_calls m = injects m.initializer ∷ inits m.initializer ∷ []

abbrev pub inject_calls : List ProcessMeta → List Call
inject_calls = concat_map (λ m. injects m.process ∷ [])

abbrev pub init_calls : List ProcessMeta → List Call
init_calls = concat_map (λ m. inits m.process ∷ [])

abbrev pub start_calls : List ProcessMeta → List Call
start_calls = concat_map (λ m. starts m.process ∷ [])

abbrev pub stop_calls : List ProcessMeta → List Call
stop_calls = concat_map (λ m. stops m.process ∷ [])

module _ (R : Runtime) {Memory : Type 0} (app : Application (R.GoType) (R.Value) Memory) where
  open R use {GoType, Value}

  report_stop-calls :
      (name : String) (r : Execution GoType Value Memory × Option Error)
      → (report_stop R app name r).calls ≡ r.0.calls
  unfolding send
  report_stop-calls name (s, none) = refl
  report_stop-calls name (s, some e) = refl

  run_initializer-Ran :
      (m : InitializerMeta) (s : Execution GoType Value Memory)
      → Ran (initializer_calls m) s (run_initializer R app m s)
  unfolding run_initializer call_inject call_init
  run_initializer-Ran m s = after (inject_phase m.name (call_inject R m.initializer s).1)
    where
      after :
          (ph : Phase)
          → Ran (initializer_calls m) s (elim ph [
            | completed ↦ (
              (call_init R app m.initializer m.timeout (call_inject R m.initializer s).0).0,
              init_phase m.name
                  (call_init R app m.initializer m.timeout (call_inject R m.initializer s).0).1,
            )
            | failed e ↦ ((call_inject R m.initializer s).0, failed e)
            | hung ↦ ((call_inject R m.initializer s).0, hung)
            | crashed p ↦ ((call_inject R m.initializer s).0, crashed p)
          ])
      after completed = (initializer_calls m, [], append_assoc s.calls _ _, refl, λ _. refl, refl)
      after (failed e) =
          (injects m.initializer ∷ [], inits m.initializer ∷ [], refl, refl, λ h. cc, refl)
      after hung = (injects m.initializer ∷ [], inits m.initializer ∷ [], refl, refl, λ h. cc, refl)
      after (crashed p) =
          (injects m.initializer ∷ [], inits m.initializer ∷ [], refl, refl, λ h. cc, refl)

  -- Initializers run one at a time in the order of registration, each injected and then initialized:
  -- the calls made are a prefix of that sequence, and the whole of it if all of them succeed.
  pub run_initializers-Ran :
      (ms : List InitializerMeta) (s : Execution GoType Value Memory)
      → Ran (concat_map initializer_calls ms) s (run_initializers R app ms s)
  unfolding run_initializers
  run_initializers-Ran ms s =
      each-Ran (run_initializer R app) initializer_calls run_initializer-Ran ms s

  pub inject_process-Ran :
      (m : ProcessMeta) (s : Execution GoType Value Memory)
      → Ran (injects m.process ∷ []) s (inject_process R app m s)
  unfolding inject_process call_inject
  inject_process-Ran m s = (injects m.process ∷ [], [], refl, refl, λ _. refl, refl)

  pub init_process-Ran :
      (m : ProcessMeta) (s : Execution GoType Value Memory)
      → Ran (inits m.process ∷ []) s (init_process R app m s)
  unfolding init_process call_init
  init_process-Ran m s = (inits m.process ∷ [], [], refl, refl, λ _. refl, refl)

  pub start_processes_lem :
      (ms : List ProcessMeta) (s : Execution GoType Value Memory)
      → ((start_processes R app ms s).calls ≡ s.calls ++ start_calls ms)
        × ((start_processes R app ms s).sent ≡ s.sent)
  unfolding start_processes call_start
  start_processes_lem [] s = (sym (append-nil s.calls), refl)
  start_processes_lem (m ∷ ms) s =
      let (c, e) = start_processes_lem ms (call_start R m.process s) in
      (c ∙ append_assoc s.calls (starts m.process ∷ []) (start_calls ms), e)

  pub stop_processes-calls :
      (ms : List ProcessMeta) (s : Execution GoType Value Memory)
      → (stop_processes R app ms s).calls ≡ s.calls ++ stop_calls ms
  unfolding stop_processes call_stop send
  stop_processes-calls [] s = sym (append-nil s.calls)
  stop_processes-calls (m ∷ ms) s =
      stop_processes-calls ms _
      ∙ ap (λ cs. cs ++ stop_calls ms) (report_stop-calls m.name (call_stop R app m.process s))
      ∙ append_assoc s.calls (stops m.process ∷ []) (stop_calls ms)
