-- ===== src/Boot/Failing.antt =====
-- A run that fails has sent an error, and nothing takes an error back from the channel.
use nacelle.Prelude.{
  ◌+◌, ◌≤◌, String, ◌≡◌, inl, inr, Option, none, some, List, [], ◌∷◌, arith, Dict, Option-cases,
  length, length-append, ℤ, string_comparable, nat_comparable, int_comparable, bytes_comparable,
}
use nacelle.Error.{Error, stop_failed}
use nacelle.Reflect.{Runtime}
use nacelle.Runner.Meta.{ProcessMeta, display_name}
use nacelle.Runner.Registry.{ProcessRunner, processes_at, get_priorities}
use nacelle.Runner.World.{Application, Execution, send, call_stop}
use nacelle.Runner.Startup.{
  Phase, completed, failed, hung, crashed, report_stop, stop_processes,
  stop_processes_below_priority, inject_processes, init_and_start_processes, start_priorities,
  run_processes, run_initializers, run,
}
use nacelle.Runner.Watch.Loop.{ErrMeta, drain}

module _ (R : Runtime) {Memory : Type 0} (app : Application (R.GoType) (R.Value) Memory) where
  open R use {GoType, Value}

  send-grows :
      (e : Error) (s : Execution GoType Value Memory) → length (send R e s).sent ≡ length s.sent + 1
  unfolding send
  send-grows e s = omega (arith, length-append {0} s.sent (e ∷ []))

  report_stop-grows :
      (name : String) (s : Execution GoType Value Memory) (e : Option Error)
      → length s.sent ≤ length (report_stop R app name (s, e)).sent
  report_stop-grows name s none = omega arith
  report_stop-grows name s (some e) =
      omega (arith, send-grows (stop_failed (display_name name) e) s)

  stop_processes-grows :
      (ms : List ProcessMeta) (s : Execution GoType Value Memory)
      → length s.sent ≤ length (stop_processes R app ms s).sent
  unfolding stop_processes call_stop
  stop_processes-grows [] s = omega arith
  stop_processes-grows (m ∷ ms) s =
      let (s', e) = call_stop R app m.process s in
      omega (
        arith,
        report_stop-grows m.name s' e,
        stop_processes-grows ms (report_stop R app m.name (s', e)),
      )

  stop_below-grows :
      (processes : Dict ℤ (List ProcessMeta)) (below : List ℤ) (s : Execution GoType Value Memory)
      → length s.sent ≤ length (stop_processes_below_priority R app processes below s).sent
  unfolding stop_processes_below_priority
  stop_below-grows processes [] s = omega arith
  stop_below-grows processes (p ∷ below) s = omega (
    arith,
    stop_processes-grows (processes_at processes p) s,
    stop_below-grows processes below (stop_processes R app (processes_at processes p) s),
  )

  pub drain-grows :
      (results : List ErrMeta) (s : Execution GoType Value Memory)
      → length s.sent ≤ length (drain R results s).sent
  unfolding drain
  drain-grows [] s = omega arith
  drain-grows (m ∷ ms) s = elim (Option-cases m.error) [
    | inl clean ↦ ground (arith, drain-grows ms s)
    | inr (e, q) ↦ ground (arith, send-grows e s, drain-grows ms (send R e s))
  ]

  -- A result that is a failure has an error on the channel.
  abbrev pub Reports : Execution GoType Value Memory × Phase → Type 0
  Reports r = (e : Error) → r.1 ≡ failed e → 1 ≤ length r.0.sent

  -- Where a step fails, its error is sent.
  Reports-step :
      (r next : Execution GoType Value Memory × Phase)
      (stopped : Error → Execution GoType Value Memory)
      → Reports next
      → ((e : Error) → 1 ≤ length (stopped e).sent)
      → Reports (elim r.1 as (λ _. Execution GoType Value Memory × Phase) [
        | completed ↦ next
        | failed e ↦ (stopped e, failed e)
        | hung ↦ (r.0, hung)
        | crashed p ↦ (r.0, crashed p)
      ])
  Reports-step (s, completed) next stopped n h = n
  Reports-step (s, failed e) next stopped n h = λ e' q. h e
  Reports-step (s, hung) next stopped n h = λ e' q. cc
  Reports-step (s, crashed p) next stopped n h = λ e' q. cc

  start_priorities-Reports :
      (processes : Dict ℤ (List ProcessMeta)) (below ps : List ℤ)
      (s : Execution GoType Value Memory)
      → Reports (start_priorities R app processes below ps s)
  unfolding start_priorities
  start_priorities-Reports processes below [] s = λ e q. cc
  start_priorities-Reports processes below (p ∷ ps) s =
      let r = init_and_start_processes R app (processes_at processes p) s in
      Reports-step r (start_priorities R app processes (p ∷ below) ps r.0)
        (λ e. stop_processes_below_priority R app processes below (send R e r.0))
        (start_priorities-Reports processes (p ∷ below) ps r.0)
        (λ e. omega (arith, send-grows e r.0, stop_below-grows processes below (send R e r.0)))

  pub run-Reports :
      (pr : ProcessRunner) (s : Execution GoType Value Memory) → Reports (run R app pr s)
  unfolding run run_processes
  run-Reports pr s =
      let r = run_initializers R app pr.initializers s in
      let r' = inject_processes R app pr.processes (get_priorities pr) r.0 in
      Reports-step r (run_processes R app pr.processes (get_priorities pr) r.0) (λ e. send R e r.0)
        (Reports-step r' (start_priorities R app pr.processes [] (get_priorities pr) r'.0)
          (λ e. send R e r'.0) (start_priorities-Reports pr.processes [] (get_priorities pr) r'.0)
          (λ e. omega (arith, send-grows e r'.0)))
        (λ e. omega (arith, send-grows e r.0))
