-- ===== src/Runner/Capacity.antt =====
-- `Run` makes `errChan` with room for `numProcesses * 2 + 1` errors, so that no send on it waits for
-- a reader: on no path are more errors sent.
use nacelle.Prelude.{
  ℕ, ◌+◌, ◌*◌, ◌≤◌, ◌≡◌, refl, ap, ◌∙◌, inl, inr, List, [], ◌∷◌, arith, Dict, Option-cases, length,
  ℤ, string_comparable, nat_comparable, int_comparable,
}
use nacelle.Reflect.{Runtime}
use nacelle.Runner.Meta.{ProcessMeta}
use nacelle.Runner.Registry.{ProcessRunner, processes_at, get_priorities}
use nacelle.Runner.World.{Application, Execution, Call, send}
use nacelle.Runner.Startup.{
  Phase, completed, failed, hung, crashed, each, inject_process, init_process, start_processes,
  init_and_start_processes, stop_processes_below_priority, inject_processes, start_priorities,
  run_processes, run_initializers, run,
}
use nacelle.Runner.Calls.{
  Ran, each-Ran, init_process-Ran, inject_process-Ran, start_processes_lem, run_initializers-Ran,
}
use nacelle.Runner.Count.{count_at}
use nacelle.Runner.Registered.{IsRegistered, get_priorities_lem}
use nacelle.Runner.Watch.Loop.{ErrMeta, Event, new_watch, watch, drain}
use nacelle.Runner.Watch.Errors.{
  watch-sent, start_results, send-length, stop_processes_below_priority-sent,
}

-- `make(chan error, pr.numProcesses*2+1)`
unfoldable pub err_chan_capacity : ProcessRunner → ℕ
err_chan_capacity pr = pr.num_processes * 2 + 1

module _ (R : Runtime) {Memory : Type 0} (app : Application (R.GoType) (R.Value) Memory) where
  open R use {GoType, Value}

  -- A run that completes has sent nothing, and any other run at most `n` errors.
  abbrev SendsAtMost :
      ℕ → Execution GoType Value Memory → Execution GoType Value Memory × Phase → Type 0
  SendsAtMost n s r = (r.1 ≡ completed → r.0.sent ≡ s.sent) × (length r.0.sent ≤ length s.sent + n)

  SendsAtMost-run :
      {full : List Call} (s : Execution GoType Value Memory)
      (r : Execution GoType Value Memory × Phase)
      → Ran full s r
      → SendsAtMost 0 s r
  SendsAtMost-run s r (made, rest, c, e, all, q) = (λ h. q, omega (arith, ap length q))

  init_and_start_processes-sent :
      (ms : List ProcessMeta) (s : Execution GoType Value Memory)
      → SendsAtMost 0 s (init_and_start_processes R app ms s)
  unfolding init_and_start_processes
  init_and_start_processes-sent ms s = after (each (init_process R app) ms s) (
      SendsAtMost-run s (each (init_process R app) ms s)
        (each-Ran (init_process R app) _ (init_process-Ran R app) ms s))
    where
      after :
          (r : Execution GoType Value Memory × Phase)
          → SendsAtMost 0 s r
          → SendsAtMost 0 s (elim r.1 [
            | completed ↦ (start_processes R app ms r.0, completed)
            | failed e ↦ (r.0, failed e)
            | hung ↦ (r.0, hung)
            | crashed p ↦ (r.0, crashed p)
          ])
      after (s', completed) (q, n) =
          let q' = (start_processes_lem R app ms s').1 in
          (λ h. q' ∙ q refl, omega (arith, ap length q', ap length (q refl)))
      after (s', failed e) (q, n) = (λ h. cc, n)
      after (s', hung) (q, n) = (λ h. cc, n)
      after (s', crashed p) (q, n) = (λ h. cc, n)

  module _ (processes : Dict ℤ (List ProcessMeta)) where
    start_priorities-sent :
        (below ps : List ℤ) (s : Execution GoType Value Memory)
        → SendsAtMost
            (1 + count_at processes below + count_at processes ps)
            s
            (start_priorities R app processes below ps s)
    unfolding start_priorities
    start_priorities-sent below [] s = (λ h. refl, omega arith)
    start_priorities-sent below (p ∷ ps) s =
        after (init_and_start_processes R app (processes_at processes p) s)
          (init_and_start_processes-sent (processes_at processes p) s)
          (start_priorities-sent (p ∷ below) ps _)
      where
        after :
            (r : Execution GoType Value Memory × Phase)
            → SendsAtMost 0 s r
            → SendsAtMost
                (1 + count_at processes (p ∷ below) + count_at processes ps)
                r.0
                (start_priorities R app processes (p ∷ below) ps r.0)
            → SendsAtMost (1 + count_at processes below + count_at processes (p ∷ ps)) s (elim r.1 [
              | completed ↦ start_priorities R app processes (p ∷ below) ps r.0
              | failed e ↦
                  (stop_processes_below_priority R app processes below (send R e r.0), failed e)
              | hung ↦ (r.0, hung)
              | crashed q ↦ (r.0, crashed q)
            ])
        after (s', completed) (q, n) (q', n') = (λ h. q' h ∙ q refl, omega arith)
        after (s', failed e) (q, n) later = (
          λ h. cc,
          omega (
            arith,
            stop_processes_below_priority-sent R app processes [] below (send R e s'),
            send-length R app processes [] e s',
          ),
        )
        after (s', hung) (q, n) later = (λ h. cc, omega arith)
        after (s', crashed c) (q, n) later = (λ h. cc, omega arith)

    run_processes-sent :
        (ps : List ℤ) (s : Execution GoType Value Memory)
        → SendsAtMost (1 + count_at processes ps) s (run_processes R app processes ps s)
    unfolding run_processes inject_processes
    run_processes-sent ps s =
        after (each (λ p. each (inject_process R app) (processes_at processes p)) ps s)
          (SendsAtMost-run s
            (each (λ p. each (inject_process R app) (processes_at processes p)) ps s)
            (each-Ran (λ p. each (inject_process R app) (processes_at processes p)) _
              (λ p.
                each-Ran (inject_process R app) _ (inject_process-Ran R app)
                  (processes_at processes p))
              ps s))
          (start_priorities-sent [] ps _)
      where
        after :
            (r : Execution GoType Value Memory × Phase)
            → SendsAtMost 0 s r
            → SendsAtMost
                (1 + 0 + count_at processes ps)
                r.0
                (start_priorities R app processes [] ps r.0)
            → SendsAtMost (1 + count_at processes ps) s (elim r.1 [
              | completed ↦ start_priorities R app processes [] ps r.0
              | failed e ↦ (send R e r.0, failed e)
              | hung ↦ (r.0, hung)
              | crashed q ↦ (r.0, crashed q)
            ])
        after (s', completed) (q, n) (q', n') = (λ h. q' h ∙ q refl, omega arith)
        after (s', failed e) (q, n) later =
            (λ h. cc, omega (arith, send-length R app processes [] e s'))
        after (s', hung) (q, n) later = (λ h. cc, omega arith)
        after (s', crashed c) (q, n) later = (λ h. cc, omega arith)

  run-sent :
      (pr : ProcessRunner) (s : Execution GoType Value Memory)
      → SendsAtMost (1 + count_at pr.processes (get_priorities pr)) s (run R app pr s)
  unfolding run
  run-sent pr s =
      after (run_initializers R app pr.initializers s)
        (SendsAtMost-run s (run_initializers R app pr.initializers s)
          (run_initializers-Ran R app pr.initializers s))
        (run_processes-sent pr.processes (get_priorities pr) _)
    where
      after :
          (r : Execution GoType Value Memory × Phase)
          → SendsAtMost 0 s r
          → SendsAtMost
              (1 + count_at pr.processes (get_priorities pr))
              r.0
              (run_processes R app pr.processes (get_priorities pr) r.0)
          → SendsAtMost (1 + count_at pr.processes (get_priorities pr)) s (elim r.1 [
            | completed ↦ run_processes R app pr.processes (get_priorities pr) r.0
            | failed e ↦ (send R e r.0, failed e)
            | hung ↦ (r.0, hung)
            | crashed q ↦ (r.0, crashed q)
          ])
      after (s', completed) (q, n) (q', n') = (λ h. q' h ∙ q refl, omega arith)
      after (s', failed e) (q, n) later = (λ h. cc, omega (arith, send-length R app [] [] e s'))
      after (s', hung) (q, n) later = (λ h. cc, omega arith)
      after (s', crashed c) (q, n) later = (λ h. cc, omega arith)

  drain-sent :
      (ms : List ErrMeta) (s : Execution GoType Value Memory)
      → length (drain R ms s).sent ≤ length s.sent + length ms
  unfolding drain
  drain-sent [] s = omega arith
  drain-sent (m ∷ ms) s = elim (Option-cases m.error) [
    | inl clean ↦ rw (clean, drain) (omega (arith, drain-sent ms s))
    | inr (e, q) ↦
        rw (q, drain) (omega (arith, drain-sent ms (send R e s), send-length R app [] [] e s))
  ]

  -- Where `Run` begins with nothing sent, it sends at most as many errors as `errChan` has room for,
  -- and none if every process starts. The errors forwarded after a priority failed to start
  -- are included, of at most `numProcesses` processes that return; and so are those of the watch
  -- that follows when every process starts, whatever its events, if at most `numProcesses`
  -- processes return.
  pub errors-le-capacity :
      (pr : ProcessRunner)
      → IsRegistered pr
      → (s : Execution GoType Value Memory) (results : List ErrMeta) (events : List Event)
      → s.sent ≡ []
      → length results ≤ pr.num_processes
      → start_results events ≤ pr.num_processes
      → let r = run R app pr s in
        (length (drain R results r.0).sent ≤ err_chan_capacity pr)
        × (r.1 ≡ completed
            → (r.0.sent ≡ [])
              × (length
                    (watch R app pr.processes
                      (get_priorities pr)
                      (new_watch r.0)
                      events).execution.sent
                  ≤ err_chan_capacity pr))
  unfolding err_chan_capacity
  errors-le-capacity pr v s results events nothing few_results few_events =
      let r = run R app pr s in
      let count = (get_priorities_lem pr v).2 in
      let (q, n) = run-sent pr s in
      (
        omega (arith, n, count, drain-sent results r.0, ap length nothing),
        λ h. (
          q h ∙ nothing,
          omega (
            arith,
            count,
            ap length (q h ∙ nothing),
            watch-sent R app pr.processes (get_priorities pr) (new_watch r.0) events,
          ),
        ),
      )
