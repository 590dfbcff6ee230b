-- ===== src/Runner/Order.antt =====
-- The order of the calls of `runProcesses`, priority by priority, and what an error undoes.
use nacelle.Prelude.{
  ◌≡◌, refl, sym, ap, ◌∙◌, ◌≢◌, ◌⊎◌, inl, inr, List, [], ◌∷◌, ◌++◌, append-nil, append_assoc, Dict,
  concat_map, ℤ, string_comparable, nat_comparable, int_comparable,
}
use mathlib.Core.Path.{subst}
use mathlib.Core.List.{reverse, reverse-cons}
use nacelle.Error.{Error}
use nacelle.Reflect.{Runtime}
use nacelle.Runner.Meta.{ProcessMeta}
use nacelle.Runner.Registry.{processes_at}
use nacelle.Runner.World.{Application, Execution, Call, send}
use nacelle.Runner.Startup.{
  Phase, completed, failed, hung, crashed, each, inject_process, init_process, start_processes,
  init_and_start_processes, stop_processes_below_priority, inject_processes, start_priorities,
  run_processes,
}
use nacelle.Runner.Calls.{
  Ran, each-Ran, inject_calls, init_calls, start_calls, stop_calls, inject_process-Ran,
  init_process-Ran, start_processes_lem, stop_processes-calls,
}

module _ (R : Runtime) {Memory : Type 0} (app : Application (R.GoType) (R.Value) Memory)
    (processes : Dict ℤ (List ProcessMeta)) where
  open R use {GoType, Value}

  abbrev pub injection_calls : List ℤ → List Call
  injection_calls = concat_map (λ p. inject_calls (processes_at processes p))

  -- All processes of a priority are initialized, and then all are started.
  abbrev pub group_calls : ℤ → List Call
  group_calls p = init_calls (processes_at processes p) ++ start_calls (processes_at processes p)

  abbrev pub stopping_calls : List ℤ → List Call
  stopping_calls = concat_map (λ p. stop_calls (processes_at processes p))

  -- What follows an interruption: only an error stops the priorities that were started.
  abbrev pub cleanup : Phase → List ℤ → List Call
  cleanup (failed e) started = stopping_calls started
  cleanup _ started = []

  -- The start was interrupted at a priority `p`: those before it had started, some processes of `p`
  -- were initialized and none started, and nothing was done for the priorities behind it.
  abbrev pub InterruptedAt :
      List ℤ → List ℤ → List Call → Execution GoType Value Memory × Phase → Type 0
  InterruptedAt below ps before r =
      (pre : List ℤ) × (p : ℤ) × (post : List ℤ) × (made : List Call) × (rest : List Call) × (ps
        ≡ pre ++ p ∷ post)
      × (init_calls (processes_at processes p) ≡ made ++ rest)
      × (r.0.calls
          ≡ before ++ (concat_map group_calls pre ++ (made ++ cleanup r.1 (reverse pre ++ below))))

  abbrev pub StartResult :
      List ℤ → List ℤ → List Call → Execution GoType Value Memory × Phase → Type 0
  StartResult below ps before r =
      ((r.1 ≡ completed) × (r.0.calls ≡ before ++ concat_map group_calls ps))
      ⊎ ((r.1 ≢ completed) × InterruptedAt below ps before r)

  abbrev GroupResult :
      List ProcessMeta
      → Execution GoType Value Memory
      → Execution GoType Value Memory × Phase
      → Type 0
  GroupResult ms s r =
      ((r.1 ≡ completed) × (r.0.calls ≡ s.calls ++ (init_calls ms ++ start_calls ms)))
      ⊎ ((r.1 ≢ completed)
          × ((made : List Call) × (rest : List Call) × (init_calls ms ≡ made ++ rest)
              × (r.0.calls ≡ s.calls ++ made)))

  init_and_start_processes_lem :
      (ms : List ProcessMeta) (s : Execution GoType Value Memory)
      → GroupResult ms s (init_and_start_processes R app ms s)
  unfolding init_and_start_processes
  init_and_start_processes_lem ms s =
      after (each (init_process R app) ms s)
        (each-Ran (init_process R app) _ (init_process-Ran R app) ms s)
    where
      after :
          (r : Execution GoType Value Memory × Phase)
          → Ran (init_calls ms) s r
          → GroupResult ms s (elim r.1 [
            | completed ↦ (start_processes R app ms r.0, completed)
            | failed e ↦ (r.0, failed e)
            | hung ↦ (r.0, hung)
            | crashed p ↦ (r.0, crashed p)
          ])
      after (s', completed) (made, rest, c, e, all, q) = inl (
        refl,
        (start_processes_lem R app ms s').0
            ∙ ap (λ cs. cs ++ start_calls ms)
                (c ∙ ap (◌++◌ s.calls) (sym (e ∙ ap (◌++◌ made) (all refl) ∙ append-nil made)))
            ∙ append_assoc s.calls (init_calls ms) (start_calls ms),
      )
      after (s', failed x) (made, rest, c, e, all, q) = inr ((λ h. cc), (made, rest, e, c))
      after (s', hung) (made, rest, c, e, all, q) = inr ((λ h. cc), (made, rest, e, c))
      after (s', crashed p) (made, rest, c, e, all, q) = inr ((λ h. cc), (made, rest, e, c))

  pub stop_processes_below_priority-calls :
      (ps : List ℤ) (s : Execution GoType Value Memory)
      → (stop_processes_below_priority R app processes ps s).calls ≡ s.calls ++ stopping_calls ps
  unfolding stop_processes_below_priority
  stop_processes_below_priority-calls [] s = sym (append-nil s.calls)
  stop_processes_below_priority-calls (p ∷ ps) s =
      stop_processes_below_priority-calls ps _
      ∙ ap (λ cs. cs ++ stopping_calls ps) (stop_processes-calls R app (processes_at processes p) s)
      ∙ append_assoc s.calls (stop_calls (processes_at processes p)) (stopping_calls ps)

  send-calls : (e : Error) (s : Execution GoType Value Memory) → (send R e s).calls ≡ s.calls
  unfolding send
  send-calls e s = refl

  StartResult-cons :
      (below ps : List ℤ) (p : ℤ) (before after : List Call)
      (r : Execution GoType Value Memory × Phase)
      → after ≡ before ++ group_calls p
      → StartResult (p ∷ below) ps after r
      → StartResult below (p ∷ ps) before r
  StartResult-cons below ps p before after r e (inl (all, c)) = inl (
    all,
    c ∙ ap (λ cs. cs ++ concat_map group_calls ps) e ∙ append_assoc before (group_calls p) _,
  )
  StartResult-cons below ps p before after r e
        (inr (some_left, (pre, q, post, made, rest, x, y, c))) =
      inr (
        some_left,
        (
          p ∷ pre,
          q,
          post,
          made,
          rest,
          ap (◌∷◌ p) x,
          y,
          c
              ∙ ap
                  (λ cs.
                    cs
                    ++ (concat_map group_calls pre
                        ++ (made ++ cleanup r.1 (reverse pre ++ p ∷ below))))
                  e
              ∙ append_assoc before (group_calls p) _
              ∙ ap (λ cs. before ++ cs)
                  (sym (append_assoc (group_calls p) (concat_map group_calls pre) _))
              ∙ ap
                  (λ ds.
                    before
                    ++ ((group_calls p ++ concat_map group_calls pre) ++ (made ++ cleanup r.1 ds)))
                  regroup,
        ),
      )
    where
      regroup : reverse pre ++ p ∷ below ≡ reverse (p ∷ pre) ++ below
      regroup =
          sym (
            ap (λ ds. ds ++ below) (reverse-cons p pre) ∙ append_assoc (reverse pre) (p ∷ []) below)

  pub start_priorities_lem :
      (below ps : List ℤ) (s : Execution GoType Value Memory)
      → StartResult below ps s.calls (start_priorities R app processes below ps s)
  unfolding start_priorities
  start_priorities_lem below [] s = inl (refl, sym (append-nil s.calls))
  start_priorities_lem below (p ∷ ps) s =
      after (init_and_start_processes R app (processes_at processes p) s)
        (init_and_start_processes_lem (processes_at processes p) s)
        (start_priorities_lem (p ∷ below) ps _)
    where
      after :
          (r : Execution GoType Value Memory × Phase)
          → GroupResult (processes_at processes p) s r
          → StartResult
              (p ∷ below)
              ps
              r.0.calls
              (start_priorities R app processes (p ∷ below) ps r.0)
          → StartResult below (p ∷ ps) s.calls (elim r.1 [
            | completed ↦ start_priorities R app processes (p ∷ below) ps r.0
            | failed e ↦
                (stop_processes_below_priority R app processes below (send R e r.0), failed e)
            | hung ↦ (r.0, hung)
            | crashed q ↦ (r.0, crashed q)
          ])
      after (s', completed) (inl (_, c)) later =
          StartResult-cons below ps p s.calls s'.calls
            (start_priorities R app processes (p ∷ below) ps s') c later
      after (s', completed) (inr (stuck, _)) later = absurd (stuck refl)
      after (s', failed x) (inl (h, _)) later = cc
      after (s', failed x) (inr (_, (made, rest, y, c))) later = inr (
        (λ h. cc),
        (
          [],
          p,
          ps,
          made,
          rest,
          refl,
          y,
          stop_processes_below_priority-calls below (send R x s')
              ∙ ap (λ cs. cs ++ stopping_calls below) (send-calls x s' ∙ c)
              ∙ append_assoc s.calls made (stopping_calls below),
        ),
      )
      after (s', hung) (inl (h, _)) later = cc
      after (s', hung) (inr (_, (made, rest, y, c))) later = inr (
        (λ h. cc),
        ([], p, ps, made, rest, refl, y, c ∙ ap (◌++◌ s.calls) (sym (append-nil made))),
      )
      after (s', crashed q) (inl (h, _)) later = cc
      after (s', crashed q) (inr (_, (made, rest, y, c))) later = inr (
        (λ h. cc),
        ([], p, ps, made, rest, refl, y, c ∙ ap (◌++◌ s.calls) (sym (append-nil made))),
      )

  abbrev pub RunResult : List ℤ → List Call → Execution GoType Value Memory × Phase → Type 0
  RunResult ps before r =
      StartResult [] ps (before ++ injection_calls ps) r
      ⊎ ((r.1 ≢ completed)
          × ((made : List Call) × (rest : List Call) × (injection_calls ps ≡ made ++ rest)
              × (r.0.calls ≡ before ++ made)))

  -- `runProcesses` injects every process before it initializes any; then, priority by priority, it
  -- initializes the processes of a priority and starts them. Unless an injection fails, so that
  -- nothing is initialized, either every priority is started so, or the start is interrupted at one
  -- priority: none of its processes starts, nothing behind it is touched, and if the
  -- interruption is an error, the processes of the priorities that had started are stopped, the
  -- last priority first.
  pub run_processes_lem :
      (ps : List ℤ) (s : Execution GoType Value Memory)
      → RunResult ps s.calls (run_processes R app processes ps s)
  unfolding run_processes inject_processes
  run_processes_lem ps s =
      after (each (λ p. each (inject_process R app) (processes_at processes p)) ps s)
        (each-Ran (λ p. each (inject_process R app) (processes_at processes p)) _
          (λ p.
            each-Ran (inject_process R app) _ (inject_process-Ran R app) (processes_at processes p))
          ps s)
        (start_priorities_lem [] ps _)
    where
      after :
          (r : Execution GoType Value Memory × Phase)
          → Ran (injection_calls ps) s r
          → StartResult [] ps r.0.calls (start_priorities R app processes [] ps r.0)
          → RunResult ps s.calls (elim r.1 [
            | completed ↦ start_priorities R app processes [] ps r.0
            | failed e ↦ (send R e r.0, failed e)
            | hung ↦ (r.0, hung)
            | crashed q ↦ (r.0, crashed q)
          ])
      after (s', completed) (made, rest, c, e, all, q) later = inl (
          subst (λ cs. StartResult [] ps cs (start_priorities R app processes [] ps s'))
            (c ∙ ap (◌++◌ s.calls) (sym (e ∙ ap (◌++◌ made) (all refl) ∙ append-nil made))) later)
      after (s', failed x) (made, rest, c, e, all, q) later =
          inr ((λ h. cc), (made, rest, e, send-calls x s' ∙ c))
      after (s', hung) (made, rest, c, e, all, q) later = inr ((λ h. cc), (made, rest, e, c))
      after (s', crashed p) (made, rest, c, e, all, q) later = inr ((λ h. cc), (made, rest, e, c))
