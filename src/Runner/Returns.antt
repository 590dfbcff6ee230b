-- ===== src/Runner/Returns.antt =====
-- `Run` gets through: with timeouts on every `Init`, no call of the starting half of runner.go hangs.
-- `Stop` returns, as the interface `Process` demands, and `Start` runs in a goroutine of its own.
use nacelle.Prelude.{
  ℕ, zero, suc, ◌<◌, String, ◌≡◌, refl, ◌≢◌, ◌↔◌, ◌⊎◌, inl, inr, Bool, true, false, Option, none,
  some, List, [], ◌∷◌, arith, Dict, lookup, if◌then◌else◌, Option-cases, All, ℤ, pos, negsuc,
  pos_part, string_comparable, nat_comparable, int_comparable, bytes_comparable, ◌==◌,
}
use mathlib.Core.Path.{subst}
use nacelle.Error.{Error, Status, ok, err, panic, init_timeout}
use nacelle.Reflect.{Runtime}
use nacelle.Runner.Meta.{InitializerMeta, ProcessMeta}
use nacelle.Runner.Registry.{ProcessRunner, processes_at, get_priorities}
use nacelle.Runner.World.{
  Application, Execution, InitRun, call_inject, call_init, send, init_with_timeout,
  make_timeout_chan,
}
use nacelle.Runner.Startup.{
  Phase, completed, failed, hung, crashed, inject_phase, init_phase, each, run_initializer,
  run_initializers, inject_process, init_process, start_processes, init_and_start_processes,
  stop_processes_below_priority, inject_processes, start_priorities, run_processes, run,
}

-- What `initWithTimeout` returns, and when: with the timeout 0 it waits for `Init` for as long as
-- that takes; with any other one it returns, with the result of an `Init` that returns in time, and
-- with the error of the timeout where `Init` takes longer or never returns.
pub init_with_timeout_lem :
    (timeout : ℤ) (run : InitRun)
    → ((init_with_timeout timeout run ≡ none) ↔ ((timeout ≡ pos 0) × (run.returns_at ≡ none)))
      × ((t : ℕ)
          → run.returns_at ≡ some t
          → (timeout ≡ pos 0) ⊎ (t < pos_part timeout)
          → init_with_timeout timeout run ≡ some run.result)
      × ((run.returns_at ≡ none) ⊎ ((t : ℕ) × (run.returns_at ≡ some t) × (pos_part timeout < t))
          → timeout ≢ pos 0
          → init_with_timeout timeout run ≡ some (some init_timeout))
unfolding init_with_timeout make_timeout_chan
init_with_timeout_lem (pos zero) run = elim (Option-cases run.returns_at) [
  | inl never ↦ ((ground arith, ground arith), (λ t e h. ground arith), (λ h n. absurd (n refl)))
  | inr (u, at) ↦ ((ground arith, ground arith), (λ t e h. ground arith), (λ h n. absurd (n refl)))
]
init_with_timeout_lem (pos (suc n)) run = elim (Option-cases run.returns_at) [
  | inl never ↦ ((ground arith, ground arith), (λ t e h. ground arith), (λ h n'. ground arith))
  | inr (u, at) ↦ ((ground arith, ground arith), (λ t e h. ground arith), (λ h n'. ground arith))
]
init_with_timeout_lem (negsuc n) run = elim (Option-cases run.returns_at) [
  | inl never ↦ ((ground arith, ground arith), (λ t e h. ground arith), (λ h n'. ground arith))
  | inr (u, at) ↦ ((ground arith, ground arith), (λ t e h. ground arith), (λ h n'. ground arith))
]

All-map :
    {A : Type 0} {P Q : A → Type 0} → ((a : A) → P a → Q a) → (xs : List A) → All P xs → All Q xs
All-map f [] h = tt
All-map f (x ∷ xs) (h, hs) = (f x h, All-map f xs hs)

All-each : {A : Type 0} (P : A → Type 0) → ((a : A) → P a) → (xs : List A) → All P xs
All-each P f [] = tt
All-each P f (x ∷ xs) = (f x, All-each P f xs)

processes_at-cons :
    (k p : ℤ) (ms : List ProcessMeta) (m : Dict ℤ (List ProcessMeta))
    → (if k == p then ms else processes_at m p) ≡ processes_at ((k, ms) ∷ m) p
unfolding processes_at lookup
processes_at-cons k p ms m = ground arith

processes_at-All :
    (P : ProcessMeta → Type 0) (m : Dict ℤ (List ProcessMeta))
    → All (λ (e : ℤ × List ProcessMeta). All P e.1) m
    → (p : ℤ) → All P (processes_at m p)
unfolding processes_at lookup
processes_at-All P [] h p = tt
processes_at-All P ((k, ms) ∷ m) (h, hs) p =
    subst (All P) (processes_at-cons k p ms m) (go (k == p) (processes_at-All P m hs p))
  where
    go : (b : Bool) → All P (processes_at m p) → All P (if b then ms else processes_at m p)
    go true rest = h
    go false rest = rest

-- Each sequence of calls goes on only if the one before it was completed.
abbrev and_then : {S : Type 0} → S × Phase → S × Phase → (Error → S) → S × Phase
and_then r next stopped = elim r.1 [
  | completed ↦ next
  | failed e ↦ (stopped e, failed e)
  | hung ↦ (r.0, hung)
  | crashed p ↦ (r.0, crashed p)
]

and_then-returns :
    {S : Type 0} (r next : S × Phase) (stopped : Error → S)
    → r.1 ≢ hung
    → next.1 ≢ hung
    → (and_then r next stopped).1 ≢ hung
and_then-returns (s, completed) next stopped h n = n
and_then-returns (s, failed e) next stopped h n = λ q. cc
and_then-returns (s, hung) next stopped h n = h
and_then-returns (s, crashed p) next stopped h n = λ q. cc

each-returns :
    {A : Type 0} {S : Type 0} (f : A → S → S × Phase) (xs : List A)
    → All (λ a. (s : S) → (f a s).1 ≢ hung) xs
    → (s : S) → (each f xs s).1 ≢ hung
unfolding each
each-returns f [] h s = λ e. cc
each-returns f (x ∷ xs) (h, hs) s =
    and_then-returns (f x s) (each f xs (f x s).0) (λ e. (f x s).0) (h s)
      (each-returns f xs hs (f x s).0)

inject_phase-returns : (name : String) (r : Status) → inject_phase name r ≢ hung
inject_phase-returns name (ok u) = λ e. cc
inject_phase-returns name (err x) = λ e. cc
inject_phase-returns name (panic p) = λ e. cc

init_phase-returns :
    (name : String) (timeout : ℤ) (run : InitRun)
    → timeout ≢ pos 0
    → init_phase name (init_with_timeout timeout run) ≢ hung
init_phase-returns name timeout run h =
    let never = (init_with_timeout_lem timeout run).0.0 in
    go (init_with_timeout timeout run) (λ e. h (never e).0)
  where
    go : (r : Option (Option Error)) → r ≢ none → init_phase name r ≢ hung
    go none q = absurd (q refl)
    go (some none) q = λ e. cc
    go (some (some x)) q = λ e. cc

-- The timeout of the `Init` is set.
abbrev pub InitializerHasTimeout : InitializerMeta → Type 0
InitializerHasTimeout m = m.timeout ≢ pos 0

abbrev pub ProcessHasTimeout : ProcessMeta → Type 0
ProcessHasTimeout m = m.init_timeout ≢ pos 0

module _ (R : Runtime) {Memory : Type 0} (app : Application (R.GoType) (R.Value) Memory) where
  open R use {GoType, Value}

  run_initializer-returns :
      (m : InitializerMeta)
      → InitializerHasTimeout m
      → (s : Execution GoType Value Memory) → (run_initializer R app m s).1 ≢ hung
  unfolding run_initializer call_init
  run_initializer-returns m h s =
      let (s', injected) = call_inject R m.initializer s in
      let (s'', r) = call_init R app m.initializer m.timeout s' in
      and_then-returns (s', inject_phase m.name injected) (s'', init_phase m.name r) (λ e. s')
        (inject_phase-returns m.name injected)
        (init_phase-returns m.name m.timeout (app.init m.initializer s'.world).1 h)

  inject_process-returns :
      (m : ProcessMeta) (s : Execution GoType Value Memory) → (inject_process R app m s).1 ≢ hung
  unfolding inject_process
  inject_process-returns m s = inject_phase-returns m.name (call_inject R m.process s).1

  init_process-returns :
      (m : ProcessMeta)
      → ProcessHasTimeout m
      → (s : Execution GoType Value Memory) → (init_process R app m s).1 ≢ hung
  unfolding init_process call_init
  init_process-returns m h s =
      init_phase-returns m.name m.init_timeout (app.init m.process s.world).1 h

  init_and_start_processes-returns :
      (ms : List ProcessMeta) (s : Execution GoType Value Memory)
      → All ProcessHasTimeout ms
      → (init_and_start_processes R app ms s).1 ≢ hung
  unfolding init_and_start_processes
  init_and_start_processes-returns ms s h =
      let (s', r) = each (init_process R app) ms s in
      and_then-returns (s', r) (start_processes R app ms s', completed) (λ e. s')
        (each-returns (init_process R app) ms (All-map init_process-returns ms h) s) (λ e. cc)

  module _ (processes : Dict ℤ (List ProcessMeta))
      (timeouts : (p : ℤ) → All ProcessHasTimeout (processes_at processes p)) where
    start_priorities-returns :
        (below ps : List ℤ) (s : Execution GoType Value Memory)
        → (start_priorities R app processes below ps s).1 ≢ hung
    unfolding start_priorities
    start_priorities-returns below [] s = λ e. cc
    start_priorities-returns below (p ∷ ps) s =
        let r = init_and_start_processes R app (processes_at processes p) s in
        and_then-returns r (start_priorities R app processes (p ∷ below) ps r.0)
          (λ e. stop_processes_below_priority R app processes below (send R e r.0))
          (init_and_start_processes-returns (processes_at processes p) s (timeouts p))
          (start_priorities-returns (p ∷ below) ps r.0)

    inject_processes-returns :
        (ps : List ℤ) (s : Execution GoType Value Memory)
        → (inject_processes R app processes ps s).1 ≢ hung
    unfolding inject_processes
    inject_processes-returns ps s =
        each-returns (λ p. each (inject_process R app) (processes_at processes p)) ps
          (All-each _
            (λ p.
              each-returns (inject_process R app) (processes_at processes p)
                (All-each _ inject_process-returns (processes_at processes p)))
            ps)
          s

    run_processes-returns :
        (ps : List ℤ) (s : Execution GoType Value Memory)
        → (run_processes R app processes ps s).1 ≢ hung
    unfolding run_processes
    run_processes-returns ps s =
        let r = inject_processes R app processes ps s in
        and_then-returns r (start_priorities R app processes [] ps r.0) (λ e. send R e r.0)
          (inject_processes-returns ps s) (start_priorities-returns [] ps r.0)

  -- If every initializer and every process has a timeout for its `Init`, then the starting half of
  -- `Run` does not hang, whatever `Init` does: it completes, fails with an error or panics.
  pub run-returns :
      (pr : ProcessRunner) (s : Execution GoType Value Memory)
      → All InitializerHasTimeout pr.initializers
      → All (λ (e : ℤ × List ProcessMeta). All ProcessHasTimeout e.1) pr.processes
      → (run R app pr s).1 ≢ hung
  unfolding run run_initializers
  run-returns pr s is ps =
      let r = each (run_initializer R app) pr.initializers s in
      and_then-returns r (run_processes R app pr.processes (get_priorities pr) r.0)
        (λ e. send R e r.0)
        (each-returns (run_initializer R app) pr.initializers
          (All-map run_initializer-returns pr.initializers is) s)
        (run_processes-returns pr.processes (processes_at-All ProcessHasTimeout pr.processes ps)
          (get_priorities pr) r.0)
