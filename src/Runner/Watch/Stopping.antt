-- ===== src/Runner/Watch/Stopping.antt =====
-- When the watch stops the processes, when it returns, and what it sends.
use nacelle.Prelude.{
  ℕ, zero, suc, ◌≡◌, refl, ap, ◌∙◌, ◌⊎◌, inl, inr, Bool, true, false, not, ◌||◌, none, some, List,
  [], ◌∷◌, ◌++◌, arith, Dict, leb, if◌then◌else◌, Bool-cases, Option-cases, ℤ, string_comparable,
  nat_comparable, int_comparable,
}
use mathlib.Core.List.{reverse}
use nacelle.Reflect.{Runtime}
use nacelle.Runner.Meta.{ProcessMeta}
use nacelle.Runner.World.{Application, Execution, Call, send}
use nacelle.Runner.Order.{stopping_calls, stop_processes_below_priority-calls}
use nacelle.Runner.Watch.Loop.{
  ErrMeta, Event, signal, start_error, start_errors_closed, halt, Watch, new_watch, stop_all,
  watch_step, watch,
}

-- Does the event start the graceful shutdown? A process that returns without an error and may exit
-- silently does not.
abbrev pub triggers : Event → Bool
triggers signal = true
triggers (start_error m) = elim m.error [ none ↦ not m.process.silent_exit | some e ↦ true ]
triggers start_errors_closed = false
triggers halt = true

-- Is there a trigger before the channel of the process results is closed?
abbrev pub triggered : List Event → Bool
triggered [] = false
triggered (start_errors_closed ∷ events) = false
triggered (event ∷ events) = triggers event || triggered events

abbrev pub signals : List Event → ℕ
signals [] = 0
signals (signal ∷ events) = suc (signals events)
signals (_ ∷ events) = signals events

abbrev pub has_closed : List Event → Bool
has_closed [] = false
has_closed (start_errors_closed ∷ events) = true
has_closed (_ ∷ events) = has_closed events

abbrev pub halts : ℕ → List Event
halts zero = []
halts (suc n) = halt ∷ halts n

module _ (R : Runtime) {Memory : Type 0} (app : Application (R.GoType) (R.Value) Memory)
    (processes : Dict ℤ (List ProcessMeta)) (priorities : List ℤ) where
  open R use {GoType, Value}

  -- The calls since `before`: none, or one round of stops.
  abbrev pub StopsOnce : List Call → Watch GoType Value Memory → Type 0
  StopsOnce before w =
      ((w.stopped ≡ false) × (w.execution.calls ≡ before))
      ⊎ ((w.stopped ≡ true)
          × (w.execution.calls ≡ before ++ stopping_calls R app processes (reverse priorities)))

  stop_all-calls :
      (s : Execution GoType Value Memory)
      → (stop_all R app processes priorities s).calls
        ≡ s.calls ++ stopping_calls R app processes (reverse priorities)
  unfolding stop_all
  stop_all-calls s = stop_processes_below_priority-calls R app processes (reverse priorities) s

  step-StopsOnce :
      (before : List Call) (w : Watch GoType Value Memory) (event : Event)
      → StopsOnce before w
      → StopsOnce before (watch_step R app processes priorities w event)
  unfolding watch_step send
  step-StopsOnce before w signal h = ground (arith, stop_all-calls w.execution)
  step-StopsOnce before w (start_error m) h = elim (Option-cases m.error) [
    | inl clean ↦ ground (arith, stop_all-calls w.execution)
    | inr (e, fatal_error) ↦ ground (arith, stop_all-calls (send R e w.execution))
  ]
  step-StopsOnce before w start_errors_closed h = ground arith
  step-StopsOnce before w halt h = ground (arith, stop_all-calls w.execution)

  watch-StopsOnce :
      (before : List Call) (w : Watch GoType Value Memory) (events : List Event)
      → StopsOnce before w
      → StopsOnce before (watch R app processes priorities w events)
  unfolding watch
  watch-StopsOnce before w [] h = h
  watch-StopsOnce before w (event ∷ events) h =
      watch-StopsOnce before (watch_step R app processes priorities w event) events
        (step-StopsOnce before w event h)

  -- A function that has returned does nothing more.
  pub watch-returned :
      (w : Watch GoType Value Memory) (events : List Event)
      → w.returned ≡ true
      → watch R app processes priorities w events ≡ w
  unfolding watch watch_step
  watch-returned w [] h = refl
  watch-returned w (event ∷ events) h = simp h (watch-returned w events h)

  -- One round on the three flags.
  abbrev Flags : Watch GoType Value Memory → Bool → Bool → Bool → Type 0
  Flags w u s r = (w.urgent ≡ u) × (w.stopped ≡ s) × (w.returned ≡ r)

  step_start_error-Flags :
      (w : Watch GoType Value Memory) (m : ErrMeta)
      → w.returned ≡ false
      → Flags
          (watch_step R app processes priorities w (start_error m))
          w.urgent
          (w.stopped || triggers (start_error m))
          false
  unfolding watch_step
  step_start_error-Flags w m h = elim (Option-cases m.error) [
    | inl clean ↦ ground arith
    | inr (e, fatal_error) ↦ ground arith
  ]

  step_signal-Flags :
      (w : Watch GoType Value Memory)
      → w.returned ≡ false
      → Flags
          (watch_step R app processes priorities w signal)
          true
          (if w.urgent then w.stopped else true)
          w.urgent
  unfolding watch_step
  step_signal-Flags w h = ground arith

  step_halt-Flags :
      (w : Watch GoType Value Memory)
      → w.returned ≡ false
      → Flags (watch_step R app processes priorities w halt) w.urgent true false
  unfolding watch_step
  step_halt-Flags w h = ground arith

  step_closed-Flags :
      (w : Watch GoType Value Memory)
      → w.returned ≡ false
      → Flags (watch_step R app processes priorities w start_errors_closed) w.urgent w.stopped true
  unfolding watch_step
  step_closed-Flags w h = ground arith

  watch-stopped :
      (w : Watch GoType Value Memory) (events : List Event)
      → w.returned ≡ false
      → (w.urgent ≡ true → w.stopped ≡ true)
      → (watch R app processes priorities w events).stopped ≡ (w.stopped || triggered events)
  unfolding watch
  watch-stopped w [] h u = ground arith
  watch-stopped w (signal ∷ events) h u = elim (Bool-cases w.urgent) [
    | inl urgent ↦ ground (
      arith,
      step_signal-Flags w h,
      watch-returned (watch_step R app processes priorities w signal) events,
    )
    | inr calm ↦ ground (
      arith,
      step_signal-Flags w h,
      watch-stopped (watch_step R app processes priorities w signal) events,
    )
  ]
  watch-stopped w (start_error m ∷ events) h u = ground (
    arith,
    step_start_error-Flags w m h,
    watch-stopped (watch_step R app processes priorities w (start_error m)) events,
  )
  watch-stopped w (start_errors_closed ∷ events) h u = ground (
    arith,
    step_closed-Flags w h,
    watch-returned (watch_step R app processes priorities w start_errors_closed) events,
  )
  watch-stopped w (halt ∷ events) h u = ground (
    arith,
    step_halt-Flags w h,
    watch-stopped (watch_step R app processes priorities w halt) events,
  )

  watch-returns :
      (w : Watch GoType Value Memory) (events : List Event)
      → w.returned ≡ false
      → (watch R app processes priorities w events).returned
        ≡ (has_closed events || leb (if w.urgent then 1 else 2) (signals events))
  unfolding watch
  watch-returns w [] h = ground arith
  watch-returns w (signal ∷ events) h = elim (Bool-cases w.urgent) [
    | inl urgent ↦ ground (
      arith,
      step_signal-Flags w h,
      watch-returned (watch_step R app processes priorities w signal) events,
    )
    | inr calm ↦ ground (
      arith,
      step_signal-Flags w h,
      watch-returns (watch_step R app processes priorities w signal) events,
    )
  ]
  watch-returns w (start_error m ∷ events) h = ground (
    arith,
    step_start_error-Flags w m h,
    watch-returns (watch_step R app processes priorities w (start_error m)) events,
  )
  watch-returns w (start_errors_closed ∷ events) h = ground (
    arith,
    step_closed-Flags w h,
    watch-returned (watch_step R app processes priorities w start_errors_closed) events,
  )
  watch-returns w (halt ∷ events) h = ground (
    arith,
    step_halt-Flags w h,
    watch-returns (watch_step R app processes priorities w halt) events,
  )

  -- From the start of the watch: the processes are stopped, once and in the reverse order of their
  -- priorities, exactly if a signal, a request to shut down or the end of a process that may not
  -- end comes before the results are closed; and the watch returns exactly if the results are
  -- closed or a second signal comes.
  pub watch_lem :
      (s : Execution GoType Value Memory) (events : List Event)
      → let w = watch R app processes priorities (new_watch s) events in
        (w.stopped ≡ triggered events)
        × (w.execution.calls ≡ (
            if triggered events
            then s.calls ++ stopping_calls R app processes (reverse priorities)
            else s.calls))
        × (w.returned ≡ (has_closed events || leb 2 (signals events)))
  watch_lem s events =
      let stops = watch-stopped (new_watch s) events refl (λ h. cc) in
      (
        stops,
        calls_by_flag (watch R app processes priorities (new_watch s) events) stops
            (watch-StopsOnce s.calls (new_watch s) events (inl (refl, refl))),
        watch-returns (new_watch s) events refl,
      )
    where
      calls_by_flag :
          (w : Watch GoType Value Memory) {b : Bool}
          → w.stopped ≡ b
          → StopsOnce s.calls w
          → w.execution.calls ≡ (
              if b then s.calls ++ stopping_calls R app processes (reverse priorities) else s.calls)
      calls_by_flag w e h = ground arith

  step_halt-idle :
      (w : Watch GoType Value Memory)
      → w.stopped ≡ true
      → watch_step R app processes priorities w halt ≡ w
  unfolding watch_step
  step_halt-idle w h = ground arith

  -- `Shutdown` closes the channel `halt`, and a closed channel is ready in every round. Once the
  -- processes are stopped, any number of rounds that receive from it changes nothing: the watch
  -- goes on without returning.
  pub watch-halts :
      (n : ℕ) (w : Watch GoType Value Memory)
      → w.stopped ≡ true
      → watch R app processes priorities w (halts n) ≡ w
  unfolding watch
  watch-halts zero w h = refl
  watch-halts (suc n) w h =
      ap (λ v. watch R app processes priorities v (halts n)) (step_halt-idle w h)
      ∙ watch-halts n w h
