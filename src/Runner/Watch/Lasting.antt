-- ===== src/Runner/Watch/Lasting.antt =====
-- What `watch` leaves true, whatever it receives.
use nacelle.Prelude.{
  inl, inr, Bool, true, false, List, [], ◌∷◌, Dict, if◌then◌else◌, Bool-cases, Option-cases, ℤ,
  string_comparable, nat_comparable, int_comparable, bytes_comparable,
}
use mathlib.Core.List.{reverse}
use nacelle.Error.{Error}
use nacelle.Reflect.{Runtime}
use nacelle.Runner.Meta.{ProcessMeta}
use nacelle.Runner.World.{World, Application, Execution, send}
use nacelle.Runner.Keeping.{Keeps, stop_below-keeps}
use nacelle.Runner.Watch.Loop.{
  Event, ErrMeta, signal, start_error, start_errors_closed, halt, Watch, stop_all, stop_once,
  on_start_error, receive, watch_step, watch,
}

module _ (R : Runtime) {Memory : Type 0} (app : Application (R.GoType) (R.Value) Memory)
    (processes : Dict ℤ (List ProcessMeta)) (priorities : List ℤ)
    (P : Execution (R.GoType) (R.Value) Memory → Type 0)
    (stopping : (s : Execution (R.GoType) (R.Value) Memory)
      → P s
      → P (stop_all R app processes priorities s))
    (sending : (e : Error) (s : Execution (R.GoType) (R.Value) Memory) → P s → P (send R e s)) where
  open R use {GoType, Value}

  abbrev Lasts : Watch GoType Value Memory → Type 0
  Lasts w = P w.execution

  stop_once-keeps :
      (w : Watch GoType Value Memory) → Lasts w → Lasts (stop_once R app processes priorities w)
  unfolding stop_once
  stop_once-keeps w h = elim (Bool-cases w.stopped) [
    | inl stopped ↦ rw stopped h
    | inr running ↦ rw running (stopping w.execution h)
  ]

  on_start_error-keeps :
      (m : ErrMeta) (w : Watch GoType Value Memory)
      → Lasts w
      → Lasts (on_start_error R app processes priorities m w)
  unfolding on_start_error
  on_start_error-keeps m w h = elim (Option-cases m.error) [
    | inr (e, failed) ↦
        rw failed (
          stop_once-keeps (record w { execution = send R e w.execution }) (sending e w.execution h))
    | inl ended ↦ elim (Bool-cases m.process.silent_exit) [
      | inl silent ↦ rw (ended, silent) h
      | inr loud ↦ rw (ended, loud) (stop_once-keeps w h)
    ]
  ]

  receive-keeps :
      (event : Event) (w : Watch GoType Value Memory)
      → Lasts w
      → Lasts (receive R app processes priorities event w)
  receive-keeps signal w h = elim (Bool-cases w.urgent) [
    | inl urgent ↦ rw urgent h
    | inr first ↦ rw first (stop_once-keeps (record w { urgent = true }) h)
  ]
  receive-keeps (start_error m) w h = on_start_error-keeps m w h
  receive-keeps start_errors_closed w h = h
  receive-keeps halt w h = stop_once-keeps w h

  watch_step-keeps :
      (event : Event) (w : Watch GoType Value Memory)
      → Lasts w
      → Lasts (watch_step R app processes priorities w event)
  unfolding watch_step
  watch_step-keeps event w h =
      either_way w.returned w (receive R app processes priorities event w) h
        (receive-keeps event w h)
    where
      either_way :
          (b : Bool) (v v' : Watch GoType Value Memory)
          → Lasts v
          → Lasts v'
          → Lasts (if b then v else v')
      either_way true v v' h h' = h
      either_way false v v' h h' = h'

  -- The watch leaves true what stopping and sending leave true, whatever it receives.
  pub watch_stable :
      (events : List Event) (w : Watch GoType Value Memory)
      → Lasts w
      → Lasts (watch R app processes priorities w events)
  unfolding watch
  watch_stable [] w h = h
  watch_stable (event ∷ events) w h =
      watch_stable events (watch_step R app processes priorities w event)
        (watch_step-keeps event w h)

-- The watch leaves a property of the world true that injection and the application keep.
pub watch-keeps :
    (R : Runtime) {Memory : Type 0} (app : Application (R.GoType) (R.Value) Memory)
    (Inv : World (R.GoType) (R.Value) Memory → Type 0) (K : Keeps R app Inv)
    (processes : Dict ℤ (List ProcessMeta)) (priorities : List ℤ) (events : List Event)
    (w : Watch (R.GoType) (R.Value) Memory)
    → Inv w.execution.world
    → Inv (watch R app processes priorities w events).execution.world
unfolding send stop_all
watch-keeps R app Inv K processes priorities events w h =
    watch_stable R app processes priorities (λ s. Inv s.world)
      (stop_below-keeps R app Inv K processes (reverse priorities)) (λ e s h. h) events w h
