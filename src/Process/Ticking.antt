-- ===== src/Process/Ticking.antt =====
-- The loop of `Worker.Start`, whatever the goroutines that call `Stop` do.
use nacelle.Prelude.{
  ◌≤◌, ◌≡◌, refl, Bool, true, false, ◌||◌, Option, none, some, List, [], ◌∷◌, ◌++◌, arith,
  if◌then◌else◌, Bool-cases, All, All-append, string_comparable, nat_comparable, int_comparable,
  bytes_comparable,
}
use nacelle.Error.{Error}
use nacelle.Process.Worker.{
  Worker, is_done, stop, Position, selecting, ticking, returned, Loop, Event, stop_called,
  halt_received, tick_due, tick_returns, start, step, run_loop,
}

-- `halt` is closed at most once, and it is closed if `Stop` was called.
abbrev pub IsStoppable : Worker → Type 0
IsStoppable w = (w.closes ≤ 1) × (w.called ≡ is_done w)

abbrev Succeeded : Option Error → Type 0
Succeeded r = r ≡ none

-- The results of `Tick` so far: only the last one may be an error, which `Start` then returns.
abbrev pub History : Position → List (Option Error) → Type 0
History (returned (some e)) ticks =
    (before : List (Option Error)) × (ticks ≡ before ++ some e ∷ []) × All Succeeded before
History (returned none) ticks = All Succeeded ticks
History selecting ticks = All Succeeded ticks
History ticking ticks = All Succeeded ticks

abbrev pub has_returned : Position → Bool
has_returned (returned e) = true
has_returned selecting = false
has_returned ticking = false

abbrev IsSound : Loop → Type 0
IsSound s =
    IsStoppable s.worker
    × History s.position s.ticks
    × (has_returned s.position ≡ true → is_done s.worker ≡ true)

abbrev is_stop : Event → Bool
is_stop stop_called = true
is_stop _ = false

abbrev pub any_stop : List Event → Bool
any_stop [] = false
any_stop (event ∷ events) = is_stop event || any_stop events

stop_lem : (w : Worker) → IsStoppable w → IsStoppable (stop w) × (is_done (stop w) ≡ true)
unfolding stop is_done
stop_lem w (c, h) = ((ground arith, ground arith), ground arith)

IsSound-if : (b : Bool) (s t : Loop) → IsSound s → IsSound t → IsSound (if b then s else t)
IsSound-if true s t hs ht = hs
IsSound-if false s t hs ht = ht

abbrev loop_at : Worker → Position → List (Option Error) → Loop
loop_at w p ts = record { worker = w; position = p; ticks = ts }

step_at-IsSound :
    (event : Event) (w : Worker) (p : Position) (ts : List (Option Error))
    → IsSound (loop_at w p ts)
    → IsSound (step event (loop_at w p ts))
unfolding step
step_at-IsSound stop_called w p ts (q, h, r) = ((stop_lem w q).0, h, λ _. (stop_lem w q).1)
step_at-IsSound halt_received w selecting ts (q, h, r) =
    IsSound-if (is_done w) _ _ ((stop_lem w q).0, h, λ _. (stop_lem w q).1) (q, h, r)
step_at-IsSound halt_received w ticking ts sound = sound
step_at-IsSound halt_received w (returned e) ts sound = sound
step_at-IsSound tick_due w selecting ts (q, h, r) = (q, h, λ e. cc)
step_at-IsSound tick_due w ticking ts sound = sound
step_at-IsSound tick_due w (returned e) ts sound = sound
step_at-IsSound (tick_returns r) w selecting ts sound = sound
step_at-IsSound (tick_returns r) w (returned e) ts sound = sound
step_at-IsSound (tick_returns none) w ticking ts (q, h, r) =
    (q, All-append Succeeded ts (none ∷ []) h (refl, tt), λ e. cc)
step_at-IsSound (tick_returns (some e)) w ticking ts (q, h, r) =
    ((stop_lem w q).0, (ts, refl, h), λ _. (stop_lem w q).1)

step-IsSound : (event : Event) (s : Loop) → IsSound s → IsSound (step event s)
step-IsSound event s = step_at-IsSound event s.worker s.position s.ticks

-- An event closes `halt` exactly if it is a call of `Stop`, or if the loop returns.
step_at-is_done :
    (event : Event) (w : Worker) (p : Position) (ts : List (Option Error))
    → IsSound (loop_at w p ts)
    → is_done (step event (loop_at w p ts)).worker
      ≡ (is_done w || (is_stop event || has_returned (step event (loop_at w p ts)).position))
unfolding step
step_at-is_done stop_called w p ts (q, h, r) = ground (arith, (stop_lem w q).1)
step_at-is_done halt_received w selecting ts (q, h, r) = ground (arith, (stop_lem w q).1)
step_at-is_done halt_received w ticking ts (q, h, r) = ground arith
step_at-is_done halt_received w (returned e) ts (q, h, r) = ground (arith, r refl)
step_at-is_done tick_due w selecting ts (q, h, r) = ground arith
step_at-is_done tick_due w ticking ts (q, h, r) = ground arith
step_at-is_done tick_due w (returned e) ts (q, h, r) = ground (arith, r refl)
step_at-is_done (tick_returns x) w selecting ts (q, h, r) = ground arith
step_at-is_done (tick_returns x) w (returned e) ts (q, h, r) = ground (arith, r refl)
step_at-is_done (tick_returns none) w ticking ts (q, h, r) = ground arith
step_at-is_done (tick_returns (some e)) w ticking ts (q, h, r) = ground (arith, (stop_lem w q).1)

step_at-returned :
    (event : Event) (w : Worker) (p : Position) (ts : List (Option Error))
    → has_returned p ≡ true
    → has_returned (step event (loop_at w p ts)).position ≡ true
unfolding step
step_at-returned stop_called w p ts h = h
step_at-returned halt_received w (returned e) ts h = refl
step_at-returned tick_due w (returned e) ts h = refl
step_at-returned (tick_returns none) w (returned e) ts h = refl
step_at-returned (tick_returns (some x)) w (returned e) ts h = refl
step_at-returned halt_received w selecting ts h = cc
step_at-returned tick_due w selecting ts h = cc
step_at-returned (tick_returns x) w selecting ts h = cc
step_at-returned halt_received w ticking ts h = cc
step_at-returned tick_due w ticking ts h = cc
step_at-returned (tick_returns x) w ticking ts h = cc

run_loop-returned :
    (events : List Event) (s : Loop)
    → has_returned s.position ≡ true
    → has_returned (run_loop events s).position ≡ true
unfolding run_loop
run_loop-returned [] s h = h
run_loop-returned (event ∷ events) s h =
    run_loop-returned events _ (step_at-returned event s.worker s.position s.ticks h)

run_loop-IsSound : (events : List Event) (s : Loop) → IsSound s → IsSound (run_loop events s)
unfolding run_loop
run_loop-IsSound [] s h = h
run_loop-IsSound (event ∷ events) s h = run_loop-IsSound events _ (step-IsSound event s h)

or_lem :
    (d d' f a b c m : Bool)
    → d' ≡ (d || (a || b))
    → f ≡ (d' || (c || m))
    → (b ≡ true → m ≡ true)
    → f ≡ (d || ((a || c) || m))
or_lem d d' f a b c m p q r = ground arith

run_loop-is_done :
    (events : List Event) (s : Loop)
    → IsSound s
    → is_done (run_loop events s).worker
      ≡ (is_done s.worker || (any_stop events || has_returned (run_loop events s).position))
unfolding run_loop
run_loop-is_done [] s (w, h, r) = ground (arith, Bool-cases (has_returned s.position))
run_loop-is_done (event ∷ events) s h =
    or_lem _ _ _ _ _ _ _ (step_at-is_done event s.worker s.position s.ticks h)
      (run_loop-is_done events _ (step-IsSound event s h)) (run_loop-returned events (step event s))

-- Whatever happens while `Start` runs, `halt` is closed at most once, and it is closed exactly if it
-- was closed before, or `Stop` was called meanwhile, or `Start` has returned. `Start` goes on only
-- while `Tick` succeeds, and returns an error only if the last `Tick` did, and that one.
pub run_loop_lem :
    (events : List Event) (w : Worker)
    → IsStoppable w
    → IsStoppable (run_loop events (start w)).worker
      × History (run_loop events (start w)).position (run_loop events (start w)).ticks
      × (is_done (run_loop events (start w)).worker
          ≡ (is_done w || (any_stop events || has_returned (run_loop events (start w)).position)))
unfolding start
run_loop_lem events w h =
    let sound : IsSound (start w) = (h, tt, λ e. cc) in
    let (q, history, _) = run_loop-IsSound events (start w) sound in
    (q, history, run_loop-is_done events (start w) sound)

halts :
    (w : Worker) (p : Position) (ts : List (Option Error)) (r : Option Error)
    → IsSound (loop_at w p ts)
    → has_returned
        (run_loop (stop_called ∷ tick_returns r ∷ halt_received ∷ []) (loop_at w p ts)).position
      ≡ true
unfolding run_loop step
halts w (returned e) ts none (q, h, b) = refl
halts w (returned e) ts (some x) (q, h, b) = refl
halts w selecting ts r (q, h, b) = ground (arith, (stop_lem w q).1)
halts w ticking ts none (q, h, b) = ground (arith, (stop_lem w q).1)
halts w ticking ts (some x) (q, h, b) = refl

-- At any point of a run, a call of `Stop`, the end of the `Tick` that may run, and a `select` that
-- takes the case of `halt` make `Start` return.
pub run_loop-halts :
    (events : List Event) (w : Worker) (r : Option Error)
    → IsStoppable w
    → has_returned
        (run_loop
          (stop_called ∷ tick_returns r ∷ halt_received ∷ [])
          (run_loop events (start w))).position
      ≡ true
unfolding start
run_loop-halts events w r h =
    let s = run_loop events (start w) in
    halts s.worker s.position s.ticks r (run_loop-IsSound events (start w) (h, tt, λ e. cc))
