-- ===== src/Runner/World.antt =====
-- What the runner calls: the container and the objects of the application, whose `Init` and `Stop`
-- are code outside the library.
use nacelle.Prelude.{
  ℕ, zero, suc, Bool, Option, none, some, List, [], ◌∷◌, ◌++◌, ltb, eqb, if◌then◌else◌, ℤ, pos,
  negsuc, string_comparable, nat_comparable, int_comparable,
}
use nacelle.Error.{Error, Status, init_timeout}
use nacelle.Reflect.{Runtime}
use nacelle.Service.Defs.{ServiceContainer}
use nacelle.Service.Inject.{Object, inject}

-- A call of `Init` as the runner sees it: when it returns (never, for `none`), and with what. Where
-- it returns just as the timer fires, `select` takes either channel.
pub record InitRun : Type 0 where
  pub returns_at : Option ℕ
  pub result : Option Error
  pub wins_tie : Bool

-- `makeTimeoutChan`: when the channel delivers, `none` for the channel that blocks for ever.
unfoldable pub make_timeout_chan : ℤ → Option ℕ
make_timeout_chan (pos zero) = none
make_timeout_chan (pos (suc n)) = some (suc n)
make_timeout_chan (negsuc n) = some 0

-- `initWithTimeout`; `none` is a call that never returns.
abbrev pub select_init : Option ℕ → Option ℕ → InitRun → Option (Option Error)
select_init none none run = none
select_init none (some d) run = some (some init_timeout)
select_init (some t) none run = some run.result
select_init (some t) (some d) run =
    if ltb t d
    then some run.result
    else if ltb d t
    then some (some init_timeout)
    else if run.wins_tie
    then some run.result
    else some (some init_timeout)

unfoldable pub init_with_timeout : ℤ → InitRun → Option (Option Error)
unfolding make_timeout_chan
init_with_timeout timeout run = select_init run.returns_at (make_timeout_chan timeout) run

pub record World (GoType Value Memory : Type 0) : Type 0 where
  pub container : ServiceContainer Value
  pub objects : ℕ → Object GoType Value
  pub memory : Memory

-- The application: `Init` and `Stop` of its initializers and processes.
pub record Application (GoType Value Memory : Type 0) : Type 0 where
  pub init : ℕ → World GoType Value Memory → World GoType Value Memory × InitRun
  pub stop : ℕ → World GoType Value Memory → World GoType Value Memory × Option Error

-- The calls into the application and the container, in order.
pub data Call : Type 0 where
  injects inits starts stops : ℕ → Call

-- The world, the calls so far, and what was sent on `errChan` so far.
pub record Execution (GoType Value Memory : Type 0) : Type 0 where
  pub world : World GoType Value Memory
  pub calls : List Call
  pub sent : List Error

module _ (R : Runtime) {Memory : Type 0} where
  open R use {GoType, Value}

  -- `pr.container.Inject(obj)`
  unfoldable pub call_inject :
      ℕ → Execution GoType Value Memory → Execution GoType Value Memory × Status
  call_inject id s =
      let (o, r) = inject R s.world.container (s.world.objects id) in
      (
        record s {
          world = record s.world { objects = λ i. if eqb i id then o else s.world.objects i };
          calls = s.calls ++ injects id ∷ [];
        },
        r,
      )

  unfoldable pub call_init :
      Application GoType Value Memory
      → ℕ
      → ℤ
      → Execution GoType Value Memory
      → Execution GoType Value Memory × Option (Option Error)
  unfolding init_with_timeout
  call_init app id timeout s =
      let (w, run) = app.init id s.world in
      (record s { world = w; calls = s.calls ++ inits id ∷ [] }, init_with_timeout timeout run)

  unfoldable pub call_stop :
      Application GoType Value Memory
      → ℕ
      → Execution GoType Value Memory
      → Execution GoType Value Memory × Option Error
  call_stop app id s =
      let (w, e) = app.stop id s.world in
      (record s { world = w; calls = s.calls ++ stops id ∷ [] }, e)

  -- `go func() { ... process.Start() ... }()`: the goroutine's result comes later, as an event of
  -- the watch.
  unfoldable pub call_start : ℕ → Execution GoType Value Memory → Execution GoType Value Memory
  call_start id s = record s { calls = s.calls ++ starts id ∷ [] }

  -- `errChan <- err`
  unfoldable pub send : Error → Execution GoType Value Memory → Execution GoType Value Memory
  send e s = record s { sent = s.sent ++ e ∷ [] }
