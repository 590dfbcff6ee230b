-- ===== src/Runner/Watch/Shutdown.antt =====
-- Any number of goroutines may call `Shutdown`, each with its own timeout.
use nacelle.Prelude.{
  ℕ, ◌+◌, ◌<◌, ◌≡◌, refl, ◌⊎◌, inr, Bool, Option, none, some, List, [], ◌∷◌, arith, eqb,
  if◌then◌else◌, Bool-cases, length, string_comparable, nat_comparable, int_comparable,
  bytes_comparable,
}
use nacelle.Error.{Error, shutdown_timeout}
use nacelle.Runner.Watch.Loop.{Halt, shutdown, await_done}

-- The calls in the order in which they reach `once`, with their timeouts, the time at which each sees
-- `done` closed, and the channel that `select` takes where both are ready.
abbrev pub ShutdownCalls : Type 0
ShutdownCalls = List (ℕ × Option ℕ × Bool)

abbrev pub shutdown_all : ShutdownCalls → Halt → Halt × List (Option Error)
shutdown_all [] h = (h, [])
shutdown_all ((timeout, done_at, tie) ∷ calls) h =
    let (h', r) = shutdown h timeout done_at tie in
    let (h'', rs) = shutdown_all calls h' in (h'', r ∷ rs)

-- The result of a call: nil if `done` is closed before the timeout, and the error of the timeout if
-- it is closed later or never.
abbrev pub Awaited : ℕ × Option ℕ × Bool → Option Error → Type 0
Awaited (timeout, done_at, tie) r =
    ((r ≡ none) ⊎ (r ≡ some shutdown_timeout))
    × ((t : ℕ) → done_at ≡ some t → t < timeout → r ≡ none)
    × ((t : ℕ) → done_at ≡ some t → timeout < t → r ≡ some shutdown_timeout)
    × (done_at ≡ none → r ≡ some shutdown_timeout)

abbrev pub AllAwaited : ShutdownCalls → List (Option Error) → Type 0
AllAwaited [] [] = Unit
AllAwaited (c ∷ calls) (r ∷ rs) = Awaited c r × AllAwaited calls rs
AllAwaited _ _ = ⊥

await_done-Awaited :
    (timeout : ℕ) (done_at : Option ℕ) (tie : Bool)
    → Awaited (timeout, done_at, tie) (await_done timeout done_at tie)
await_done-Awaited timeout none tie = (inr refl, (λ t e h. cc), (λ t e h. cc), λ e. refl)
await_done-Awaited timeout (some t) tie =
    (ground arith, (λ u e h. ground arith), (λ u e h. ground arith), λ e. cc)

-- However often `Shutdown` is called, `halt` is closed once: by the first call. Each call returns
-- nil if `done` is closed before its timeout, and the error of the timeout if it is closed later or
-- never.
pub shutdown_all_lem :
    (calls : ShutdownCalls) (h : Halt)
    → ((shutdown_all calls h).0.closes
        ≡ (if h.called then h.closes else h.closes + (if eqb (length calls) 0 then 0 else 1)))
      × AllAwaited calls (shutdown_all calls h).1
unfolding shutdown
shutdown_all_lem [] h = (ground arith, tt)
shutdown_all_lem ((timeout, done_at, tie) ∷ calls) h =
    let rest = shutdown_all_lem calls (shutdown h timeout done_at tie).0 in
    (ground (arith, rest.0, Bool-cases h.called), (await_done-Awaited timeout done_at tie, rest.1))
