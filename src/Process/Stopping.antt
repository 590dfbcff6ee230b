-- ===== src/Process/Stopping.antt =====
-- Calls of `Stop` of process/http.go, one after the other.
use nacelle.Prelude.{
  ◌≡◌, refl, ap, ◌∙◌, true, false, Option, List, [], ◌∷◌, ◌++◌, map, arith, ℤ, string_comparable,
  nat_comparable, int_comparable, bytes_comparable,
}
use nacelle.Error.{Error, Status, done}
use nacelle.Process.Http.{HttpServer, stop, status}

-- Calls of `Stop`, one after the other: the timeouts of the calls of `Shutdown`, to which
-- `shutdown` adds one, and the results.
abbrev shutting_down : (ℤ → Option Error) → ℤ → List ℤ → List ℤ × Option Error
shutting_down shutdown timeout timeouts = (timeouts ++ timeout ∷ [], shutdown timeout)

abbrev pub stop_all : List (ℤ → Option Error) → HttpServer → List ℤ → List ℤ × List Status
stop_all [] s timeouts = (timeouts, [])
stop_all (shutdown ∷ later) s timeouts =
    let ((s', timeouts'), r) = stop (shutting_down shutdown) s timeouts in
    let (timeouts'', rs) = stop_all later s' timeouts' in (timeouts'', r ∷ rs)

stop-called :
    (f : ℤ → Option Error) (s : HttpServer) (timeouts : List ℤ)
    → s.called ≡ true
    → stop (shutting_down f) s timeouts ≡ ((s, timeouts), done)
unfolding stop
stop-called f s timeouts called = ground (arith, called)

stop_all-called :
    (s : HttpServer) (later : List (ℤ → Option Error)) (timeouts : List ℤ)
    → s.called ≡ true
    → stop_all later s timeouts ≡ (timeouts, map (λ _. done) later)
stop_all-called s [] timeouts called = refl
stop_all-called s (f ∷ later) timeouts called =
    ap
      (λ (r : (HttpServer × List ℤ) × Status).
        let (timeouts', rs) = stop_all later r.0.0 r.0.1 in (timeouts', r.1 ∷ rs))
      (stop-called f s timeouts called)
    ∙ ap (λ r. (r.0, done ∷ r.1)) (stop_all-called s later timeouts called)

pub stop_all-fresh :
    (s : HttpServer) (shutdown : ℤ → Option Error) (later : List (ℤ → Option Error))
    → s.called ≡ false
    → s.server ≡ true
    → stop_all (shutdown ∷ later) s []
      ≡ (s.shutdown_timeout ∷ [], status (shutdown s.shutdown_timeout) ∷ map (λ _. done) later)
unfolding stop
stop_all-fresh s shutdown later fresh up =
    rw (fresh, up)
      (ap (λ r. (r.0, status (shutdown s.shutdown_timeout) ∷ r.1))
        (stop_all-called _ later (s.shutdown_timeout ∷ []) refl))
