-- ===== src/Process/Ports.antt =====
-- The listeners of process/http.go on each port.
use nacelle.Prelude.{
  ℕ, suc, ◌≡◌, refl, inl, inr, List, [], ◌∷◌, ◌++◌, arith, if◌then◌else◌, Bool-cases, ℤ, eqb_ℤ_iff,
  string_comparable, nat_comparable, int_comparable, bytes_comparable, ◌==◌, ==_refl,
}
use nacelle.Process.Http.{close_listener}

-- How many listeners a port has.
abbrev pub open_at : ℤ → List ℤ → ℕ
open_at port [] = 0
open_at port (q ∷ qs) = if q == port then suc (open_at port qs) else open_at port qs

open_at-append :
    (port new : ℤ) (qs : List ℤ) → open_at port (qs ++ new ∷ []) ≡ open_at port (new ∷ qs)
open_at-append port new [] = refl
open_at-append port new (q ∷ qs) = ground (arith, open_at-append port new qs)

pub open_at-close_listener :
    (port new : ℤ) (qs : List ℤ)
    → open_at port (close_listener new (qs ++ new ∷ [])) ≡ open_at port qs
unfolding close_listener
open_at-close_listener port new [] = rw (==_refl new) refl
open_at-close_listener port new (q ∷ qs) = elim (Bool-cases (q == new)) [
  | inl e ↦ rw e (ground (arith, open_at-append port new qs, (eqb_ℤ_iff q new).0 e))
  | inr e ↦ rw e (ground (arith, open_at-close_listener port new qs))
]
