-- ===== src/Runner/Count.antt =====
-- How many processes are registered at the priorities of a list.
use nacelle.Prelude.{
  ℕ, ◌+◌, ◌≡◌, refl, ap, List, [], ◌∷◌, ◌++◌, arith, Dict, length, ℤ, string_comparable,
  nat_comparable, int_comparable,
}
use mathlib.Core.List.{reverse, reverse-cons}
use nacelle.Runner.Meta.{ProcessMeta}
use nacelle.Runner.Registry.{processes_at}

abbrev pub count_at : Dict ℤ (List ProcessMeta) → List ℤ → ℕ
count_at m [] = 0
count_at m (p ∷ ps) = length (processes_at m p) + count_at m ps

pub count_at-append :
    (m : Dict ℤ (List ProcessMeta)) (ps qs : List ℤ)
    → count_at m (ps ++ qs) ≡ count_at m ps + count_at m qs
count_at-append m [] qs = omega arith
count_at-append m (p ∷ ps) qs = omega (arith, count_at-append m ps qs)

pub count_at-reverse :
    (m : Dict ℤ (List ProcessMeta)) (ps : List ℤ) → count_at m (reverse ps) ≡ count_at m ps
count_at-reverse m [] = refl
count_at-reverse m (p ∷ ps) = omega (
  arith,
  ap (count_at m) (reverse-cons p ps),
  count_at-append m (reverse ps) (p ∷ []),
  count_at-reverse m ps,
)
