-- ===== src/Prelude/Equality.antt =====
-- Go's `==` on the types that serve as map keys, as an interface with an instance for each.
use Prim.Native.Nat.{ℕ}
use Prim.Native.String.{String}
use mathlib.Core.Path.{◌≡◌, refl}
use mathlib.Core.Logic.{◌↔◌}
use mathlib.Core.Bool.{Bool, true, false, ◌&&◌}
use mathlib.Core.List.{List, [], ◌∷◌}
use native.Mathlib.Omega.{arith}
use text.Mathlib.TextEquality.{eq_iff}
use text.Mathlib.Text.{◌==◌ as str_eq}
use nacelle.Prelude.Tests.{eqb, eqb_iff}
use nacelle.Prelude.Int.{ℤ, eqb_ℤ, eqb_ℤ_iff}

pub record Comparable {ℓ} (A : Type ℓ) : Type ℓ where
  pub same : A → A → Bool
  pub same_iff : (a b : A) → (same a b ≡ true) ↔ (a ≡ b)

infix 50 ◌==◌
abbrev pub ◌==◌ {ℓ} : {K : Type ℓ} ⦃equality : Comparable K⦄ → K → K → Bool
◌==◌ ⦃equality⦄ = equality.same

pub ==_refl {ℓ} : {A : Type ℓ} ⦃e : Comparable A⦄ (a : A) → (a == a) ≡ true
==_refl ⦃e⦄ a = (e.same_iff a a).1 refl

instance abbrev pub string_comparable : Comparable String
string_comparable = record { same = str_eq; same_iff = eq_iff }

instance abbrev pub nat_comparable : Comparable ℕ
nat_comparable = record { same = eqb; same_iff = eqb_iff }

instance abbrev pub int_comparable : Comparable ℤ
int_comparable = record { same = eqb_ℤ; same_iff = eqb_ℤ_iff }

unfoldable pub same_bytes : List ℕ → List ℕ → Bool
same_bytes [] [] = true
same_bytes (a ∷ s) (b ∷ t) = eqb a b && same_bytes s t
same_bytes _ _ = false

same_bytes_sound : (s t : List ℕ) → same_bytes s t ≡ true → s ≡ t
unfolding same_bytes
same_bytes_sound [] [] h = refl
same_bytes_sound (a ∷ s) (b ∷ t) h = ground (arith, same_bytes_sound s t)
same_bytes_sound _ _ h = cc

same_bytes_refl : (s : List ℕ) → same_bytes s s ≡ true
unfolding same_bytes
same_bytes_refl [] = refl
same_bytes_refl (a ∷ s) = rw (==_refl a) (same_bytes_refl s)

pub same_bytes_iff : (s t : List ℕ) → (same_bytes s t ≡ true) ↔ (s ≡ t)
same_bytes_iff s t = (same_bytes_sound s t, λ e. rw e (same_bytes_refl t))

instance abbrev pub bytes_comparable : Comparable (List ℕ)
bytes_comparable = record { same = same_bytes; same_iff = same_bytes_iff }

-- The equality test of texts, decided at a pair of texts.
pub str_iff : (s t : String) → (str_eq s t ≡ true) ↔ (s ≡ t)
str_iff = eq_iff
