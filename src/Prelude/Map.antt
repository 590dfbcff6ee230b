-- ===== src/Prelude/Map.antt =====
-- Go's `map`, as an association list with at most one entry for a key that `insert` has written.
-- The order of the entries stands for the order in which `range` happens to meet them.
use mathlib.Core.Path.{◌≡◌, refl}
use mathlib.Core.Logic.{◌≢◌}
use mathlib.Core.Bool.{Bool, false, ◌||◌}
use mathlib.Core.Option.{Option, none, some}
use mathlib.Core.List.{List, [], ◌∷◌}
use native.Mathlib.Omega.{arith}
use nacelle.Prelude.Tests.{if◌then◌else◌}
use nacelle.Prelude.Equality.{Comparable, ◌==◌, ==_refl}

abbrev pub Dict {ℓ κ} : Type ℓ → Type κ → Type (ℓ ⊔ κ)
Dict K V = List (K × V)

-- Is the key in the list?
abbrev pub has_key {ℓ} : {K : Type ℓ} ⦃e : Comparable K⦄ → K → List K → Bool
has_key k [] = false
has_key k (j ∷ js) = (j == k) || has_key k js

module _ {ℓ κ} {K : Type ℓ} {V : Type κ} where
  unfoldable pub keys : Dict K V → List K
  keys [] = []
  keys ((j, w) ∷ m) = j ∷ keys m

module _ {ℓ κ} {K : Type ℓ} {V : Type κ} ⦃e : Comparable K⦄ where
  -- `v, ok := m[k]`
  unfoldable pub lookup : K → Dict K V → Option V
  lookup sought [] = none
  lookup sought ((at, held) ∷ others) = if at == sought then some held else lookup sought others

  -- `m[k] = v`
  unfoldable pub insert : K → V → Dict K V → Dict K V
  insert written value [] = (written, value) ∷ []
  insert written value ((at, held) ∷ others) =
      if at == written then (written, value) ∷ others else (at, held) ∷ insert written value others

  pub lookup-insert :
      (written sought : K) (value : V) (entries : Dict K V)
      → lookup sought (insert written value entries)
        ≡ (if written == sought then some value else lookup sought entries)
  unfolding lookup insert
  lookup-insert written sought value [] = refl
  lookup-insert written sought value ((at, held) ∷ others) = ground (
    arith,
    lookup-insert written sought value others,
    e.same_iff at written,
    e.same_iff at sought,
    e.same_iff written sought,
  )

  pub lookup-insert_self :
      (written : K) (value : V) (entries : Dict K V)
      → lookup written (insert written value entries) ≡ some value
  lookup-insert_self written value entries =
      ground (arith, ==_refl written, lookup-insert written written value entries)

  pub lookup-insert_ne :
      (written sought : K) (value : V) (entries : Dict K V)
      → written ≢ sought
      → lookup sought (insert written value entries) ≡ lookup sought entries
  lookup-insert_ne written sought value entries h =
      ground (arith, e.same_iff written sought, lookup-insert written sought value entries)

  -- A write adds its own key to the keys, and no other.
  pub mem_keys-insert :
      (k j : K) (v : V) (m : Dict K V)
      → has_key j (keys (insert k v m)) ≡ ((k == j) || has_key j (keys m))
  unfolding keys insert
  mem_keys-insert k j v [] = refl
  mem_keys-insert k j v ((i, w) ∷ m) =
      ground (arith, e.same_iff k j, e.same_iff i k, e.same_iff i j, mem_keys-insert k j v m)
