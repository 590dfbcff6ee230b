-- ===== src/Prelude.antt =====
-- The names that the other modules share: the libraries', passed on, and those of the children.
mod Tests
mod Lists
mod Int
mod Equality
mod Map
mod Text
pub use Tests.*
pub use Lists.*
pub use Int.*
pub use Equality.{
  Comparable, ◌==◌, ==_refl, string_comparable, nat_comparable, int_comparable, bytes_comparable,
  str_iff, same_bytes_iff,
}
unfoldable pub use Equality.{same_bytes}
pub use Map.{Dict, has_key, lookup-insert, lookup-insert_self, lookup-insert_ne, mem_keys-insert}
unfoldable pub use Map.{lookup, insert, keys}
pub use Text.{Bytes, codes}
unfoldable pub use Text.{upper, lower}
pub use Prim.Native.Nat.{ℕ, zero, suc, ◌+◌, ◌-◌, ◌*◌, ◌≤◌, ◌<◌}
pub use Prim.Native.String.{String}
pub use mathlib.Core.Path.{◌≡◌, refl, sym, ap, ◌∙◌}
pub use mathlib.Core.Logic.{◌≢◌, ◌↔◌, ◌⊎◌, inl, inr}
pub use mathlib.Core.Bool.{Bool, true, false, not, ◌&&◌, ◌||◌}
pub use mathlib.Core.Option.{Option, none, some}
pub use mathlib.Core.List.{List, [], ◌∷◌, ◌++◌, map, append-nil, append_assoc, map-append}
pub use native.Mathlib.Omega.{arith}
