-- ===== src/Tags/Modifiers.antt =====
-- The two tag modifiers of config_tags.go.
use nacelle.Prelude.{
  String, ◌≡◌, ◌≢◌, false, Option, none, some, has_key, lookup, if◌then◌else◌, string_comparable,
  nat_comparable, int_comparable, bytes_comparable, ◌==◌, codes,
}
use Prim.Native.String.{◌++◌ as append_text}
use nacelle.Error.{Outcome, ok}
use nacelle.Reflect.{Tags}

-- Package structtag. The tag text of a field is given by what package reflect reads from it, and
-- `parse` is `none` where the package refuses the text. The name of a tag is its value up to the
-- first comma, and a tag that is set has a name only.
pub record TagLibrary : Type 1 where
  pub Parsed : Type 0
  pub parse : Tags → Option Parsed
  pub get : Parsed → String → Option String
  pub set : Parsed → String → String → Outcome Parsed
  pub render : Parsed → Tags

-- The documented behaviour of the package: parsing and printing keep every value, `Get` finds a name
-- without a comma as it was written, and `Set` writes one key, which is not empty, and succeeds.
pub record IsDocumented (L : TagLibrary) : Type 0 where
  pub lookup-render :
      (tags : Tags) (p : L.Parsed) (k : String)
      → L.parse tags ≡ some p
      → lookup k (L.render p) ≡ lookup k tags
  pub get-parse :
      (tags : Tags) (p : L.Parsed) (k v : String)
      → L.parse tags ≡ some p
      → lookup k tags ≡ some v
      → has_key b',' (codes v) ≡ false
      → L.get p k ≡ some v
  pub get-none :
      (tags : Tags) (p : L.Parsed) (k : String)
      → L.parse tags ≡ some p
      → lookup k tags ≡ none
      → L.get p k ≡ none
  pub set_lem :
      (p : L.Parsed) (k n : String)
      → k ≢ ""
      → (p' : L.Parsed) × (L.set p k n ≡ ok p')
        × ((j : String)
            → lookup j (L.render p') ≡ (if k == j then some n else lookup j (L.render p)))

-- The method of the interface `TagModifier`; of the field, the modifiers read the name only.
abbrev pub TagModifier : TagLibrary → Type 0
TagModifier L = String → L.Parsed → Outcome (L.Parsed)

module _ (L : TagLibrary) where
  open L use {Parsed, get, set}

  abbrev pub set_prefixed : String → Parsed → Option String → Outcome Parsed
  set_prefixed prefix tags none = ok tags
  set_prefixed prefix tags (some name) = set tags "env" (append_text prefix (append_text "_" name))

  -- `AlterFieldTag` of `EnvTagPrefixer`.
  unfoldable pub env_tag_prefixer : String → TagModifier L
  env_tag_prefixer prefix field tags = set_prefixed prefix tags (get tags "env")

  -- `AlterFieldTag` of `DefaultTagSetter`.
  unfoldable pub default_tag_setter : String → String → TagModifier L
  default_tag_setter target default_value field tags =
      if field == target then set tags "default" default_value else ok tags
