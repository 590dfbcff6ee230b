-- ===== src/Tags/Types.antt =====
-- The types that package reflect shows, and `makeType` of config_tags.go, which makes new ones.
use nacelle.Prelude.{
  ℕ, String, not, Option, none, some, List, [], ◌∷◌, if◌then◌else◌, string_comparable,
  nat_comparable, int_comparable, bytes_comparable,
}
use nacelle.Error.{Outcome, ok, err, panic, must, ◌>>=◌, unsupported_type, wrong_kind}
use nacelle.Reflect.{Tags}
use nacelle.Config.Fetching.{is_exported}
use nacelle.Tags.Modifiers.{TagLibrary, TagModifier}

-- A type that does not contain itself. A struct has the name that it was declared with, or none; the
-- methods of a type go by its name. A basic type is given by its name, and a type of a kind that
-- `makeType` does not support (channels, functions, unsafe pointers, interfaces) by its kind.
mutual
  pub data Reflected : Type 0 where
    basic : String → Reflected
    struct : Option String → StructFields → Reflected
    pointer : Reflected → Reflected
    array : ℕ → Reflected → Reflected
    slice : Reflected → Reflected
    map_of : Reflected → Reflected → Reflected
    unsupported : String → Reflected

  pub data StructFields : Type 0 where
    no_fields : StructFields
    field : String → Tags → Reflected → StructFields → StructFields

module _ (L : TagLibrary) where
  open L use {Parsed, parse, render}

  abbrev pub alter_parsed : TagModifier L → String → Tags → Option Parsed → Outcome Tags
  alter_parsed modifier name tags none = ok tags
  alter_parsed modifier name tags (some parsed) = do p ← modifier name parsed; ok (render p)

  -- `getTags`, and the branch of `makeStructType` behind it: tags that cannot be parsed stay.
  unfoldable pub alter_tags : TagModifier L → String → Tags → Outcome Tags
  alter_tags modifier name tags = alter_parsed modifier name tags (parse tags)

  unfoldable mutual
    unfolding alter_tags is_exported

    pub make_type : TagModifier L → Reflected → Outcome Reflected
    make_type modifier (basic name) = ok (basic name)
    make_type modifier (struct name fields) = do
      fields' ← make_struct_fields modifier fields
      ok (struct none fields')
    make_type modifier (pointer t) = do inner ← make_type modifier t; ok (pointer inner)
    make_type modifier (array n t) = do inner ← make_type modifier t; ok (array n inner)
    make_type modifier (slice t) = do inner ← make_type modifier t; ok (slice inner)
    make_type modifier (map_of k t) = do
      key ← make_type modifier k
      val ← make_type modifier t
      ok (map_of key val)
    make_type modifier (unsupported kind) = err (unsupported_type kind)

    -- The loop of `makeStructType`; fields that are not exported are left out.
    pub make_struct_fields : TagModifier L → StructFields → Outcome StructFields
    make_struct_fields modifier no_fields = ok no_fields
    make_struct_fields modifier (field name tags t rest) =
        let others = make_struct_fields modifier rest in
        if not (is_exported name) then others else (do
          t' ← make_type modifier t
          tags' ← alter_tags modifier name tags
          rest' ← others
          ok (field name tags' t' rest'))

  -- `val.Type().Elem()`. An object that is a channel is not modelled.
  abbrev elem_type : Reflected → Outcome Reflected
  elem_type (pointer t) = ok t
  elem_type (array n t) = ok t
  elem_type (slice t) = ok t
  elem_type (map_of k t) = ok t
  elem_type _ = panic wrong_kind

  -- `val.Pointer()`
  abbrev address_of : Reflected × ℕ → Outcome ℕ
  address_of (array n t, address) = panic wrong_kind
  address_of (t, address) = ok address

  -- `apply`: the new pointer has the address of the old one.
  unfoldable pub apply : Reflected × ℕ → TagModifier L → Outcome (Reflected × ℕ)
  unfolding make_type
  apply obj modifier = do
    elem ← elem_type obj.0
    new_type ← make_type modifier elem
    address ← address_of obj
    ok (pointer new_type, address)

  unfoldable pub apply_tag_modifiers :
      Reflected × ℕ → List (TagModifier L) → Outcome (Reflected × ℕ)
  unfolding apply
  apply_tag_modifiers obj [] = ok obj
  apply_tag_modifiers obj (modifier ∷ modifiers) = do
    modified ← apply obj modifier
    apply_tag_modifiers modified modifiers

  unfoldable pub must_apply_tag_modifiers :
      Reflected × ℕ → List (TagModifier L) → Outcome (Reflected × ℕ)
  unfolding apply_tag_modifiers
  must_apply_tag_modifiers obj modifiers = must (apply_tag_modifiers obj modifiers)
