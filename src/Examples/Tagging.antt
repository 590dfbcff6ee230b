-- ===== src/Examples/Tagging.antt =====
-- Tag modifiers at work.
use nacelle.Prelude.{
  ◌≡◌, refl, ◌⊎◌, true, false, none, some, [], ◌∷◌, arith, lookup, insert, lookup-insert,
  string_comparable, nat_comparable, int_comparable, bytes_comparable,
}
use nacelle.Error.{ok, err, unsupported_type}
use nacelle.Reflect.{Tags, tag_value}
use nacelle.Config.Fetching.{is_exported}
use nacelle.Tags.Modifiers.{TagLibrary, IsDocumented, env_tag_prefixer, default_tag_setter}
use nacelle.Tags.Types.{
  Reflected, StructFields, basic, struct, pointer, slice, unsupported, no_fields, field, make_type,
  apply_tag_modifiers,
}
use nacelle.Tags.Kinds.{shape, exported_shape, supported, first_unsupported}
use nacelle.Tags.Shape.{Made, make_type_lem}
use nacelle.Tags.Prefixed.{visible, AllPrefixed, apply-AllPrefixed, env_tag_prefixer-total}

-- A library that parses every tag.
abbrev toy_tags : TagLibrary
toy_tags = record {
  Parsed = Tags;
  parse = some;
  get = λ p k. lookup k p;
  set = λ p k n. ok (insert k n p);
  render = λ p. p;
}

toy_tags-IsDocumented : IsDocumented toy_tags
toy_tags-IsDocumented = record {
  lookup-render = λ tags p k e. ground (arith, e);
  get-parse = λ tags p k v e found plain. ground (arith, e);
  get-none = λ tags p k e missing. ground (arith, e);
  set_lem = λ p k n h. (insert k n p, refl, λ j. lookup-insert k j n p);
}

abbrev fields : StructFields
fields =
    field "Port" (("env", "port") ∷ []) (basic "int")
      (field "cache" [] (unsupported "chan") (field "Hosts" [] (slice (basic "string")) no_fields))

abbrev tagged : Reflected
tagged = struct (some "Config") fields

fields-supported : supported tagged ≡ true
unfolding supported is_exported
fields-supported = refl

make_type_lem_example :
    ((supported tagged ≡ true) × Made toy_tags (env_tag_prefixer toy_tags "foo") tagged)
    ⊎ ((supported tagged ≡ false)
        × (make_type toy_tags (env_tag_prefixer toy_tags "foo") tagged
            ≡ err (unsupported_type (first_unsupported tagged))))
make_type_lem_example =
    make_type_lem toy_tags (env_tag_prefixer toy_tags "foo")
      (env_tag_prefixer-total toy_tags toy_tags-IsDocumented "foo") tagged

apply-AllPrefixed_example :
    (fs' : StructFields) × (apply_tag_modifiers toy_tags
        (pointer tagged, 8)
        (env_tag_prefixer toy_tags "foo" ∷ [])
      ≡ ok (pointer (struct none fs'), 8))
    × (shape (struct none fs') ≡ exported_shape tagged)
    × AllPrefixed toy_tags toy_tags-IsDocumented "foo" (visible fields) (visible fs')
unfolding visible is_exported tag_value lookup supported
apply-AllPrefixed_example =
    apply-AllPrefixed toy_tags toy_tags-IsDocumented "foo" (some "Config") fields 8 fields-supported
      (refl, (refl, tt))

-- The two modifiers, one after the other: `cache` is gone, and so the fields behind it have moved.
apply_twice :
    apply_tag_modifiers toy_tags
      (pointer tagged, 8)
      (env_tag_prefixer toy_tags "foo" ∷ default_tag_setter toy_tags "Hosts" "[]" ∷ [])
    ≡ ok (
      pointer (
          struct none (
            field "Port"
              (("env", "foo_port") ∷ [])
              (basic "int")
              (field "Hosts" (("default", "[]") ∷ []) (slice (basic "string")) no_fields))),
      8,
    )
unfolding apply_tag_modifiers env_tag_prefixer default_tag_setter is_exported lookup insert
apply_twice = refl
