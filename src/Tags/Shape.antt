-- ===== src/Tags/Shape.antt =====
-- What the types that `makeType` makes have in common with the old ones.
use nacelle.Prelude.{
  String, ◌≡◌, refl, ap, ◌∙◌, ◌⊎◌, inl, inr, true, false, not, ◌||◌, Option, none, some, arith,
  Bool-cases, string_comparable, nat_comparable, int_comparable, bytes_comparable,
}
use nacelle.Error.{ok, err, unsupported_type}
use nacelle.Reflect.{Tags}
use nacelle.Config.Fetching.{is_exported}
use nacelle.Tags.Modifiers.{TagLibrary, TagModifier}
use nacelle.Tags.Types.{
  Reflected, StructFields, basic, struct, pointer, array, slice, map_of, unsupported, no_fields,
  field, alter_parsed, alter_tags, make_type, make_struct_fields,
}
use nacelle.Tags.Kinds.{
  shape, shape_fields, exported_shape, exported_fields, supported, supported_fields,
  first_unsupported, first_unsupported_field, all_exported, and_split, exported_shape_lem,
}

module _ (L : TagLibrary) (modifier : TagModifier L) where
  -- The modifier returns no error and does not panic.
  abbrev pub NeverFails : Type 0
  NeverFails = (name : String) (p : L.Parsed) → (p' : L.Parsed) × (modifier name p ≡ ok p')

  alter_tags_total :
      NeverFails
      → (name : String) (tags : Tags)
      → (tags' : Tags) × (alter_tags L modifier name tags ≡ ok tags')
  unfolding alter_tags
  alter_tags_total total name tags = go (L.parse tags)
    where
      go :
          (p : Option (L.Parsed))
          → (tags' : Tags) × (alter_parsed L modifier name tags p ≡ ok tags')
      go none = (tags, refl)
      go (some p) = let (p', q) = total name p in (L.render p', rw q refl)

  -- The new type exists, and has the shape of the old one without the fields that are not exported.
  abbrev pub Made : Reflected → Type 0
  Made t = (t' : Reflected) × (make_type L modifier t ≡ ok t') × (shape t' ≡ exported_shape t)

  abbrev pub MadeFields : StructFields → Type 0
  MadeFields fs =
      (fs' : StructFields) × (make_struct_fields L modifier fs ≡ ok fs')
      × (shape_fields fs' ≡ exported_fields fs)

  skip_field :
      (name : String) (tags : Tags) (t : Reflected) (rest : StructFields)
      → is_exported name ≡ false
      → MadeFields rest
      → MadeFields (field name tags t rest)
  unfolding make_type exported_shape
  skip_field name tags t rest h (rest', q, e) = (rest', rw h q, rw h e)

  keep_field :
      NeverFails
      → (name : String) (tags : Tags) (t : Reflected) (rest : StructFields)
      → is_exported name ≡ true
      → Made t
      → MadeFields rest
      → MadeFields (field name tags t rest)
  unfolding make_type exported_shape shape
  keep_field total name tags t rest h (t', p, d) (rest', q, e) =
      let (tags', a) = alter_tags_total total name tags in
      (field name tags' t' rest', rw (h, p, a, q) refl, rw h (cc (d, e)))

  module _ (total : NeverFails) where
    mutual
      unfolding make_type exported_shape supported shape

      make_type-Made : (t : Reflected) → supported t ≡ true → Made t
      make_type-Made (basic name) h = (basic name, refl, refl)
      make_type-Made (struct name fields) h =
          let (fs', q, e) = make_struct_fields-Made fields h in
          (struct none fs', rw q refl, ap (struct none) e)
      make_type-Made (pointer t) h =
          let (t', q, e) = make_type-Made t h in (pointer t', rw q refl, ap pointer e)
      make_type-Made (array n t) h =
          let (t', q, e) = make_type-Made t h in (array n t', rw q refl, ap (array n) e)
      make_type-Made (slice t) h =
          let (t', q, e) = make_type-Made t h in (slice t', rw q refl, ap slice e)
      make_type-Made (map_of k t) h =
          let (hk, ht) = and_split (supported k) (supported t) h in
          let (k', q, e) = make_type-Made k hk in
          let (t', q', e') = make_type-Made t ht in (map_of k' t', rw (q, q') refl, cc (e, e'))
      make_type-Made (unsupported kind) h = cc

      pub make_struct_fields-Made : (fs : StructFields) → supported_fields fs ≡ true → MadeFields fs
      make_struct_fields-Made no_fields h = (no_fields, refl, refl)
      make_struct_fields-Made (field name tags t rest) h =
          let (ht, hr) =
            and_split (not (is_exported name) || supported t) (supported_fields rest) h in
          elim (Bool-cases (is_exported name)) [
            | inr hidden ↦ skip_field name tags t rest hidden (make_struct_fields-Made rest hr)
            | inl visible ↦
                keep_field total name tags t rest visible (make_type-Made t (ground arith))
                  (make_struct_fields-Made rest hr)
          ]

    mutual
      unfolding make_type supported first_unsupported

      make_type-unsupported :
          (t : Reflected)
          → supported t ≡ false
          → make_type L modifier t ≡ err (unsupported_type (first_unsupported t))
      make_type-unsupported (basic name) h = cc
      make_type-unsupported (struct name fields) h =
          rw (make_struct_fields-unsupported fields h) refl
      make_type-unsupported (pointer t) h = rw (make_type-unsupported t h) refl
      make_type-unsupported (array n t) h = rw (make_type-unsupported t h) refl
      make_type-unsupported (slice t) h = rw (make_type-unsupported t h) refl
      make_type-unsupported (map_of k t) h = elim (Bool-cases (supported k)) [
        | inr bad ↦ rw (bad, make_type-unsupported k bad) refl
        | inl good ↦
            let (k', q, _) = make_type-Made k good in
            rw (good, q, make_type-unsupported t (ground arith)) refl
      ]
      make_type-unsupported (unsupported kind) h = refl

      make_struct_fields-unsupported :
          (fs : StructFields)
          → supported_fields fs ≡ false
          → make_struct_fields L modifier fs ≡ err (unsupported_type (first_unsupported_field fs))
      make_struct_fields-unsupported no_fields h = cc
      make_struct_fields-unsupported (field name tags t rest) h =
          elim (Bool-cases (is_exported name)) [
            | inr hidden ↦ rw (hidden, make_struct_fields-unsupported rest (ground arith)) refl
            | inl visible ↦ elim (Bool-cases (supported t)) [
              | inr bad ↦ rw (visible, bad, make_type-unsupported t bad) refl
              | inl good ↦
                  let (t', q, _) = make_type-Made t good in
                  let (tags', a) = alter_tags_total total name tags in
                  rw (visible, good, q, a, make_struct_fields-unsupported rest (ground arith)) refl
            ]
          ]

  -- For a modifier that never fails, `makeType` makes a type if no exported field reaches a type of
  -- an unsupported kind, which has the shape of the old one without the fields that are not
  -- exported, and else it returns the error that names the first such kind.
  pub make_type_lem :
      NeverFails
      → (t : Reflected)
      → ((supported t ≡ true) × Made t)
        ⊎ ((supported t ≡ false)
            × (make_type L modifier t ≡ err (unsupported_type (first_unsupported t))))
  make_type_lem total t = elim (Bool-cases (supported t)) [
    | inl good ↦ inl (good, make_type-Made total t good)
    | inr bad ↦ inr (bad, make_type-unsupported total t bad)
  ]

  -- Where every field is exported, the new type has exactly the shape of the old one: only its tags
  -- and the names of its structs may differ, and the memory behind the pointer is read as before.
  pub shape-make_type :
      NeverFails
      → (t : Reflected) → supported t ≡ true
      → all_exported t ≡ true
      → (t' : Reflected) × (make_type L modifier t ≡ ok t') × (shape t' ≡ shape t)
  shape-make_type total t good e =
      let (t', q, d) = make_type-Made total t good in (t', q, d ∙ exported_shape_lem t e)
