-- ===== src/Tags/Kinds.antt =====
-- The shapes of reflected types, and the types that `makeType` supports.
use nacelle.Prelude.{
  String, ◌≡◌, refl, ap, Bool, true, false, not, ◌&&◌, ◌||◌, none, [], arith, if◌then◌else◌,
  string_comparable, nat_comparable, int_comparable, bytes_comparable,
}
use nacelle.Config.Fetching.{is_exported}
use nacelle.Tags.Types.{
  Reflected, StructFields, basic, struct, pointer, array, slice, map_of, unsupported, no_fields,
  field,
}

-- What decides the layout of a type in memory: neither names nor tags.
unfoldable mutual
  pub shape : Reflected → Reflected
  shape (basic name) = basic name
  shape (struct name fields) = struct none (shape_fields fields)
  shape (pointer t) = pointer (shape t)
  shape (array n t) = array n (shape t)
  shape (slice t) = slice (shape t)
  shape (map_of k t) = map_of (shape k) (shape t)
  shape (unsupported kind) = unsupported kind

  pub shape_fields : StructFields → StructFields
  shape_fields no_fields = no_fields
  shape_fields (field name tags t rest) = field name [] (shape t) (shape_fields rest)

-- The shape of the type, without the fields that are not exported.
unfoldable mutual
  pub exported_shape : Reflected → Reflected
  exported_shape (basic name) = basic name
  exported_shape (struct name fields) = struct none (exported_fields fields)
  exported_shape (pointer t) = pointer (exported_shape t)
  exported_shape (array n t) = array n (exported_shape t)
  exported_shape (slice t) = slice (exported_shape t)
  exported_shape (map_of k t) = map_of (exported_shape k) (exported_shape t)
  exported_shape (unsupported kind) = unsupported kind

  pub exported_fields : StructFields → StructFields
  exported_fields no_fields = no_fields
  exported_fields (field name tags t rest) =
      let rest' = exported_fields rest in
      if is_exported name then field name [] (exported_shape t) rest' else rest'

-- Is no type of an unsupported kind reached through exported fields?
unfoldable mutual
  pub supported : Reflected → Bool
  supported (basic name) = true
  supported (struct name fields) = supported_fields fields
  supported (pointer t) = supported t
  supported (array n t) = supported t
  supported (slice t) = supported t
  supported (map_of k t) = supported k && supported t
  supported (unsupported kind) = false

  pub supported_fields : StructFields → Bool
  supported_fields no_fields = true
  supported_fields (field name tags t rest) =
      (not (is_exported name) || supported t) && supported_fields rest

-- The first unsupported kind that is reached so: keys before the types under them, and fields in
-- their order.
unfoldable mutual
  unfolding supported

  pub first_unsupported : Reflected → String
  first_unsupported (basic name) = ""
  first_unsupported (struct name fields) = first_unsupported_field fields
  first_unsupported (pointer t) = first_unsupported t
  first_unsupported (array n t) = first_unsupported t
  first_unsupported (slice t) = first_unsupported t
  first_unsupported (map_of k t) =
      let key = first_unsupported k in
      let val = first_unsupported t in if supported k then val else key
  first_unsupported (unsupported kind) = kind

  pub first_unsupported_field : StructFields → String
  first_unsupported_field no_fields = ""
  first_unsupported_field (field name tags t rest) =
      let here = first_unsupported t in
      let later = first_unsupported_field rest in
      if is_exported name && not (supported t) then here else later

-- Is every field exported, at any depth?
unfoldable mutual
  pub all_exported : Reflected → Bool
  all_exported (basic name) = true
  all_exported (struct name fields) = all_exported_fields fields
  all_exported (pointer t) = all_exported t
  all_exported (array n t) = all_exported t
  all_exported (slice t) = all_exported t
  all_exported (map_of k t) = all_exported k && all_exported t
  all_exported (unsupported kind) = true

  pub all_exported_fields : StructFields → Bool
  all_exported_fields no_fields = true
  all_exported_fields (field name tags t rest) =
      is_exported name && (all_exported t && all_exported_fields rest)

pub and_split : (a b : Bool) → (a && b) ≡ true → (a ≡ true) × (b ≡ true)
and_split a b h = (ground arith, ground arith)

mutual
  unfolding shape exported_shape all_exported

  pub exported_shape_lem : (t : Reflected) → all_exported t ≡ true → exported_shape t ≡ shape t
  exported_shape_lem (basic name) h = refl
  exported_shape_lem (struct name fields) h = ap (struct none) (exported_fields_lem fields h)
  exported_shape_lem (pointer t) h = ap pointer (exported_shape_lem t h)
  exported_shape_lem (array n t) h = ap (array n) (exported_shape_lem t h)
  exported_shape_lem (slice t) h = ap slice (exported_shape_lem t h)
  exported_shape_lem (map_of k t) h =
      let (hk, ht) = and_split (all_exported k) (all_exported t) h in
      cc (exported_shape_lem k hk, exported_shape_lem t ht)
  exported_shape_lem (unsupported kind) h = refl

  exported_fields_lem :
      (fs : StructFields) → all_exported_fields fs ≡ true → exported_fields fs ≡ shape_fields fs
  exported_fields_lem no_fields h = refl
  exported_fields_lem (field name tags t rest) h =
      let (hn, h') = and_split (is_exported name) (all_exported t && all_exported_fields rest) h in
      let (ht, hr) = and_split (all_exported t) (all_exported_fields rest) h' in
      rw hn (cc (exported_shape_lem t ht, exported_fields_lem rest hr))
