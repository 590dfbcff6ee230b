-- ===== src/Service/Inject.antt =====
-- `Inject` of service.go: fills the tagged fields of a struct with services.
use nacelle.Prelude.{
  String, Bool, false, not, none, some, List, [], ◌∷◌, if◌then◌else◌, string_comparable,
  nat_comparable, int_comparable, ◌==◌,
}
use nacelle.Error.{
  Error, Outcome, Status, ok, err, panic, done, field_invalid, field_not_settable, bad_optional_tag,
  wrong_kind, cannot_assign,
}
use nacelle.Key.{text, serialize_key}
use nacelle.Reflect.{Runtime, Field, tag_value, parse_bool}
use nacelle.Service.Defs.{ServiceContainer, get}

-- `reflect.Indirect(reflect.ValueOf(obj))`: a struct with its fields, a value of another kind, or the
-- zero value of package reflect, for nil and for a nil pointer.
pub data Object (GoType Value : Type 0) : Type 0 where
  struct : List (Field GoType Value) → Object GoType Value
  other_kind : Object GoType Value
  nothing : Object GoType Value

module _ (R : Runtime) where
  open R use {GoType, Value, type_of, type_string, convertible_to, convert}

  unfoldable pub get_type_name : Value → String
  get_type_name v = elim (type_of v) [ none ↦ "nil" | some t ↦ type_string t ]

  -- `targetValue.IsValid() && targetValue.Type().ConvertibleTo(targetType)`
  unfoldable pub assignable : Value → GoType → Bool
  assignable v target = elim (type_of v) [ none ↦ false | some t ↦ convertible_to t target ]

  -- A service that is missing: nothing happens if the field is tagged as optional.
  unfoldable pub missing_service :
      Field GoType Value → String → Error → Outcome (Field GoType Value)
  missing_service f optional e = if optional == "" then err e else elim (parse_bool optional) [
    | none ↦ err (bad_optional_tag f.name)
    | some optional_value ↦ if optional_value then ok f else err e
  ]

  unfoldable pub load_service_field :
      ServiceContainer Value → Field GoType Value → String → String → Outcome (Field GoType Value)
  unfolding missing_service assignable get_type_name get serialize_key
  load_service_field c f service optional =
      if not f.is_valid
      then err (field_invalid f.name)
      else if not f.can_set
      then err (field_not_settable f.name)
      else elim (get c (text service)) [
        | panic p ↦ panic p
        | err e ↦ missing_service f optional e
        | ok value ↦
            if assignable value f.type
            then ok (record f { value = convert value f.type })
            else err (cannot_assign f.name (get_type_name value))
      ]

  -- The loop over the fields. The fields before the one that fails keep what was injected.
  unfoldable pub inject_fields :
      ServiceContainer Value → List (Field GoType Value) → List (Field GoType Value) × Status
  inject_fields c [] = ([], done)
  inject_fields c (f ∷ fs) =
      let rest = inject_fields c fs in
      if tag_value "service" f.tags == ""
      then (f ∷ rest.0, rest.1)
      else elim (load_service_field c f (tag_value "service" f.tags)
          (tag_value "optional" f.tags)) [
            | ok f' ↦ (f' ∷ rest.0, rest.1)
            | err e ↦ (f ∷ fs, err e)
            | panic p ↦ (f ∷ fs, panic p)
          ]

  unfoldable pub inject :
      ServiceContainer Value → Object GoType Value → Object GoType Value × Status
  unfolding inject_fields
  inject c nothing = (nothing, panic wrong_kind)
  inject c other_kind = (other_kind, done)
  inject c (struct fs) = let (fs', r) = inject_fields c fs in (struct fs', r)
