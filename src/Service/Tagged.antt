-- ===== src/Service/Tagged.antt =====
-- What `Inject` of service.go does to one field with a service tag.
use nacelle.Prelude.{
  String, ◌≡◌, refl, ◌≢◌, ◌⊎◌, inl, inr, Bool, true, false, Option, none, some, arith,
  if◌then◌else◌, Bool-cases, Option-cases, string_comparable, nat_comparable, int_comparable, ◌==◌,
  str_iff,
}
use mathlib.Core.Path.{subst}
use nacelle.Error.{
  Error, Outcome, ok, err, panic, field_invalid, field_not_settable, bad_optional_tag,
  cannot_assign, no_service,
}
use nacelle.Key.{text, serialize_key}
use nacelle.Reflect.{Runtime, Field, tag_value, parse_bool}
use nacelle.Service.Defs.{ServiceContainer, get}
use nacelle.Service.Store.{service_at}
use nacelle.Service.Inject.{load_service_field, missing_service, assignable, get_type_name}

module _ (R : Runtime) (c : ServiceContainer (R.Value)) where
  open R use {GoType, Value, type_of, type_string, convertible_to, convert}

  abbrev service_tag : Field GoType Value → String
  service_tag f = tag_value "service" f.tags

  abbrev optional_tag : Field GoType Value → String
  optional_tag f = tag_value "optional" f.tags

  -- The type of the value is one that converts to the type of the field.
  abbrev pub Fits : Value → GoType → Type 0
  Fits v target = (t : GoType) × (type_of v ≡ some t) × (convertible_to t target ≡ true)

  -- The field `f'` is `f` after a successful injection: a field with no service tag is as it was; a
  -- tagged one, which can be set, holds the registered service, converted to its type, or is as it
  -- was if its service is missing and it is tagged as optional.
  abbrev pub Injected : Field GoType Value → Field GoType Value → Type 0
  Injected f f' =
      ((service_tag f ≡ "") × (f' ≡ f))
      ⊎ ((service_tag f ≢ "")
          × (f.is_valid ≡ true)
          × (f.can_set ≡ true)
          × (((v : Value) × (service_at c (text (service_tag f)) ≡ some v)
                × Fits v f.type
                × (f' ≡ record f { value = convert v f.type }))
              ⊎ ((service_at c (text (service_tag f)) ≡ none)
                  × (parse_bool (optional_tag f) ≡ some true)
                  × (f' ≡ f))))

  -- The error of a field whose service is missing: that of `Get`, if the field is not optional, or
  -- that of a tag which is no Boolean.
  abbrev pub MissingError : Field GoType Value → Error → Type 0
  MissingError f e =
      ((optional_tag f ≡ "") × (e ≡ no_service (service_tag f)))
      ⊎ (((parse_bool (optional_tag f) ≡ some false) × (e ≡ no_service (service_tag f)))
          ⊎ ((optional_tag f ≢ "")
              × (parse_bool (optional_tag f) ≡ none)
              × (e ≡ bad_optional_tag f.name)))

  -- The error of a field whose service is nil or does not convert to its type.
  abbrev pub UnfitError : Field GoType Value → Value → Error → Type 0
  UnfitError f v e =
      ((type_of v ≡ none) × (e ≡ cannot_assign f.name "nil"))
      ⊎ ((t : GoType) × (type_of v ≡ some t)
          × (convertible_to t f.type ≡ false)
          × (e ≡ cannot_assign f.name (type_string t)))

  -- A field with a service tag that cannot be filled, and why.
  abbrev pub Unfillable : Field GoType Value → Error → Type 0
  Unfillable f e =
      (service_tag f ≢ "")
      × (((f.is_valid ≡ false) × (e ≡ field_invalid f.name))
          ⊎ (((f.is_valid ≡ true) × (f.can_set ≡ false) × (e ≡ field_not_settable f.name))
              ⊎ ((f.is_valid ≡ true)
                  × (f.can_set ≡ true)
                  × (((service_at c (text (service_tag f)) ≡ none) × MissingError f e)
                      ⊎ ((v : Value) × (service_at c (text (service_tag f)) ≡ some v)
                          × UnfitError f v e)))))

  abbrev pub LoadResult : Field GoType Value → Outcome (Field GoType Value) → Type 0
  LoadResult f (ok f') = Injected f f'
  LoadResult f (err e) = Unfillable f e
  LoadResult f (panic p) = ⊥

  module _ (f : Field GoType Value) (tagged : service_tag f ≢ "") (valid : f.is_valid ≡ true)
      (settable : f.can_set ≡ true) where
    load_missing :
        service_at c (text (service_tag f)) ≡ none
        → LoadResult f (missing_service R f (optional_tag f) (no_service (service_tag f)))
    unfolding missing_service
    load_missing missing = elim (Bool-cases (optional_tag f == "")) [
      | inl plain ↦ rw plain (
        tagged,
        inr (
            inr
              (valid, settable, inl (missing, inl ((str_iff (optional_tag f) "").0 plain, refl)))),
      )
      | inr given ↦
          let given' : optional_tag f ≢ "" = λ e. ground (arith, e, str_iff (optional_tag f) "") in
          rw given (parsed given' (parse_bool (optional_tag f)) refl)
    ]
      where
        parsed :
            optional_tag f ≢ ""
            → (o : Option Bool) → parse_bool (optional_tag f) ≡ o
            → LoadResult f (elim o as (λ _. Outcome (Field GoType Value)) [
              | none ↦ err (bad_optional_tag f.name)
              | some b ↦ if b then ok f else err (no_service (service_tag f))
            ])
        parsed given none h =
            (tagged, inr (inr (valid, settable, inl (missing, inr (inr (given, h, refl))))))
        parsed given (some true) h = inr (tagged, valid, settable, inr (missing, h, refl))
        parsed given (some false) h =
            (tagged, inr (inr (valid, settable, inl (missing, inr (inl (h, refl))))))

    load_found :
        (v : Value)
        → service_at c (text (service_tag f)) ≡ some v
        → (o : Outcome (Field GoType Value))
        → (if assignable R v f.type
            then ok (record f { value = convert v f.type })
            else err (cannot_assign f.name (get_type_name R v)))
          ≡ o
        → LoadResult f o
    unfolding assignable get_type_name
    load_found v found o h = elim (Option-cases (type_of v)) [
      | inl nil ↦
          let e : err (cannot_assign f.name "nil") ≡ o = ground (arith, h) in
          subst (LoadResult f) e
            (tagged, inr (inr (valid, settable, inr (v, found, inl (nil, refl)))))
      | inr (t, typed) ↦ elim (Bool-cases (convertible_to t f.type)) [
        | inl converts ↦
            let e : ok (record f { value = convert v f.type }) ≡ o = ground (arith, h) in
            subst (LoadResult f) e
              (inr (tagged, valid, settable, inl (v, found, (t, typed, converts), refl)))
        | inr other ↦
            let e : err (cannot_assign f.name (type_string t)) ≡ o = ground (arith, h) in
            subst (LoadResult f) e
              (tagged, inr (inr (valid, settable, inr (v, found, inr (t, typed, other, refl)))))
      ]
    ]

  pub load_service_field-LoadResult :
      (f : Field GoType Value)
      → service_tag f ≢ ""
      → (o : Outcome (Field GoType Value))
      → load_service_field R c f (service_tag f) (optional_tag f) ≡ o
      → LoadResult f o
  unfolding load_service_field get serialize_key
  load_service_field-LoadResult f tagged o h = elim (Bool-cases f.is_valid) [
    | inr invalid ↦
        let e : err (field_invalid f.name) ≡ o = ground (arith, h) in
        subst (LoadResult f) e (tagged, inl (invalid, refl))
    | inl valid ↦ elim (Bool-cases f.can_set) [
      | inr fixed ↦
          let e : err (field_not_settable f.name) ≡ o = ground (arith, h) in
          subst (LoadResult f) e (tagged, inr (inl (valid, fixed, refl)))
      | inl settable ↦ elim (Option-cases (service_at c (text (service_tag f)))) [
        | inl missing ↦
            let e : missing_service R f (optional_tag f) (no_service (service_tag f)) ≡ o =
              ground (arith, h) in
            subst (LoadResult f) e (load_missing f tagged valid settable missing)
        | inr (v, found) ↦ load_found f tagged valid settable v found o (ground (arith, h))
      ]
    ]
  ]
