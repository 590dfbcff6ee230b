-- ===== src/Service/Filling.antt =====
-- What `Inject` of service.go does to the fields of a struct.
use nacelle.Prelude.{
  ◌≡◌, refl, ap, ◌≢◌, ◌⊎◌, inl, inr, List, [], ◌∷◌, ◌++◌, arith, Bool-cases, string_comparable,
  nat_comparable, int_comparable, ◌==◌, str_iff,
}
use nacelle.Error.{Error, Outcome, Status, ok, err, panic, done, wrong_kind}
use nacelle.Reflect.{Runtime, Field, tag_value}
use nacelle.Service.Defs.{ServiceContainer}
use nacelle.Service.Tagged.{Injected, Unfillable, LoadResult, load_service_field-LoadResult}
use nacelle.Service.Inject.{
  Object, struct, other_kind, nothing, inject, inject_fields, load_service_field,
}

module _ (R : Runtime) (c : ServiceContainer (R.Value)) where
  open R use {GoType, Value, type_of, type_string, convertible_to, convert}

  abbrev pub AllInjected : List (Field GoType Value) → List (Field GoType Value) → Type 0
  AllInjected [] [] = Unit
  AllInjected [] (g ∷ gs) = ⊥
  AllInjected (f ∷ fs) [] = ⊥
  AllInjected (f ∷ fs) (g ∷ gs) = Injected R c f g × AllInjected fs gs

  -- Where a field stopped the injection: the fields before it are filled, it and those after it are
  -- as they were.
  abbrev pub StoppedAt : Error → List (Field GoType Value) → List (Field GoType Value) → Type 0
  StoppedAt e fs gs =
      (pre : List (Field GoType Value)) × (pre' : List (Field GoType Value)) × (f : Field GoType
        Value)
      × (post : List (Field GoType Value)) × (fs ≡ pre ++ f ∷ post)
      × (gs ≡ pre' ++ f ∷ post)
      × AllInjected pre pre'
      × Unfillable R c f e

  abbrev pub InjectionResult :
      List (Field GoType Value) → List (Field GoType Value) × Status → Type 0
  InjectionResult fs r =
      ((r.1 ≡ done) × AllInjected fs r.0) ⊎ ((e : Error) × (r.1 ≡ err e) × StoppedAt e fs r.0)

  InjectionResult-cons :
      (f f' : Field GoType Value) (fs : List (Field GoType Value))
      (r : List (Field GoType Value) × Status)
      → Injected R c f f'
      → InjectionResult fs r
      → InjectionResult (f ∷ fs) (f' ∷ r.0, r.1)
  InjectionResult-cons f f' fs r i (inl (e, all)) = inl (e, (i, all))
  InjectionResult-cons f f' fs r i (inr (e, h, (pre, pre', g, post, p, q, all, l))) =
      inr (e, h, (f ∷ pre, f' ∷ pre', g, post, ap (◌∷◌ f) p, ap (◌∷◌ f') q, (i, all), l))

  inject_fields-InjectionResult :
      (fs : List (Field GoType Value)) → InjectionResult fs (inject_fields R c fs)
  unfolding inject_fields
  inject_fields-InjectionResult [] = inl (refl, tt)
  inject_fields-InjectionResult (f ∷ fs) = elim (Bool-cases (tag_value "service" f.tags == "")) [
    | inl plain ↦ rw plain (
        InjectionResult-cons f f fs _
          (inl ((str_iff (tag_value "service" f.tags) "").0 plain, refl))
          (inject_fields-InjectionResult fs))
    | inr given ↦
        let tagged : tag_value "service" f.tags ≢ "" =
          λ e. ground (arith, e, str_iff (tag_value "service" f.tags) "") in
        rw given (
          tagged_field
            (load_service_field R c f (tag_value "service" f.tags) (tag_value "optional" f.tags))
            (load_service_field-LoadResult R c f tagged _ refl) (inject_fields-InjectionResult fs))
  ]
    where
      tagged_field :
          (o : Outcome (Field GoType Value))
          → LoadResult R c f o
          → InjectionResult fs (inject_fields R c fs)
          → InjectionResult (f ∷ fs) (elim o [
            | ok f' ↦ (f' ∷ (inject_fields R c fs).0, (inject_fields R c fs).1)
            | err e ↦ (f ∷ fs, err e)
            | panic p ↦ (f ∷ fs, panic p)
          ])
      tagged_field (ok f') h ih = InjectionResult-cons f f' fs _ h ih
      tagged_field (err e) h ih = inr (e, refl, ([], [], f, fs, refl, refl, tt, h))
      tagged_field (panic p) h ih = absurd h

  -- What `Inject` returns for each kind of object.
  abbrev pub InjectResult : Object GoType Value → Object GoType Value × Status → Type 0
  InjectResult (struct fs) r =
      (gs : List (Field GoType Value)) × (r.0 ≡ struct gs) × InjectionResult fs (gs, r.1)
  InjectResult other_kind r = r ≡ (other_kind, done)
  InjectResult nothing r = r ≡ (nothing, panic wrong_kind)

  -- `Inject` fills every field of a struct, each as its tags say, or stops at the first field that
  -- cannot be filled, with the error of that field; it does nothing to an object of another kind,
  -- and panics for nil and for a nil pointer.
  pub inject_lem : (o : Object GoType Value) → InjectResult o (inject R c o)
  unfolding inject
  inject_lem (struct fs) = ((inject_fields R c fs).0, refl, inject_fields-InjectionResult fs)
  inject_lem other_kind = refl
  inject_lem nothing = refl
