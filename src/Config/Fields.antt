-- ===== src/Config/Fields.antt =====
-- What a successful `Load` leaves in the fields of a struct.
use nacelle.Prelude.{
  String, ◌≡◌, sym, ap, ◌∙◌, ◌≢◌, ◌⊎◌, inl, inr, true, false, Option, none, some, List, [], ◌∷◌,
  ◌++◌, map, upper, arith, Bool-cases, Option-cases, string_comparable, nat_comparable,
  int_comparable, bytes_comparable, ◌==◌, str_iff, Bytes, codes,
}
use mathlib.Core.Path.{subst}
use nacelle.Error.{Error}
use nacelle.Reflect.{Field, tag_value, parse_bool}
use nacelle.Config.Json.{Json, to_json}
use nacelle.Config.Loading.{
  Environment, get_first, env_names, load_field, load_fields, load_default, load_missing,
}

module _ {GoType Value : Type 0} (json : Json GoType Value) (env : Environment)
    (prefix : String) where
  -- The text was coerced into the field.
  abbrev pub Holds : Bytes → Field GoType Value → Field GoType Value → Type 0
  Holds text f f' =
      ((to_json json text f.type f.value).1 ≡ true)
      × (f' ≡ record f { value = (to_json json text f.type f.value).0 })

  -- The environment's text for the field: of `{PREFIX}_{NAME}`, or else of `{NAME}`.
  abbrev pub supplied : Field GoType Value → Option Bytes
  supplied f =
      let tag = codes (tag_value "env" f.tags) in
      elim (env (map upper (codes prefix ++ (b'_' ∷ tag)))) [
        | some text ↦ some text
        | none ↦ env (map upper tag)
      ]

  supplied_lem :
      (f : Field GoType Value)
      → get_first env (env_names prefix (tag_value "env" f.tags)) ≡ supplied f
  unfolding get_first env_names
  supplied_lem f =
      elim (Option-cases
        (env (map upper (codes prefix ++ (b'_' ∷ codes (tag_value "env" f.tags)))))) [
          | inr (text, found) ↦ ground arith
          | inl missing ↦ elim (Option-cases (env (map upper (codes (tag_value "env" f.tags))))) [
            | inr (text, found) ↦ ground arith
            | inl missing' ↦ ground arith
          ]
        ]

  -- `f'` is `f` after it was loaded without an error: a field with no `env` tag is as it was; one with
  -- the tag for which the environment has a text holds it; else the field is not required, and holds its
  -- default if it has one. A field with the tag is one that can be set.
  abbrev pub Loaded : Field GoType Value → Field GoType Value → Type 0
  Loaded f f' =
      ((tag_value "env" f.tags ≡ "") × (f' ≡ f))
      ⊎ ((tag_value "env" f.tags ≢ "")
          × (f.is_valid ≡ true)
          × (f.can_set ≡ true)
          × (((text : Bytes) × (supplied f ≡ some text) × Holds text f f')
              ⊎ ((supplied f ≡ none)
                  × ((tag_value "required" f.tags ≡ "")
                      ⊎ (parse_bool (tag_value "required" f.tags) ≡ some false))
                  × (((tag_value "default" f.tags ≡ "") × (f' ≡ f))
                      ⊎ Holds (codes (tag_value "default" f.tags)) f f'))))

  abbrev pub AllLoaded : List (Field GoType Value) → List (Field GoType Value) → Type 0
  AllLoaded [] [] = Unit
  AllLoaded (f ∷ fs) (g ∷ gs) = Loaded f g × AllLoaded fs gs
  AllLoaded _ _ = ⊥

  load_default-Holds :
      (f : Field GoType Value) (default : String)
      → (load_default json env f default).1 ≡ none
      → ((default ≡ "") × ((load_default json env f default).0 ≡ f))
        ⊎ Holds (codes default) f (load_default json env f default).0
  load_default-Holds f default h = elim (Bool-cases (default == "")) [
    | inl missing ↦ inl ((str_iff default "").0 missing, ground arith)
    | inr given ↦ inr (ground arith, ground arith)
  ]

  load_missing_lem :
      (f : Field GoType Value) (default required : String)
      → (load_missing json env f default required).1 ≡ none
      → ((required ≡ "") ⊎ (parse_bool required ≡ some false))
        × (load_missing json env f default required ≡ load_default json env f default)
  load_missing_lem f default required h = elim (Bool-cases (required == "")) [
    | inl absent ↦ (inl ((str_iff required "").0 absent), ground arith)
    | inr given ↦ (inr (ground arith), ground arith)
  ]

  Loaded-default :
      (f : Field GoType Value) (r : Field GoType Value × Option Error)
      → tag_value "env" f.tags ≢ ""
      → f.is_valid ≡ true
      → f.can_set ≡ true
      → supplied f ≡ none
      → r ≡ load_missing json env f (tag_value "default" f.tags) (tag_value "required" f.tags)
      → r.1 ≡ none
      → Loaded f r.0
  Loaded-default f r tagged valid settable missing e h =
      let default = tag_value "default" f.tags in
      let required = tag_value "required" f.tags in
      let (optional, e') = load_missing_lem f default required (ap (λ x. x.1) (sym e) ∙ h) in
      let path : load_default json env f default ≡ r = sym (e ∙ e') in
      inr (
        tagged,
        valid,
        settable,
        inr (
          missing,
          optional,
          subst
              (λ (x : Field GoType Value × Option Error).
                ((default ≡ "") × (x.0 ≡ f)) ⊎ Holds (codes default) f x.0)
              path (load_default-Holds f default (ap (λ x. x.1) path ∙ h)),
        ),
      )

  load_field-Loaded :
      (f : Field GoType Value)
      → (load_field json env prefix f).1 ≡ none
      → Loaded f (load_field json env prefix f).0
  unfolding load_field
  load_field-Loaded f h = elim (Bool-cases (tag_value "env" f.tags == "")) [
    | inl plain ↦ inl ((str_iff (tag_value "env" f.tags) "").0 plain, ground arith)
    | inr tagged ↦ elim (Option-cases (supplied f)) [
      | inr (text, found) ↦ inr (
        (λ e. ground (arith, e, str_iff (tag_value "env" f.tags) "")),
        ground arith,
        ground arith,
        inl (
          text,
          found,
          (ground (arith, supplied_lem f ∙ found), ground (arith, supplied_lem f ∙ found)),
        ),
      )
      | inl missing ↦
          Loaded-default f (load_field json env prefix f)
            (λ e. ground (arith, e, str_iff (tag_value "env" f.tags) "")) (ground arith)
            (ground arith) missing (ground (arith, supplied_lem f ∙ missing)) h
    ]
  ]

  -- If the fields of a struct load without an error, then every field is loaded as its tags and the
  -- environment say.
  pub load_fields-Loaded :
      (fs : List (Field GoType Value))
      → (load_fields json env prefix fs).1 ≡ []
      → AllLoaded fs (load_fields json env prefix fs).0
  unfolding load_fields
  load_fields-Loaded [] h = tt
  load_fields-Loaded (f ∷ fs) h = elim (Option-cases (load_field json env prefix f).1) [
    | inl fine ↦ (load_field-Loaded f fine, load_fields-Loaded fs (ground arith))
    | inr (e, failing) ↦ absurd (ground arith)
  ]

  required-given : (required : String) → parse_bool required ≡ some true → required ≢ ""
  unfolding parse_bool
  required-given required h e = cc (ap parse_bool e)

  load_field-required :
      (f : Field GoType Value)
      → tag_value "env" f.tags ≢ ""
      → supplied f ≡ none
      → parse_bool (tag_value "required" f.tags) ≡ some true
      → (load_field json env prefix f).1 ≢ none
  unfolding load_field
  load_field-required f tagged missing needed h =
      let given : tag_value "required" f.tags ≢ "" =
        required-given (tag_value "required" f.tags) needed in
      ground (
        arith,
        supplied_lem f ∙ missing,
        str_iff (tag_value "env" f.tags) "",
        str_iff (tag_value "required" f.tags) "",
      )

  -- A field that is required, and that the environment has no text for, is an error of the load,
  -- whatever its default.
  pub load_fields-required :
      (pre post : List (Field GoType Value)) (f : Field GoType Value)
      → tag_value "env" f.tags ≢ ""
      → supplied f ≡ none
      → parse_bool (tag_value "required" f.tags) ≡ some true
      → (load_fields json env prefix (pre ++ f ∷ post)).1 ≢ []
  unfolding load_fields
  load_fields-required [] post f tagged missing needed h =
      ground (arith, load_field-required f tagged missing needed)
  load_fields-required (g ∷ pre) post f tagged missing needed h =
      ground (arith, load_fields-required pre post f tagged missing needed)
