-- ===== src/Tags/Prefixed.antt =====
-- What `EnvTagPrefixer` changes, and what `Load` then reads.
use nacelle.Prelude.{
  ℕ, String, ◌≡◌, refl, sym, ap, ◌∙◌, ◌≢◌, ◌⊎◌, inl, inr, Bool, true, false, Option, none, some,
  List, [], ◌∷◌, ◌++◌, map, arith, has_key, lookup, if◌then◌else◌, Bool-cases, Option-cases, All,
  string_comparable, nat_comparable, int_comparable, bytes_comparable, ◌==◌, codes, upper,
}
use Prim.Native.String.{◌++◌ as append_text}
use Prim.Native.String.append as Append
use Prim.Native.Char.{code}
use mathlib.Core.Path.{subst}
use nacelle.Error.{ok, ◌>>=◌, bind-ok}
use nacelle.Reflect.{Tags, tag_value}
use nacelle.Config.Fetching.{is_exported}
use nacelle.Config.Loading.{env_names}
use nacelle.Tags.Modifiers.{TagLibrary, IsDocumented, set_prefixed, env_tag_prefixer}
use nacelle.Tags.Types.{
  Reflected, StructFields, struct, pointer, no_fields, field, alter_tags, make_type,
  make_struct_fields, apply_tag_modifiers,
}
use nacelle.Tags.Kinds.{shape, exported_shape, supported, supported_fields}
use nacelle.Tags.Shape.{NeverFails, make_struct_fields-Made}

codes-append : (s t : String) → codes (append_text s t) ≡ codes s ++ codes t
codes-append String.[] t = ap codes (λ i. Append.nil t i)
codes-append (String.◌∷◌ c s) t =
    ap codes (λ i. Append.cons c s t i) ∙ ap (λ u. code c ∷ u) (codes-append s t)

-- `{PREFIX}_{NAME}`, as the tag of a field that was called `{NAME}`.
abbrev pub prefixed : String → String → String
prefixed prefix name = append_text prefix (append_text "_" name)

codes-prefixed : (p v : String) → codes (prefixed p v) ≡ codes p ++ (b'_' ∷ codes v)
codes-prefixed p v =
    codes-append p (append_text "_" v) ∙ ap (λ u. codes p ++ u) (codes-append "_" v)

-- The exported fields of a struct, with their tags.
unfoldable pub visible : StructFields → List (String × Tags)
visible no_fields = []
visible (field name tags t rest) =
    let others = visible rest in if is_exported name then (name, tags) ∷ others else others

env_ne_empty : ◌≢◌ {A = String} "env" ""
env_ne_empty h = cc

module _ (L : TagLibrary) (d : IsDocumented L) (p : String) where
  open L use {Parsed, parse, render}

  -- The tags of a field before and after: where they cannot be parsed or have no `env` tag, each
  -- reads as before; else the value of that tag has the prefix, and the others read as before, so
  -- that `Load` with the prefix `c` looks up `{C}_{PREFIX}_{NAME}` and then `{PREFIX}_{NAME}`, in
  -- upper case.
  abbrev pub Prefixed : Tags → Tags → Type 0
  Prefixed tags tags' =
      ((parse tags ≡ none) × (tags' ≡ tags))
      ⊎ (((lookup "env" tags ≡ none) × ((k : String) → lookup k tags' ≡ lookup k tags))
          ⊎ ((v : String) × (lookup "env" tags ≡ some v)
              × ((k : String)
                  → lookup k tags' ≡ (if "env" == k then some (prefixed p v) else lookup k tags))
              × ((c : String)
                  → env_names c (tag_value "env" tags')
                    ≡ map upper (codes c ++ (b'_' ∷ (codes p ++ (b'_' ∷ codes v))))
                      ∷ map upper (codes p ++ (b'_' ∷ codes v))
                      ∷ [])))

  -- The names of an `env` tag have no comma, which would start the options of the tag.
  abbrev pub IsPlain : Tags → Type 0
  IsPlain tags = has_key b',' (codes (tag_value "env" tags)) ≡ false

  pub env_tag_prefixer-total : NeverFails L (env_tag_prefixer L p)
  unfolding env_tag_prefixer
  env_tag_prefixer-total name q = go (L.get q "env")
    where
      go : (o : Option String) → (q' : Parsed) × (set_prefixed L p q o ≡ ok q')
      go none = (q, refl)
      go (some v) = let (q', e, _) = d.set_lem q "env" (prefixed p v) env_ne_empty in (q', e)

  module _ (tags tags' : Tags) (q : Parsed) (parsed : parse tags ≡ some q) where
    no_env_tag :
        lookup "env" tags ≡ none
        → (do q' ← set_prefixed L p q (L.get q "env"); ok (render q')) ≡ ok tags'
        → (k : String) → lookup k tags' ≡ lookup k tags
    no_env_tag missing h k =
        let e : render q ≡ tags' = ground (arith, d.get-none tags q "env" parsed missing, h) in
        ap (lookup k) (sym e) ∙ d.lookup-render tags q k parsed

    env_tag :
        (v : String)
        → lookup "env" tags ≡ some v
        → has_key b',' (codes v) ≡ false
        → (do q' ← set_prefixed L p q (L.get q "env"); ok (render q')) ≡ ok tags'
        → (k : String)
        → lookup k tags' ≡ (if "env" == k then some (prefixed p v) else lookup k tags)
    env_tag v found plain h k =
        let (q', e, reads) = d.set_lem q "env" (prefixed p v) env_ne_empty in
        let e' : render q' ≡ tags' =
          ground (arith, d.get-parse tags q "env" v parsed found plain, e, h) in
        ap (lookup k) (sym e')
        ∙ (reads k
            ∙ ap (λ r. if "env" == k then some (prefixed p v) else r)
                (d.lookup-render tags q k parsed))

  tag_value_lem : (tags : Tags) (v : String) → lookup "env" tags ≡ some v → tag_value "env" tags ≡ v
  unfolding tag_value
  tag_value_lem tags v found = ground arith

  env_names-prefixed :
      (tags' : Tags) (v c : String)
      → lookup "env" tags' ≡ some (prefixed p v)
      → env_names c (tag_value "env" tags')
        ≡ map upper (codes c ++ (b'_' ∷ (codes p ++ (b'_' ∷ codes v))))
          ∷ map upper (codes p ++ (b'_' ∷ codes v))
          ∷ []
  unfolding env_names
  env_names-prefixed tags' v c found =
      ap (env_names c) (tag_value_lem tags' (prefixed p v) found)
      ∙ ap (λ u. map upper (codes c ++ (b'_' ∷ u)) ∷ map upper u ∷ []) (codes-prefixed p v)

  alter_tags-Prefixed :
      (name : String) (tags tags' : Tags)
      → IsPlain tags
      → alter_tags L (env_tag_prefixer L p) name tags ≡ ok tags'
      → Prefixed tags tags'
  unfolding alter_tags env_tag_prefixer
  alter_tags-Prefixed name tags tags' plain h = elim (Option-cases (parse tags)) [
    | inl bad ↦ inl (bad, ground arith)
    | inr (q, parsed) ↦ elim (Option-cases (lookup "env" tags)) [
      | inl missing ↦ inr (inl (missing, no_env_tag tags tags' q parsed missing (rw parsed at h)))
      | inr (v, found) ↦
          let plain' : has_key b',' (codes v) ≡ false =
            ap (λ u. has_key b',' (codes u)) (sym (tag_value_lem tags v found)) ∙ plain in
          let reads = env_tag tags tags' q parsed v found plain' (rw parsed at h) in
          inr (inr (v, found, reads, λ c. env_names-prefixed tags' v c (reads "env")))
    ]
  ]

  abbrev pub AllPrefixed : List (String × Tags) → List (String × Tags) → Type 0
  AllPrefixed [] [] = Unit
  AllPrefixed ((name, tags) ∷ fs) ((name', tags') ∷ fs') =
      (name' ≡ name) × Prefixed tags tags' × AllPrefixed fs fs'
  AllPrefixed _ _ = ⊥

  kept :
      (name : String) (tags : Tags) (t : Reflected) (rest fs' : StructFields)
      → is_exported name ≡ true
      → make_struct_fields L (env_tag_prefixer L p) (field name tags t rest) ≡ ok fs'
      → (t' : Reflected) × (tags' : Tags) × (rest' : StructFields) × (alter_tags L
            (env_tag_prefixer L p)
            name
            tags
          ≡ ok tags')
        × (make_struct_fields L (env_tag_prefixer L p) rest ≡ ok rest')
        × (field name tags' t' rest' ≡ fs')
  unfolding make_type
  kept name tags t rest fs' shown h =
      let modifier = env_tag_prefixer L p in
      let others = make_struct_fields L modifier rest in
      let chain : (do
        t' ← make_type L modifier t
        tags' ← alter_tags L modifier name tags
        rest' ← others
        ok (field name tags' t' rest'))
          ≡ ok fs' =
        rw shown at h in
      let (t', _, h2) = bind-ok (make_type L modifier t) _ chain in
      let (tags', altered, h3) = bind-ok (alter_tags L modifier name tags) _ h2 in
      let (rest', made, h4) = bind-ok others _ h3 in (t', tags', rest', altered, made, cc h4)

  make_struct_fields-AllPrefixed :
      (fs fs' : StructFields)
      → All (λ (f : String × Tags). IsPlain f.1) (visible fs)
      → make_struct_fields L (env_tag_prefixer L p) fs ≡ ok fs'
      → AllPrefixed (visible fs) (visible fs')
  unfolding make_type visible
  make_struct_fields-AllPrefixed no_fields fs' plain h =
      let e : no_fields ≡ fs' = cc h in subst (λ x. AllPrefixed [] (visible x)) e tt
  make_struct_fields-AllPrefixed (field name tags t rest) fs' plain h =
      let seen = λ (b : Bool). if b then (name, tags) ∷ visible rest else visible rest in
      elim (Bool-cases (is_exported name)) [
        | inr hidden ↦
            subst (λ b. AllPrefixed (seen b) (visible fs')) (sym hidden)
              (make_struct_fields-AllPrefixed rest fs'
                (subst (λ b. All (λ (f : String × Tags). IsPlain f.1) (seen b)) hidden plain)
                (rw hidden at h))
        | inl shown ↦
            let (t', tags', rest', altered, others, e) = kept name tags t rest fs' shown h in
            let (plain_tags, plain_rest) =
              subst (λ b. All (λ (f : String × Tags). IsPlain f.1) (seen b)) shown plain in
            subst (λ x. AllPrefixed (visible (field name tags t rest)) (visible x)) e
              (rw shown (
                refl,
                alter_tags-Prefixed name tags tags' plain_tags altered,
                make_struct_fields-AllPrefixed rest rest' plain_rest others,
              ))
      ]

  -- `ApplyTagModifiers` with an `EnvTagPrefixer`, on a pointer to a struct whose exported fields
  -- are of supported types and have `env` tags without options, gives a pointer of the same address
  -- to a struct with the same exported fields, of types of the same shapes less what is not
  -- exported. Tags that cannot be parsed, and other tags than `env`, read as before, and the value
  -- of an `env` tag has the prefix: `Load` then looks up the names with the prefix.
  pub apply-AllPrefixed :
      (name : Option String) (fs : StructFields) (address : ℕ)
      → supported_fields fs ≡ true
      → All (λ (f : String × Tags). IsPlain f.1) (visible fs)
      → (fs' : StructFields) × (apply_tag_modifiers L
            (pointer (struct name fs), address)
            (env_tag_prefixer L p ∷ [])
          ≡ ok (pointer (struct none fs'), address))
        × (shape (struct none fs') ≡ exported_shape (struct name fs))
        × AllPrefixed (visible fs) (visible fs')
  unfolding apply_tag_modifiers make_type supported shape exported_shape
  apply-AllPrefixed name fs address sup plain =
      let (fs', made, e) =
        make_struct_fields-Made L (env_tag_prefixer L p) env_tag_prefixer-total fs sup in
      (fs', rw made refl, ap (struct none) e, make_struct_fields-AllPrefixed fs fs' plain made)
