-- ===== src/Config/Loading.antt =====
-- `Load` of config.go: the fields of every chunk are filled from the environment or their defaults.
use nacelle.Prelude.{
  String, true, not, Option, none, some, List, [], ◌∷◌, ◌++◌, map, Dict, if◌then◌else◌,
  string_comparable, nat_comparable, int_comparable, bytes_comparable, ◌==◌, Bytes, codes, upper,
}
use nacelle.Error.{
  Error, field_invalid, field_not_settable, value_not_coercible, bad_required_tag, no_value,
  default_not_coercible,
}
use nacelle.Key.{Key}
use nacelle.Reflect.{Field, tag_value, parse_bool}
use nacelle.Config.Registry.{Chunk, EnvConfig}
use nacelle.Config.Json.{Json, to_json}

-- `os.LookupEnv`.
abbrev pub Environment : Type 0
Environment = Bytes → Option Bytes

unfoldable pub get_first : Environment → List Bytes → Option Bytes
get_first env [] = none
get_first env (name ∷ names) = elim (env name) [ some v ↦ some v | none ↦ get_first env names ]

-- `{PREFIX}_{NAME}` and `{NAME}`, in upper case.
unfoldable pub env_names : String → String → List Bytes
env_names prefix tag = map upper (codes prefix ++ (b'_' ∷ codes tag)) ∷ map upper (codes tag) ∷ []

module _ {GoType Value : Type 0} (json : Json GoType Value) (env : Environment) where
  -- A text that was found is put into the field, or the error is reported.
  abbrev pub assign : Error → Bytes → Field GoType Value → Field GoType Value × Option Error
  assign e text f =
      let (v, fits) = to_json json text f.type f.value in
      (record f { value = v }, if fits then none else some e)

  abbrev pub load_default : Field GoType Value → String → Field GoType Value × Option Error
  load_default f default =
      if default == "" then (f, none) else assign (default_not_coercible f.name) (codes default) f

  abbrev pub load_missing : Field GoType Value → String → String → Field GoType Value × Option Error
  load_missing f default required =
      if required == "" then load_default f default else elim (parse_bool required) [
        | none ↦ (f, some (bad_required_tag f.name))
        | some needed ↦ if needed then (f, some (no_value f.name)) else load_default f default
      ]

  unfoldable pub load_env_field :
      Field GoType Value → List Bytes → String → String → Field GoType Value × Option Error
  load_env_field f names default required =
      if not f.is_valid
      then (f, some (field_invalid f.name))
      else if not f.can_set
      then (f, some (field_not_settable f.name))
      else elim (get_first env names) [
        | some text ↦ assign (value_not_coercible f.name) text f
        | none ↦ load_missing f default required
      ]

  -- One round of the loop of `loadChunk`; a field without an `env` tag is skipped.
  unfoldable pub load_field : String → Field GoType Value → Field GoType Value × Option Error
  unfolding load_env_field
  load_field prefix f =
      if tag_value "env" f.tags == ""
      then (f, none)
      else load_env_field f (env_names prefix (tag_value "env" f.tags)) (tag_value "default" f.tags)
          (tag_value "required" f.tags)

  abbrev pub with_error : Option Error → List Error → List Error
  with_error none es = es
  with_error (some e) es = e ∷ es

  unfoldable pub load_fields :
      String → List (Field GoType Value) → List (Field GoType Value) × List Error
  unfolding load_field
  load_fields prefix [] = ([], [])
  load_fields prefix (f ∷ fs) =
      let (f', e) = load_field prefix f in
      let (fs', es) = load_fields prefix fs in (f' ∷ fs', with_error e es)

  -- `loadChunk`, returning the errors that it appends. `PostLoad` runs after failing fields too.
  unfoldable pub load_chunk : String → Chunk GoType Value → Chunk GoType Value × List Error
  unfolding load_fields
  load_chunk prefix chunk =
      let (fs, es) = load_fields prefix chunk.fields in
      elim chunk.post_load [
        | none ↦ (record chunk { fields = fs }, es)
        | some post ↦
            let (fs', e) = post fs in (record chunk { fields = fs' }, es ++ with_error e [])
      ]

  unfoldable pub load_chunks :
      String → Dict Key (Chunk GoType Value) → Dict Key (Chunk GoType Value) × List Error
  unfolding load_chunk
  load_chunks prefix [] = ([], [])
  load_chunks prefix ((k, chunk) ∷ rest) =
      let (chunk', es) = load_chunk prefix chunk in
      let (rest', es') = load_chunks prefix rest in ((k, chunk') ∷ rest', es ++ es')

  unfoldable pub load : EnvConfig GoType Value → EnvConfig GoType Value × List Error
  unfolding load_chunks
  load c =
      let (chunks, es) = load_chunks c.prefix c.chunks in
      (record c { loaded = true; chunks = chunks }, es)
