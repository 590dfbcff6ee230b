-- ===== src/Config/Dumping.antt =====
-- `ToMap` of config.go: the loaded values as texts under their display names, less the masked ones.
use nacelle.Prelude.{
  Bool, false, not, Option, none, some, List, [], ◌∷◌, map, Dict, insert, if◌then◌else◌,
  string_comparable, nat_comparable, int_comparable, bytes_comparable, ◌==◌, Bytes, codes, lower,
}
use nacelle.Error.{Error, Outcome, ok, err, ◌>>=◌, bad_mask_tag}
use nacelle.Key.{Key}
use nacelle.Reflect.{Field, Tags, tag_value, parse_bool}
use nacelle.Config.Registry.{Chunk, EnvConfig}
use nacelle.Config.Json.{Json}

-- `none` for a field that has neither a `display` nor an `env` tag.
unfoldable pub display_name : Tags → Option Bytes
display_name tags =
    if not (tag_value "display" tags == "")
    then some (codes (tag_value "display" tags))
    else if tag_value "env" tags == ""
    then none
    else some (map lower (codes (tag_value "env" tags)))

-- Is the field masked? `none` for a tag that is no Boolean.
unfoldable pub mask : Tags → Option Bool
mask tags = if tag_value "mask" tags == "" then some false else parse_bool (tag_value "mask" tags)

module _ {GoType Value : Type 0} (json : Json GoType Value) (marshal_error : Value → Error) where
  open json use {marshal, is_string_kind, string_value}

  -- The text of a value; package json says which values it cannot write.
  unfoldable pub dump_value : GoType → Value → Outcome Bytes
  dump_value type v =
      if is_string_kind type
      then ok (string_value v)
      else elim (marshal v) [ none ↦ err (marshal_error v) | some text ↦ ok text ]

  -- One round of the loop of `dumpChunk`.
  unfoldable pub dump_field : Field GoType Value → Dict Bytes Bytes → Outcome (Dict Bytes Bytes)
  unfolding display_name mask dump_value
  dump_field f m = elim (display_name f.tags) [
    | none ↦ ok m
    | some name ↦ elim (mask f.tags) [
      | none ↦ err (bad_mask_tag f.name)
      | some masked ↦
          if masked then ok m else (do text ← dump_value f.type f.value; ok (insert name text m))
    ]
  ]

  unfoldable pub dump_fields :
      List (Field GoType Value) → Dict Bytes Bytes → Outcome (Dict Bytes Bytes)
  unfolding dump_field
  dump_fields [] m = ok m
  dump_fields (f ∷ fs) m = do m' ← dump_field f m; dump_fields fs m'

  unfoldable pub dump_chunks :
      Dict Key (Chunk GoType Value) → Dict Bytes Bytes → Outcome (Dict Bytes Bytes)
  unfolding dump_fields
  dump_chunks [] m = ok m
  dump_chunks ((k, chunk) ∷ rest) m = do m' ← dump_fields chunk.fields m; dump_chunks rest m'

  unfoldable pub to_map : EnvConfig GoType Value → Outcome (Dict Bytes Bytes)
  unfolding dump_chunks
  to_map c = dump_chunks c.chunks []
