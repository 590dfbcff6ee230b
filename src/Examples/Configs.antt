-- ===== src/Examples/Configs.antt =====
-- The configuration at work.
use nacelle.Prelude.{
  ◌≡◌, refl, ap, ◌≢◌, inl, inr, Bool, true, false, none, some, List, [], ◌∷◌, arith, lookup, insert,
  string_comparable, nat_comparable, int_comparable, bytes_comparable, same_bytes, str_iff, Bytes,
  codes, upper,
}
use mathlib.Core.List.{Permᴰ}
use nacelle.Config.Ordering.{register_all, load-register_all}
use nacelle.Error.{ok, err, done, not_loaded, already_loaded, foreign}
use nacelle.Key.{Key, named, same_key, key_comparable}
use nacelle.Reflect.{Field, tag_value, parse_bool}
use nacelle.Config.Registry.{Chunk, EnvConfig, new_env_config, register, get}
use nacelle.Config.Json.{quote_json, to_json}
use nacelle.Config.Loading.{load, load_chunk, load_fields, get_first, env_names}
use nacelle.Config.Fetching.{fetch, get_exported_fields, is_exported}
use nacelle.Config.Dumping.{to_map}
use nacelle.Config.Keys.{get-load, get-load-register, errors_of}
use nacelle.Config.Fields.{AllLoaded, load_fields-Loaded, load_fields-required}
use nacelle.Config.Copying.{AllCopied, fetch_lem}
use nacelle.Config.Masking.{to_map-masked}
use nacelle.Config.Quoting.{unquote_json, unquote_json-quote_json, to_json-plain_text}
use nacelle.Examples.Toy.{
  ToyType, ToyValue, text_type, logger_type, logger, field, toy_json, toy_type_comparable,
  environment, read_text,
}
use nacelle.Examples.Toy

abbrev port_field : Bytes → Field ToyType ToyValue
port_field b = field "Port" (("env", "port") ∷ ("default", "5000") ∷ []) text_type (Toy.text b)

abbrev host_field : Field ToyType ToyValue
host_field =
    field "Host" (("env", "host") ∷ ("default", "local") ∷ ("required", "true") ∷ []) text_type
      (Toy.text [])

abbrev secret_field : Bytes → Field ToyType ToyValue
secret_field b = field "Key" (("env", "key") ∷ ("mask", "true") ∷ []) text_type (Toy.text b)

abbrev chunk_of : List (Field ToyType ToyValue) → Chunk ToyType ToyValue
chunk_of fs = record { fields = fs; post_load = none }

abbrev token : Key
token = named "token" "web"

abbrev empty_config : EnvConfig ToyType ToyValue
empty_config = record { prefix = "app"; chunks = []; loaded = false }

abbrev config_of : List (Field ToyType ToyValue) → Bool → EnvConfig ToyType ToyValue
config_of fs loaded = record { prefix = "app"; chunks = (token, chunk_of fs) ∷ []; loaded = loaded }

get-load_example :
    (empty_config.loaded ≡ false → get empty_config token ≡ err not_loaded)
    × ((chunk : Chunk ToyType ToyValue)
        → lookup token empty_config.chunks ≡ some chunk
        → get (load toy_json environment empty_config).0 token
          ≡ ok (load_chunk toy_json environment empty_config.prefix chunk).0)
    × ((load toy_json environment empty_config).1
        ≡ errors_of toy_json environment empty_config.prefix empty_config.chunks)
    × ((chunk : Chunk ToyType ToyValue)
        → register (load toy_json environment empty_config).0 token chunk
          ≡ ((load toy_json environment empty_config).0, err already_loaded))
get-load_example = get-load toy_json environment empty_config token

get-load-register_example :
    let chunk = chunk_of (port_field [] ∷ []) in
    ((register empty_config token chunk).1 ≡ done)
    × (get (load toy_json environment (register empty_config token chunk).0).0 token
        ≡ ok (load_chunk toy_json environment "app" chunk).0)
    × ((j : Key)
        → token ≢ j
        → get (load toy_json environment (register empty_config token chunk).0).0 j
          ≡ get (load toy_json environment empty_config).0 j)
unfolding lookup
get-load-register_example =
    get-load-register toy_json environment empty_config token (chunk_of (port_field [] ∷ [])) refl
      refl

-- The port is found under APP_PORT.
load_port :
    load_fields toy_json environment "app" (port_field [] ∷ []) ≡ (port_field (codes "80") ∷ [], [])
unfolding load_fields tag_value lookup env_names get_first upper same_bytes to_json quote_json
    unquote_json
load_port = refl

load_fields-Loaded_example :
    AllLoaded toy_json environment "app"
      (port_field [] ∷ [])
      (load_fields toy_json environment "app" (port_field [] ∷ [])).0
load_fields-Loaded_example =
    load_fields-Loaded toy_json environment "app" (port_field [] ∷ []) (ap (λ r. r.1) load_port)

load_fields-required_example :
    (load_fields toy_json environment "app" (port_field [] ∷ host_field ∷ [])).1 ≢ []
unfolding tag_value lookup env_names get_first upper same_bytes parse_bool
load_fields-required_example =
    load_fields-required toy_json environment "app" (port_field [] ∷ []) [] host_field
      (λ e. ground (arith, str_iff "host" "", e)) refl refl

fetch_lem_example :
    AllCopied
      (get_exported_fields (port_field (codes "80") ∷ []))
      (port_field [] ∷ [])
      (fetch
        (config_of (port_field (codes "80") ∷ []) true)
        token
        (chunk_of (port_field [] ∷ []))).0.fields
unfolding get lookup same_key fetch is_exported
fetch_lem_example =
    fetch_lem (config_of (port_field (codes "80") ∷ []) true) token
      (chunk_of (port_field (codes "80") ∷ [])) (chunk_of (port_field [] ∷ [])) refl refl refl

to_map-masked_example :
    to_map toy_json
      (λ v. foreign 0)
      (config_of (secret_field (codes "a") ∷ port_field [] ∷ []) true)
    ≡ to_map toy_json
        (λ v. foreign 0)
        (config_of (secret_field (codes "b") ∷ port_field [] ∷ []) true)
unfolding tag_value lookup parse_bool
to_map-masked_example =
    to_map-masked toy_json (λ v. foreign 0)
      (config_of (secret_field (codes "a") ∷ port_field [] ∷ []) true)
      (config_of (secret_field (codes "b") ∷ port_field [] ∷ []) true)
      ((inr (((λ e. ground (arith, str_iff "true" "", e)), refl), refl), (inl refl, tt)), tt)

unquote_json-quote_json_example : unquote_json (quote_json (codes "a b")) ≡ some (codes "a b")
unquote_json-quote_json_example = unquote_json-quote_json (codes "a b") (omega arith)

to_json-plain_text_example :
    to_json toy_json (codes "a b") text_type (Toy.text []) ≡ (Toy.text (codes "a b"), true)
unfolding unquote_json
to_json-plain_text_example =
    to_json-plain_text toy_json Toy.text (codes "a b") text_type (Toy.text [])
      (λ literal read w e. ap (λ o. read_text o w) e) refl refl (omega arith)

-- Two registrations, and the other order of the map that they make.
abbrev registrations : List (Key × Chunk ToyType ToyValue)
registrations =
    (token, chunk_of (port_field [] ∷ [])) ∷ (named "token" "db", chunk_of (host_field ∷ [])) ∷ []

abbrev other_order : EnvConfig ToyType ToyValue
other_order = record {
  prefix = "app";
  chunks =
      (named "token" "db", chunk_of (host_field ∷ []))
      ∷ (token, chunk_of (port_field [] ∷ []))
      ∷ [];
  loaded = false;
}

load-register_all_example :
    Permᴰ
      (load toy_json environment (register_all registrations (new_env_config "app"))).1
      (load toy_json environment other_order).1
    × ((k : Key)
        → get (load toy_json environment (register_all registrations (new_env_config "app"))).0 k
          ≡ get (load toy_json environment other_order).0 k)
unfolding new_env_config register lookup insert same_key
load-register_all_example =
    load-register_all toy_json environment "app" registrations other_order refl
      (Permᴰ.swap refl refl)
