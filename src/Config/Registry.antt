-- ===== src/Config/Registry.antt =====
-- The registration half of config.go: chunks of configuration under keys.
use nacelle.Prelude.{
  String, Bool, false, not, Option, none, some, List, [], Dict, lookup, insert, if◌then◌else◌,
  string_comparable, nat_comparable, int_comparable, bytes_comparable,
}
use nacelle.Error.{
  Error, Outcome, Status, ok, err, must, done, ◌>>=◌, already_loaded, not_loaded, duplicate_config,
  unregistered_config,
}
use nacelle.Key.{Key, key_comparable, serialize_key}
use nacelle.Reflect.{Field}

-- A registered struct: its fields, and its `PostLoad` method if it has one, which may change fields.
pub record Chunk (GoType Value : Type 0) : Type 0 where
  pub fields : List (Field GoType Value)
  pub post_load : Option (List (Field GoType Value) → List (Field GoType Value) × Option Error)

pub record EnvConfig (GoType Value : Type 0) : Type 0 where
  pub prefix : String
  pub chunks : Dict Key (Chunk GoType Value)
  pub loaded : Bool

module _ {GoType Value : Type 0} where
  unfoldable pub new_env_config : String → EnvConfig GoType Value
  new_env_config prefix = record { prefix = prefix; chunks = []; loaded = false }

  abbrev register_free :
      EnvConfig GoType Value → Key → Chunk GoType Value → EnvConfig GoType Value × Status
  register_free c key config = elim (lookup key c.chunks) [
    | some _ ↦ (c, do k ← serialize_key key; err (duplicate_config k))
    | none ↦ (record c { chunks = insert key config c.chunks }, done)
  ]

  unfoldable pub register :
      EnvConfig GoType Value → Key → Chunk GoType Value → EnvConfig GoType Value × Status
  register c key config = if c.loaded then (c, err already_loaded) else register_free c key config

  unfoldable pub must_register :
      EnvConfig GoType Value → Key → Chunk GoType Value → EnvConfig GoType Value × Status
  must_register c key config = let (c', r) = register c key config in (c', must r)

  abbrev registered_at : EnvConfig GoType Value → Key → Outcome (Chunk GoType Value)
  registered_at c key = elim (lookup key c.chunks) [
    | some config ↦ ok config
    | none ↦ do k ← serialize_key key; err (unregistered_config k)
  ]

  unfoldable pub get : EnvConfig GoType Value → Key → Outcome (Chunk GoType Value)
  get c key = if not c.loaded then err not_loaded else registered_at c key

  unfoldable pub must_get : EnvConfig GoType Value → Key → Outcome (Chunk GoType Value)
  must_get c key = must (get c key)
