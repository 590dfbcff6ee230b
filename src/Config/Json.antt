-- ===== src/Config/Json.antt =====
-- `toJSON` and `quoteJSON` of config.go, over package json and the environment, which are parameters.
use nacelle.Prelude.{
  ℕ, Bool, Option, [], ◌∷◌, ◌++◌, eqb, if◌then◌else◌, concat_map, string_comparable, nat_comparable,
  int_comparable, bytes_comparable, Bytes,
}

-- Package json on the values of the run time. `unmarshal` is given the value that the target holds
-- and returns what it holds afterwards, with whether there was no error.
pub record Json (GoType Value : Type 0) : Type 0 where
  pub unmarshal : Bytes → GoType → Value → Value × Bool
  pub marshal : Value → Option Bytes
  pub is_string_kind : GoType → Bool
  -- `fmt.Sprintf("%s", v)` on a value of string kind
  pub string_value : Value → Bytes

-- The replacer: newline, tab and carriage return.
unfoldable pub escape : ℕ → Bytes
escape c =
    if eqb c 10
    then b'\\' ∷ b'n' ∷ []
    else if eqb c 9
    then b'\\' ∷ b't' ∷ []
    else if eqb c 13
    then b'\\' ∷ b'r' ∷ []
    else c ∷ []

unfoldable pub quote_json : Bytes → Bytes
unfolding escape
quote_json text = b'"' ∷ concat_map escape text ++ b'"' ∷ []

module _ {GoType Value : Type 0} (json : Json GoType Value) where
  open json use {unmarshal, is_string_kind}

  -- The text is read as JSON, and if that fails and a text is wanted, as a text.
  unfoldable pub to_json : Bytes → GoType → Value → Value × Bool
  to_json text type v =
      let first = unmarshal text type v in
      let second = unmarshal (quote_json text) type first.0 in
      if first.1 then first else if is_string_kind type then second else first
