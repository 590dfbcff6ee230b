-- ===== src/Reflect.antt =====
-- What the library sees of Go values through package reflect: struct fields with their tags, and the
-- conversions of the run time, which are a parameter.
use nacelle.Prelude.{
  String, Bool, true, false, ◌||◌, Option, none, some, Dict, lookup, if◌then◌else◌, Comparable,
  string_comparable, nat_comparable, int_comparable, ◌==◌,
}

-- The run time's types and values. `type_of` is `none` for the nil interface.
pub record Runtime : Type 1 where
  pub GoType : Type 0
  pub Value : Type 0
  pub go_type_comparable : Comparable GoType
  pub type_of : Value → Option GoType
  pub type_string : GoType → String
  pub is_logger : Value → Bool
  pub convertible_to : GoType → GoType → Bool
  pub convert : Value → GoType → Value

-- The tags of a field, `key:"value"`. A tag that is not there reads as the empty text.
abbrev pub Tags : Type 0
Tags = Dict String String

unfoldable pub tag_value : String → Tags → String
tag_value k tags = elim (lookup k tags) [ none ↦ "" | some v ↦ v ]

-- A struct field: `reflect.StructField` and the `reflect.Value` that goes with it.
pub record Field (GoType Value : Type 0) : Type 0 where
  pub name : String
  pub tags : Tags
  pub type : GoType
  pub is_valid : Bool
  pub can_set : Bool
  pub value : Value

-- `strconv.ParseBool`.
unfoldable pub parse_bool : String → Option Bool
parse_bool s =
    if (s == "1")
      || ((s == "t") || ((s == "T") || ((s == "TRUE") || ((s == "true") || (s == "True")))))
    then some true
    else if (s == "0")
        || ((s == "f") || ((s == "F") || ((s == "FALSE") || ((s == "false") || (s == "False")))))
    then some false
    else none
