-- ===== src/Log/Message.antt =====
-- log/logger.go, log/fields.go, log/caller.go and the message of log/shim.go.
use nacelle.Prelude.{
  ℕ, zero, suc, String, Option, none, some, List, [], ◌∷◌, Dict, lookup, insert, eqb, if◌then◌else◌,
  ℤ, pos, string_comparable, nat_comparable, int_comparable, bytes_comparable, ◌==◌, Bytes,
}

-- `LogLevel` is an `int`; the constants count from the most severe level.
abbrev pub LogLevel : Type 0
LogLevel = ℤ

abbrev pub level_fatal : LogLevel
level_fatal = pos 0

abbrev pub level_error : LogLevel
level_error = pos 1

abbrev pub level_warning : LogLevel
level_warning = pos 2

abbrev pub level_info : LogLevel
level_info = pos 3

abbrev pub level_debug : LogLevel
level_debug = pos 4

-- The method `String` of a level.
unfoldable pub level_name : LogLevel → String
level_name l =
    if l == level_debug
    then "debug"
    else if l == level_info
    then "info"
    else if l == level_warning
    then "warning"
    else if l == level_error
    then "error"
    else if l == level_fatal
    then "fatal"
    else "unknown"

-- The values of fields that the library itself sets, and those of its users.
pub data FieldValue : Type 0 where
  caller_value : Bytes → FieldValue
  level_value : LogLevel → FieldValue
  count_value : ℕ → FieldValue
  time_value : ℕ → FieldValue
  text_value : Bytes → FieldValue
  user_value : ℕ → FieldValue

abbrev pub Fields : Type 0
Fields = Dict String FieldValue

-- `fields[k] = v` for each entry of the map, in the order of its entries.
unfoldable pub copy_into : Fields → Fields → Fields
copy_into [] m = m
copy_into ((k, v) ∷ f) m = copy_into f (insert k v m)

unfoldable pub clone : Fields → Fields
unfolding copy_into
clone f = copy_into f []

-- `normalizeTimeValues`, in place: `format_time` is the formatting of package time.
abbrev pub normalize_value : (ℕ → Bytes) → FieldValue → FieldValue
normalize_value format_time (time_value t) = text_value (format_time t)
normalize_value format_time v = v

unfoldable pub normalize_time_values : (ℕ → Bytes) → Fields → Fields
normalize_time_values format_time [] = []
normalize_time_values format_time ((k, v) ∷ f) =
    (k, normalize_value format_time v) ∷ normalize_time_values format_time f

-- `none` is the nil map.
unfoldable pub add_caller : Bytes → Option Fields → Fields
add_caller caller none = insert "caller" (caller_value caller) []
add_caller caller (some fields) = elim (lookup "caller" fields) [
  | none ↦ insert "caller" (caller_value caller) fields
  | some _ ↦ fields
]

-- The index of the last occurrence of a byte, as `strings.LastIndexByte`, `none` for -1.
unfoldable pub last_index_byte : Bytes → ℕ → Option ℕ
last_index_byte [] c = none
last_index_byte (b ∷ s) c = elim (last_index_byte s c) [
  | some i ↦ some (suc i)
  | none ↦ if eqb b c then some 0 else none
]

-- `path[:n]` and `path[n:]`.
abbrev pub slice_to : Bytes → ℕ → Bytes
slice_to s zero = []
slice_to [] (suc n) = []
slice_to (b ∷ s) (suc n) = b ∷ slice_to s n

abbrev pub slice_from : Bytes → ℕ → Bytes
slice_from s zero = s
slice_from [] (suc n) = []
slice_from (b ∷ s) (suc n) = slice_from s n

unfoldable pub trim_path : Bytes → Bytes
unfolding last_index_byte
trim_path path = elim (last_index_byte path b'/') [
  | none ↦ path
  | some i ↦ elim (last_index_byte (slice_to path i) b'/') [
    | none ↦ path
    | some j ↦ slice_from path (suc j)
  ]
]

pub record LogMessage : Type 0 where
  pub level : LogLevel
  pub fields : Fields
  pub format : String
  pub args : List ℕ
