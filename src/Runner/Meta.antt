-- ===== src/Runner/Meta.antt =====
-- meta.go: what is known of a registered initializer or process, and the functions that set it.
-- A `time.Duration` is a number of nanoseconds.
use nacelle.Prelude.{
  ℕ, String, Bool, true, false, List, [], ◌∷◌, if◌then◌else◌, ℤ, pos, string_comparable,
  nat_comparable, int_comparable, ◌==◌,
}

-- `initializer` and `process` are addresses of the objects of the application.
pub record InitializerMeta : Type 0 where
  pub initializer : ℕ
  pub name : String
  pub timeout : ℤ

pub record ProcessMeta : Type 0 where
  pub process : ℕ
  pub name : String
  pub priority : ℤ
  pub silent_exit : Bool
  pub init_timeout : ℤ

-- Both `Name` methods.
unfoldable pub display_name : String → String
display_name name = if name == "" then "<unnamed>" else name

abbrev pub InitializerConfigFunc : Type 0
InitializerConfigFunc = InitializerMeta → InitializerMeta

abbrev pub ProcessConfigFunc : Type 0
ProcessConfigFunc = ProcessMeta → ProcessMeta

unfoldable pub with_initializer_name : String → InitializerConfigFunc
with_initializer_name name meta = record meta { name = name }

unfoldable pub with_process_name : String → ProcessConfigFunc
with_process_name name meta = record meta { name = name }

unfoldable pub with_priority : ℤ → ProcessConfigFunc
with_priority priority meta = record meta { priority = priority }

unfoldable pub with_silent_exit : ProcessConfigFunc
with_silent_exit meta = record meta { silent_exit = true }

unfoldable pub with_initializer_timeout : ℤ → InitializerConfigFunc
with_initializer_timeout timeout meta = record meta { timeout = timeout }

unfoldable pub with_process_init_timeout : ℤ → ProcessConfigFunc
with_process_init_timeout timeout meta = record meta { init_timeout = timeout }

-- `for _, f := range configs { f(meta) }`
abbrev pub configure {ℓ} : {A : Type ℓ} → List (A → A) → A → A
configure [] meta = meta
configure (f ∷ fs) meta = configure fs (f meta)

abbrev pub new_initializer_meta : ℕ → InitializerMeta
new_initializer_meta i = record { initializer = i; name = ""; timeout = pos 0 }

abbrev pub new_process_meta : ℕ → ProcessMeta
new_process_meta p = record {
  process = p;
  name = "";
  priority = pos 0;
  silent_exit = false;
  init_timeout = pos 0;
}
