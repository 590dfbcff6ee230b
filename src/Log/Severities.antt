-- ===== src/Log/Severities.antt =====
-- What the three backends make of a message.
use nacelle.Prelude.{
  ℕ, zero, suc, ◌≤◌, String, ◌≡◌, refl, sym, ap, ◌∙◌, inl, inr, ◌||◌, Option, none, some, List, [],
  ◌∷◌, ◌++◌, arith, lookup, lookup-insert, if◌then◌else◌, Bool-cases, pos, string_comparable,
  nat_comparable, int_comparable, bytes_comparable, ◌==◌, str_iff, Bytes,
}
use mathlib.Core.Path.{subst}
use mathlib.Core.Option
use nacelle.Log.Message.{
  LogMessage, LogLevel, Fields, FieldValue, caller_value, level_name, level_fatal, add_caller,
  normalize_value, normalize_time_values,
}
use nacelle.Log.Backends.{
  Severity, debug_severity, info_severity, warning_severity, error_severity, fatal_severity, Sink,
  is_fatal, severity_of, gomol_severity, zap_log, logrus_log, gomol_log,
}

abbrev pub severity_name : Severity → String
severity_name debug_severity = "debug"
severity_name info_severity = "info"
severity_name warning_severity = "warning"
severity_name error_severity = "error"
severity_name fatal_severity = "fatal"

-- The severity that all three backends find for a level.
abbrev Found : Severity → LogLevel → Type 0
Found zero_level level =
    (severity : Severity) × (severity_of level ≡ some severity)
    × (gomol_severity zero_level level ≡ severity)
    × (severity_name severity ≡ level_name level)
    × (is_fatal severity ≡ (level == level_fatal))

Found-level : (zero_level : Severity) (n : ℕ) → n ≤ 4 → Found zero_level (pos n)
unfolding severity_of gomol_severity level_name
Found-level z zero h = (fatal_severity, refl, refl, refl, refl)
Found-level z (suc zero) h = (error_severity, refl, refl, refl, refl)
Found-level z (suc (suc zero)) h = (warning_severity, refl, refl, refl, refl)
Found-level z (suc (suc (suc zero))) h = (info_severity, refl, refl, refl, refl)
Found-level z (suc (suc (suc (suc zero)))) h = (debug_severity, refl, refl, refl, refl)
Found-level z (suc (suc (suc (suc (suc n))))) h = absurd (omega arith)

-- Each field of the message reads as it was given, through `norm`; the caller is added if none is
-- given.
abbrev pub IsLogged : (FieldValue → FieldValue) → Bytes → Fields → Fields → Type 0
IsLogged norm caller given fields =
    (k : String)
    → lookup k fields
      ≡ Option.map norm (elim (lookup k given) as (λ _. Option FieldValue) [
        | some v ↦ some v
        | none ↦ if "caller" == k then some (caller_value caller) else none
      ])

-- One entry is written, with the severity of the level's name, the format string and the arguments of
-- the message, and its fields; and the process ends if the level is fatal.
abbrev pub Writes :
    (FieldValue → FieldValue) → Bytes → LogMessage → List Fields → Sink → Sink → Type 0
Writes norm caller m bound s s' =
    (severity : Severity) × (fields : Fields) × (s'.entries
      ≡ s.entries
        ++ record {
          bound = bound;
          severity = severity;
          fields = fields;
          format = m.format;
          args = m.args;
        }
          ∷ [])
    × (severity_name severity ≡ level_name m.level)
    × IsLogged norm caller m.fields fields
    × (s'.exited ≡ (s.exited || (m.level == level_fatal)))

pub lookup-normalize :
    (format_time : ℕ → Bytes) (k : String) (f : Fields)
    → lookup k (normalize_time_values format_time f)
      ≡ Option.map (normalize_value format_time) (lookup k f)
unfolding lookup normalize_time_values
lookup-normalize t k [] = refl
lookup-normalize t k ((j, v) ∷ f) = elim (Bool-cases (j == k)) [
  | inl same ↦ rw same refl
  | inr other ↦ rw other (lookup-normalize t k f)
]

add_caller-IsLogged :
    (caller : Bytes) (f : Fields) → IsLogged (λ v. v) caller f (add_caller caller (some f))
unfolding add_caller
add_caller-IsLogged caller f k =
    let added = lookup-insert "caller" k (caller_value caller) f in
    elim (Bool-cases ("caller" == k)) [
      | inr other ↦ ground (arith, added, str_iff "caller" k)
      | inl same ↦ ground (arith, added, (str_iff "caller" k).0 same)
    ]

normalized-IsLogged :
    (format_time : ℕ → Bytes) (caller : Bytes) (f : Fields)
    → IsLogged
        (normalize_value format_time)
        caller
        f
        (normalize_time_values format_time (add_caller caller (some f)))
normalized-IsLogged t caller f k =
    lookup-normalize t k (add_caller caller (some f))
    ∙ ap (Option.map (normalize_value t)) (add_caller-IsLogged caller f k ∙ map_self _)
  where
    map_self : {A : Type 0} (o : Option A) → Option.map (λ v. v) o ≡ o
    map_self none = refl
    map_self (some v) = refl

pub backends-Writes :
    (format_time : ℕ → Bytes) (zero_level : Severity) (caller : Bytes) (m : LogMessage)
    (bound : List Fields) (s : Sink) (n : ℕ)
    → n ≤ 4
    → m.level ≡ pos n
    → Writes (λ v. v) caller m bound s (zap_log caller m bound s).0
      × Writes
          (normalize_value format_time)
          caller
          m
          bound
          s
          (logrus_log format_time caller m bound s).0
      × Writes
          (normalize_value format_time)
          caller
          m
          bound
          s
          (gomol_log format_time zero_level caller m bound s).0
unfolding zap_log logrus_log gomol_log
backends-Writes t z caller m bound s n h e =
    let found : Found z m.level = subst (Found z) (sym e) (Found-level z n h) in
    let (severity, q, q', named, fatal) = found in
    let exit : (s.exited || is_fatal severity) ≡ (s.exited || (m.level == level_fatal)) =
      ap (λ b. s.exited || b) fatal in
    let plain = add_caller caller (some m.fields) in
    let texts = normalize_time_values t plain in
    (
      (severity, plain, rw q refl, named, add_caller-IsLogged caller m.fields, rw q exit),
      (severity, texts, rw q refl, named, normalized-IsLogged t caller m.fields, rw q exit),
      (severity, texts, rw q' refl, named, normalized-IsLogged t caller m.fields, refl),
    )
