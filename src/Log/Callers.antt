-- ===== src/Log/Callers.antt =====
-- The caller in a map of fields that is used for several calls of a logger.
use nacelle.Prelude.{
  ℕ, suc, ◌≤◌, String, ◌≡◌, refl, sym, ap, ◌∙◌, Option, none, some, List, [], ◌∷◌, ◌++◌, append-nil,
  append_assoc, length, All, arith, pos, lookup, lookup-insert_self, string_comparable,
  nat_comparable, int_comparable, bytes_comparable, Bytes,
}
use mathlib.Core.Option
use nacelle.Error.{Error}
use nacelle.Log.Message.{
  LogMessage, LogLevel, Fields, FieldValue, caller_value, add_caller, normalize_value,
  normalize_time_values,
}
use nacelle.Log.Shim.{LogShim, log_with_fields}
use nacelle.Log.Backends.{
  Severity, Sink, Entry, zap_log, zap_shim, logrus_log, logrus_shim, gomol_log, gomol_shim,
}
use nacelle.Log.Severities.{lookup-normalize, Writes, backends-Writes}

abbrev pub HasCaller : Bytes → Fields → Type 0
HasCaller caller fields = lookup "caller" fields ≡ some (caller_value caller)

-- A shim that leaves the caller in the map of fields that it is given.
abbrev pub KeepsCaller : LogShim → Type 0
KeepsCaller I =
    (now caller : Bytes) (m : LogMessage) (shim : I.Shim) (s : I.State)
    → HasCaller caller m.fields
    → HasCaller caller (I.log_with_fields now m shim s).1

add_caller-HasCaller :
    (now caller : Bytes) (fields : Fields)
    → HasCaller caller fields
    → HasCaller caller (add_caller now (some fields))
unfolding add_caller
add_caller-HasCaller now caller fields h = ground (arith, h)

add_caller-first :
    (caller : Bytes) (fields : Fields)
    → lookup "caller" fields ≡ none
    → HasCaller caller (add_caller caller (some fields))
unfolding add_caller
add_caller-first caller fields h =
    ground (arith, h, lookup-insert_self "caller" (caller_value caller) fields)

normalized-HasCaller :
    (format_time : ℕ → Bytes) (now caller : Bytes) (fields : Fields)
    → HasCaller caller fields
    → HasCaller caller (normalize_time_values format_time (add_caller now (some fields)))
normalized-HasCaller format_time now caller fields h =
    lookup-normalize format_time "caller" (add_caller now (some fields))
    ∙ ap (Option.map (normalize_value format_time)) (add_caller-HasCaller now caller fields h)

pub zap_shim-KeepsCaller : (result : Option Error) → KeepsCaller (zap_shim result)
unfolding zap_log
zap_shim-KeepsCaller result now caller m bound s = add_caller-HasCaller now caller m.fields

logrus_shim-KeepsCaller : (format_time : ℕ → Bytes) → KeepsCaller (logrus_shim format_time)
unfolding logrus_log
logrus_shim-KeepsCaller format_time now caller m bound s =
    normalized-HasCaller format_time now caller m.fields

gomol_shim-KeepsCaller :
    (format_time : ℕ → Bytes) (zero_level : Severity) (result : Option Error)
    → KeepsCaller (gomol_shim format_time zero_level result)
unfolding gomol_log
gomol_shim-KeepsCaller format_time zero_level result now caller m bound s =
    normalized-HasCaller format_time now caller m.fields

-- A call of a method of a logger that takes fields, and the line it stands in.
pub record LogCall : Type 0 where
  pub level : LogLevel
  pub format : String
  pub args : List ℕ
  pub caller : Bytes

abbrev pub IsLevel : LogLevel → Type 0
IsLevel level = (n : ℕ) × (n ≤ 4) × (level ≡ pos n)

-- One entry is added, which names the caller.
abbrev OneMore : Bytes → Sink → Sink → Type 0
OneMore caller s s' = (e : Entry) × (s'.entries ≡ s.entries ++ e ∷ []) × HasCaller caller e.fields

-- One entry is added for each call, and all of them name the caller.
abbrev pub Named : Bytes → List LogCall → Sink → Sink → Type 0
Named caller calls s s' =
    (es : List Entry) × (s'.entries ≡ s.entries ++ es)
    × (length es ≡ length calls)
    × All (λ (e : Entry). HasCaller caller e.fields) es

Named-cons :
    (caller : Bytes) (c : LogCall) (calls : List LogCall) (s t u : Sink)
    → OneMore caller s t
    → Named caller calls t u
    → Named caller (c ∷ calls) s u
Named-cons caller c calls s t u (e, p, h) (es, q, n, all) =
    (e ∷ es, q ∙ (ap (λ xs. xs ++ es) p ∙ append_assoc s.entries (e ∷ []) es), ap suc n, (h, all))

module _ (I : LogShim) where
  open I use {Shim, State}

  -- Calls with one map, which they share.
  abbrev pub log_all : List LogCall → Fields → Shim → State → State × Fields
  log_all [] fields shim s = (s, fields)
  log_all (c ∷ calls) fields shim s =
      let (s', fields') = log_with_fields I c.level (some fields) c.format c.args c.caller shim s in
      log_all calls fields' shim s'

  -- The next message of one of the five levels is one more entry, with the caller of the map.
  abbrev pub WritesCaller : (State → Sink) → Type 0
  WritesCaller sink =
      (now caller : Bytes) (m : LogMessage) (shim : Shim) (s : State)
      → IsLevel m.level
      → HasCaller caller m.fields
      → OneMore caller (sink s) (sink (I.log_with_fields now m shim s).0)

  log_all-Named :
      (sink : State → Sink) (calls : List LogCall) (caller : Bytes) (fields : Fields) (shim : Shim)
      (s : State)
      → KeepsCaller I
      → WritesCaller sink
      → All (λ (c : LogCall). IsLevel c.level) calls
      → HasCaller caller fields
      → Named caller calls (sink s) (sink (log_all calls fields shim s).0)
  unfolding log_with_fields
  log_all-Named sink [] caller fields shim s keeps writes levels h =
      ([], sym (append-nil _), refl, tt)
  log_all-Named sink (c ∷ calls) caller fields shim s keeps writes (level, levels) h =
      let m : LogMessage = record {
        level = c.level;
        fields = add_caller c.caller (some fields);
        format = c.format;
        args = c.args;
      } in
      let named = add_caller-HasCaller c.caller caller fields h in
      let (s', fields') = I.log_with_fields c.caller m shim s in
      Named-cons caller c calls (sink s) (sink s') (sink (log_all calls fields' shim s').0)
        (writes c.caller caller m shim s level named)
        (log_all-Named sink calls caller fields' shim s' keeps writes levels
          (keeps c.caller caller m shim s named))

  log_all-first :
      (sink : State → Sink) (first : LogCall) (later : List LogCall) (fields : Fields) (shim : Shim)
      (s : State)
      → KeepsCaller I
      → WritesCaller sink
      → All (λ (c : LogCall). IsLevel c.level) (first ∷ later)
      → lookup "caller" fields ≡ none
      → Named first.caller (first ∷ later) (sink s) (sink (log_all (first ∷ later) fields shim s).0)
  unfolding log_with_fields
  log_all-first sink first later fields shim s keeps writes (level, levels) missing =
      let m : LogMessage = record {
        level = first.level;
        fields = add_caller first.caller (some fields);
        format = first.format;
        args = first.args;
      } in
      let named = add_caller-first first.caller fields missing in
      let (s', fields') = I.log_with_fields first.caller m shim s in
      Named-cons first.caller first later (sink s) (sink s')
        (sink (log_all later fields' shim s').0)
        (writes first.caller first.caller m shim s level named)
        (log_all-Named sink later first.caller fields' shim s' keeps writes levels
          (keeps first.caller first.caller m shim s named))

Writes-OneMore :
    (norm : FieldValue → FieldValue) (now caller : Bytes) (m : LogMessage) (bound : List Fields)
    (s s' : Sink)
    → norm (caller_value caller) ≡ caller_value caller
    → HasCaller caller m.fields
    → Writes norm now m bound s s'
    → OneMore caller s s'
Writes-OneMore norm now caller m bound s s' same h (severity, fields, e, _, logged, _) =
    (_, e, ground (arith, logged "caller", h, same))

-- Calls of a logger of zap, logrus or gomol at any of the five levels, which share a map of fields
-- without a caller: each writes one message, and all of them name the line of the first call.
pub log_all-first_caller :
    (format_time : ℕ → Bytes) (zero_level : Severity) (result : Option Error) (first : LogCall)
    (later : List LogCall) (fields : Fields) (bound : List Fields) (s : Sink)
    → All (λ (c : LogCall). IsLevel c.level) (first ∷ later)
    → lookup "caller" fields ≡ none
    → let calls = first ∷ later in
      Named first.caller calls s (log_all (zap_shim result) calls fields bound s).0
      × Named first.caller calls s (log_all (logrus_shim format_time) calls fields bound s).0
      × Named first.caller calls s
          (log_all (gomol_shim format_time zero_level result) calls fields bound s).0
log_all-first_caller format_time zero_level result first later fields bound s levels missing =
    let all = backends-Writes format_time zero_level in
    (
      log_all-first (zap_shim result) (λ x. x) first later fields bound s
          (zap_shim-KeepsCaller result)
          (λ now caller m bound s (n, le, e) h.
            let (w, _, _) = all now m bound s n le e in
            Writes-OneMore (λ v. v) now caller m bound s (zap_log now m bound s).0 refl h w)
          levels missing,
      log_all-first (logrus_shim format_time) (λ x. x) first later fields bound s
          (logrus_shim-KeepsCaller format_time)
          (λ now caller m bound s (n, le, e) h.
            let (_, w, _) = all now m bound s n le e in
            Writes-OneMore (normalize_value format_time) now caller m bound s
              (logrus_log format_time now m bound s).0 refl h w)
          levels missing,
      log_all-first (gomol_shim format_time zero_level result) (λ x. x) first later fields bound s
          (gomol_shim-KeepsCaller format_time zero_level result)
          (λ now caller m bound s (n, le, e) h.
            let (_, _, w) = all now m bound s n le e in
            Writes-OneMore (normalize_value format_time) now caller m bound s
              (gomol_log format_time zero_level now m bound s).0 refl h w)
          levels missing,
    )
