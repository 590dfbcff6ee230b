-- ===== src/Examples/Logging.antt =====
-- The loggers at work.
use nacelle.Prelude.{
  ◌≡◌, refl, [], ◌∷◌, ◌++◌, arith, lookup, string_comparable, nat_comparable, int_comparable,
  bytes_comparable, Bytes, codes,
}
use nacelle.Log.Message.{
  LogMessage, LogLevel, Fields, normalize_time_values, level_debug, level_info,
}
use nacelle.Log.Rollup.{new_rollup_shim, log_with_fields as rollup_log, timer_fires}
use nacelle.Log.Burst.{with_caller, burst, rollup-burst}
use nacelle.Log.Journal.{Entries}

abbrev message : LogLevel → LogMessage
message level = record { level = level; fields = []; format = "a"; args = [] }

-- A wrapped logger that formats times in place, as those of logrus and gomol do.
abbrev in_place : Fields → Fields
in_place = normalize_time_values (λ t. t ∷ [])

abbrev caller : Bytes
caller = codes "f.go:1"

-- Two messages with one format string, and then the end of the window: the second is never logged.
rollup-burst_example :
    let s = new_rollup_shim 1000 in
    let s' =
      burst in_place caller
        ((5, message level_debug) ∷ [])
        (rollup_log in_place 1 caller (message level_debug) s) in
    let first = with_caller caller (message level_debug) in
    (s'.output ≡ s.output ++ first ∷ [])
    × ((timer_fires "a" s').output ≡ (s.output ++ first ∷ []) ++ [])
unfolding new_rollup_shim lookup
rollup-burst_example =
    rollup-burst in_place (new_rollup_shim 1000) caller 1 (message level_debug)
      ((5, message level_debug) ∷ []) refl ((refl, omega arith, omega arith), tt)

abbrev entries : Entries
entries = ([], message level_debug) ∷ ([], message level_info) ∷ []
