-- ===== src/Log/Rollup.antt =====
-- log/rollup.go: messages with one format string that follow in a window of time are rolled up.
use nacelle.Prelude.{
  ℕ, suc, ◌+◌, ◌-◌, String, Bool, true, false, Option, none, some, List, [], ◌∷◌, ◌++◌, Dict,
  lookup, insert, ltb, leb, eqb, if◌then◌else◌, string_comparable, nat_comparable, int_comparable,
  bytes_comparable, Bytes,
}
use nacelle.Log.Message.{LogMessage, Fields, count_value, add_caller}

abbrev pub field_rollup : String
field_rollup = "rollup-multiplicity"

-- `logWindow`; `start` is `none` for the zero time. Times and durations are in nanoseconds.
pub record LogWindow : Type 0 where
  pub stashed : Option LogMessage
  pub start : Option ℕ
  pub count : ℕ

abbrev pub new_log_window : LogWindow
new_log_window = record { stashed = none; start = none; count = 0 }

-- What is logged goes to the wrapped logger, in order.
abbrev pub flush_stashed : LogWindow → Option LogMessage → LogWindow × List LogMessage
flush_stashed w none = (w, [])
flush_stashed w (some m) = if leb w.count 1 then (w, []) else (
  record w { stashed = none },
  record m { fields = insert field_rollup (count_value w.count) m.fields } ∷ [],
)

-- `flushLocked`, which `flush` calls with the mutex held.
unfoldable pub flush_locked : LogWindow → LogWindow × List LogMessage
flush_locked w = flush_stashed w w.stashed

-- What is left of the window at a time; the time of the window is not before `start`.
unfoldable pub remaining : ℕ → ℕ → LogWindow → ℕ
remaining window_duration now w = elim w.start [
  | none ↦ 0
  | some start ↦ window_duration - (now - start)
]

-- The result of `record`: the window, what was logged meanwhile, whether the message is to be logged
-- at once, and when the timer that it starts flushes the window.
pub record Recorded : Type 0 where
  pub window : LogWindow
  pub logged : List LogMessage
  pub immediately : Bool
  pub timer : Option ℕ

unfoldable pub record_message : ℕ → ℕ → LogMessage → LogWindow → Recorded
unfolding flush_locked remaining
record_message window_duration now m w =
    if ltb 0 (remaining window_duration now w)
    then record {
      window = record w { count = suc w.count };
      logged = [];
      immediately = false;
      timer = if eqb (suc w.count) 1 then some (now + remaining window_duration now w) else none;
    }
    else let (w', logged) = flush_locked w in
      record {
        window = record { stashed = some m; start = some now; count = 0 };
        logged = logged;
        immediately = true;
        timer = none;
      }

-- The shim: its windows by format string, the timers that run (the time and the format of the window
-- that each flushes), and what the wrapped logger was given.
pub record RollupShim : Type 0 where
  pub window_duration : ℕ
  pub windows : Dict String LogWindow
  pub timers : List (ℕ × String)
  pub output : List LogMessage

unfoldable pub new_rollup_shim : ℕ → RollupShim
new_rollup_shim window_duration = record {
  window_duration = window_duration;
  windows = [];
  timers = [];
  output = [];
}

-- `WithFields`: the new shim has windows of its own. The wrapped logger is given by the sets of
-- fields that were added to it.
unfoldable pub with_fields : Fields → List Fields × RollupShim → List Fields × RollupShim
with_fields [] s = s
with_fields (f ∷ fs) (logger, s) = (logger ++ (f ∷ fs) ∷ [], new_rollup_shim s.window_duration)

-- `getWindow`: a window that is missing is made.
unfoldable pub get_window : String → RollupShim → LogWindow
get_window format s = elim (lookup format s.windows) [ some w ↦ w | none ↦ new_log_window ]

abbrev pub add_timer : Option ℕ → String → List (ℕ × String) → List (ℕ × String)
add_timer none format timers = timers
add_timer (some t) format timers = timers ++ (t, format) ∷ []

-- A window that holds a message which is logged at once: the message has the map of fields that
-- `LogWithFields` of the wrapped logger is given, and `wrapped` is what that leaves of it.
abbrev pub left_of : (Fields → Fields) → LogWindow → LogWindow
left_of wrapped w = record w {
  stashed = elim w.stashed [ none ↦ none | some m ↦ some (record m { fields = wrapped m.fields }) ];
}

abbrev pub window_after : (Fields → Fields) → Recorded → LogWindow
window_after wrapped r = if r.immediately then left_of wrapped r.window else r.window

-- `LogWithFields` at a time. `caller` is what `getCaller` finds. The caller is taken to leave the map
-- of fields alone afterwards.
unfoldable pub log_with_fields :
    (Fields → Fields) → ℕ → Bytes → LogMessage → RollupShim → RollupShim
unfolding record_message get_window add_caller
log_with_fields wrapped now caller message s =
    let m = record message { fields = add_caller caller (some message.fields) } in
    let r = record_message s.window_duration now m (get_window m.format s) in
    record s {
      windows = insert m.format (window_after wrapped r) s.windows;
      timers = add_timer r.timer m.format s.timers;
      output = s.output ++ (r.logged ++ (if r.immediately then m ∷ [] else []));
    }

-- The goroutine behind a timer: `flush` on the window of the format.
unfoldable pub timer_fires : String → RollupShim → RollupShim
unfolding flush_locked get_window
timer_fires format s =
    let (w, logged) = flush_locked (get_window format s) in
    record s { windows = insert format w s.windows; output = s.output ++ logged }

-- `Sync` flushes every window.
unfoldable pub flush_all : Dict String LogWindow → Dict String LogWindow × List LogMessage
unfolding flush_locked
flush_all [] = ([], [])
flush_all ((format, w) ∷ rest) =
    let (w', logged) = flush_locked w in
    let (rest', logged') = flush_all rest in ((format, w') ∷ rest', logged ++ logged')

unfoldable pub sync : RollupShim → RollupShim
unfolding flush_all
sync s =
    let (windows, logged) = flush_all s.windows in
    record s { windows = windows; output = s.output ++ logged }
