-- ===== src/Log/Burst.antt =====
-- What the rollup logger writes for a burst of messages with one format string.
use nacelle.Prelude.{
  ℕ, suc, ◌+◌, ◌≤◌, ◌<◌, String, ◌≡◌, refl, sym, ap, ◌∙◌, false, none, some, List, [], ◌∷◌, ◌++◌,
  append-nil, arith, lookup, insert, lookup-insert_self, leb, if◌then◌else◌, length, All,
  string_comparable, nat_comparable, int_comparable, bytes_comparable, Bytes,
}
use mathlib.Core.Path.{subst, ap₂}
use nacelle.Log.Message.{LogMessage, Fields, count_value, add_caller}
use nacelle.Log.Rollup.{
  field_rollup, LogWindow, new_log_window, record_message, RollupShim, get_window, window_after,
  log_with_fields, timer_fires,
}

-- A message as the rollup logger passes it on.
abbrev pub with_caller : Bytes → LogMessage → LogMessage
with_caller caller m = record m { fields = add_caller caller (some m.fields) }

-- The message that stands for `n` rolled-up ones.
abbrev pub rolled_up : ℕ → LogMessage → LogMessage
rolled_up n m = record m { fields = insert field_rollup (count_value n) m.fields }

-- The messages have the format string, and fall in the window that opened at `start`.
abbrev pub Within : String → ℕ → ℕ → List (ℕ × LogMessage) → Type 0
Within format start window_duration =
    All (λ e. (e.1.format ≡ format) × (start ≤ e.0) × (e.0 < start + window_duration))

-- The window of the format holds `m` since `start`, and `n` messages were rolled up.
abbrev Holding : String → ℕ → LogMessage → ℕ → RollupShim → Type 0
Holding format start m n s =
    lookup format s.windows ≡ some (record { stashed = some m; start = some start; count = n })

record_message-within :
    (duration start now n : ℕ) (m first : LogMessage)
    → start ≤ now
    → now < start + duration
    → let r =
        record_message duration now m
          (record { stashed = some first; start = some start; count = n }) in
      (r.window ≡ record { stashed = some first; start = some start; count = suc n })
      × (r.logged ≡ [])
      × (r.immediately ≡ false)
unfolding record_message
record_message-within duration start now n m first h k = (ground arith, ground arith, ground arith)

timer_fires-Holding :
    (s : RollupShim) (format : String) (start n : ℕ) (first : LogMessage)
    → Holding format start first n s
    → (timer_fires format s).output ≡ s.output ++ (if leb n 1 then [] else rolled_up n first ∷ [])
unfolding timer_fires
timer_fires-Holding s format start n first h = ground arith

-- `wrapped` is what the wrapped logger leaves of a map of fields.
module _ (wrapped : Fields → Fields) where
  -- The message that a window holds after it was logged.
  abbrev pub left_with : Bytes → LogMessage → LogMessage
  left_with caller m = record m { fields = wrapped (add_caller caller (some m.fields)) }

  -- Messages, each with its time, are logged one after the other.
  abbrev pub burst : Bytes → List (ℕ × LogMessage) → RollupShim → RollupShim
  burst caller [] s = s
  burst caller ((now, m) ∷ ms) s = burst caller ms (log_with_fields wrapped now caller m s)

  log_with_fields-within :
      (s : RollupShim) (caller : Bytes) (format : String) (start now n : ℕ) (m first : LogMessage)
      → Holding format start first n s
      → (m.format ≡ format) × (start ≤ now) × (now < start + s.window_duration)
      → let s' = log_with_fields wrapped now caller m s in
        Holding format start first (suc n) s'
        × (s'.output ≡ s.output)
        × (s'.window_duration ≡ s.window_duration)
  unfolding log_with_fields
  log_with_fields-within s caller format start now n m first h (f, later, soon) =
      let w : LogWindow = record { stashed = some first; start = some start; count = n } in
      let kept =
        record_message-within s.window_duration start now n (with_caller caller m) first later
          soon in
      let found : get_window m.format s ≡ w = ground (arith, h, f) in
      let r = record_message s.window_duration now (with_caller caller m) in
      let same : r (get_window m.format s) ≡ r w = ap r found in
      (
        subst
            (λ k.
              lookup format (insert k (window_after wrapped (r (get_window m.format s))) s.windows)
              ≡ some (record { stashed = some first; start = some start; count = suc n }))
            (sym f)
            (lookup-insert_self format (window_after wrapped (r (get_window m.format s))) s.windows
              ∙ ap (λ x. some (window_after wrapped x)) same
              ∙ ap some (ground (arith, kept.0, kept.2))),
        ap
              (λ x.
                s.output ++ (x.logged ++ (if x.immediately then with_caller caller m ∷ [] else [])))
              same
            ∙ ground (arith, kept.1, kept.2, append-nil s.output),
        refl,
      )

  burst-Within :
      (caller : Bytes) (format : String) (start n duration : ℕ) (first : LogMessage)
      (ms : List (ℕ × LogMessage)) (s : RollupShim)
      → Holding format start first n s
      → s.window_duration ≡ duration
      → Within format start duration ms
      → Holding format start first (n + length ms) (burst caller ms s)
        × ((burst caller ms s).output ≡ s.output)
  burst-Within caller format start n duration first [] s h d all = (
    h
        ∙ ap (λ k. some (record { stashed = some first; start = some start; count = k }))
            (omega arith),
    refl,
  )
  burst-Within caller format start n duration first ((now, m) ∷ ms) s h d all =
      let (h', o, d') =
        log_with_fields-within s caller format start now n m first h
          (all.0.0, all.0.1, omega (arith, all.0.2, d)) in
      let (held, output) =
        burst-Within caller format start (suc n) duration first ms
          (log_with_fields wrapped now caller m s) h' (d' ∙ d) all.1 in
      (
        held
            ∙ ap (λ k. some (record { stashed = some first; start = some start; count = k }))
                (omega arith),
        output ∙ o,
      )

  opens_window :
      (s : RollupShim) (caller : Bytes) (now : ℕ) (m : LogMessage)
      → lookup m.format s.windows ≡ none
      → let s' = log_with_fields wrapped now caller m s in
        Holding m.format now (left_with caller m) 0 s'
        × (s'.output ≡ s.output ++ with_caller caller m ∷ [])
        × (s'.window_duration ≡ s.window_duration)
  unfolding log_with_fields
  opens_window s caller now m fresh =
      let found : get_window m.format s ≡ new_log_window = ground (arith, fresh) in
      let r = record_message s.window_duration now (with_caller caller m) in
      let same : r (get_window m.format s) ≡ r new_log_window = ap r found in
      (
        lookup-insert_self m.format (window_after wrapped (r (get_window m.format s))) s.windows
            ∙ ap (λ x. some (window_after wrapped x)) same,
        ap
            (λ x.
              s.output ++ (x.logged ++ (if x.immediately then with_caller caller m ∷ [] else [])))
            same,
        refl,
      )

  -- A message with a format string that has no window is logged at once. The messages with the same
  -- format string that follow within the window are not logged when they come. When the timer
  -- then fires, the first message is logged again, with the fields that the wrapped logger left and
  -- the number of those that followed, if these are two or more; and if it is only one, nothing is logged, and that message is lost.
  pub rollup-burst :
      (s : RollupShim) (caller : Bytes) (start : ℕ) (m : LogMessage) (ms : List (ℕ × LogMessage))
      → lookup m.format s.windows ≡ none
      → Within m.format start s.window_duration ms
      → let s' = burst caller ms (log_with_fields wrapped start caller m s) in
        let first = with_caller caller m in
        (s'.output ≡ s.output ++ first ∷ [])
        × ((timer_fires m.format s').output
            ≡ (s.output ++ first ∷ [])
              ++ (if leb (length ms) 1
                  then []
                  else rolled_up (length ms) (left_with caller m) ∷ []))
  rollup-burst s caller start m ms fresh all =
      let (h, o, d) = opens_window s caller start m fresh in
      let (held, output) =
        burst-Within caller m.format start 0 s.window_duration (left_with caller m) ms
          (log_with_fields wrapped start caller m s) h d all in
      let n : 0 + length ms ≡ length ms = omega arith in
      (
        output ∙ o,
        timer_fires-Holding _ m.format start (0 + length ms) (left_with caller m) held
            ∙ ap₂ ◌++◌ (output ∙ o)
                (ap (λ k. if leb k 1 then [] else rolled_up k (left_with caller m) ∷ []) n),
      )
