-- ===== src/Log/Journal.antt =====
-- What the replay logger writes, before, at and after a replay.
use nacelle.Prelude.{
  ◌≡◌, inl, inr, Option, none, some, List, [], ◌∷◌, ◌++◌, map, arith, insert, if◌then◌else◌,
  Bool-cases, Option-cases, concat_map, ltb_ℤ, ◌≤ℤ◌, string_comparable, nat_comparable,
  int_comparable, bytes_comparable, Bytes,
}
use nacelle.Log.Message.{LogMessage, LogLevel, Fields, level_value, add_caller, clone}
use nacelle.Log.Replay.{
  field_replay, LoggerRef, JournaledMessage, ReplayState, should_journal, marked, left_of,
  log_with_fields, replay,
}

-- Messages with the loggers that they come through.
abbrev pub Entries : Type 0
Entries = List (LoggerRef × LogMessage)

-- An entry as it is logged at once.
abbrev pub logged_once : Bytes → LoggerRef × LogMessage → LoggerRef × LogMessage
logged_once caller (logger, m) = (logger, record m { fields = add_caller caller (some m.fields) })

abbrev pub journaled : List LogLevel → Entries → Entries
journaled levels [] = []
journaled levels (e ∷ es) =
    if should_journal e.1.level levels then e ∷ journaled levels es else journaled levels es

-- `wrapped` is what the wrapped logger leaves of a map of fields.
module _ (wrapped : Fields → Fields) where
  abbrev pub log_all : Bytes → Entries → ReplayState → ReplayState
  log_all caller [] s = s
  log_all caller ((logger, m) ∷ es) s =
      log_all caller es (log_with_fields wrapped caller logger m s)

  -- The entry as it is logged again at a level: the field of the replay tells its own level.
  abbrev pub replayed : LogLevel → LoggerRef × LogMessage → LoggerRef × LogMessage
  replayed level (logger, m) = (
    logger,
    record m {
      level = level;
      fields = insert field_replay (level_value m.level) (clone (wrapped m.fields));
    },
  )

  abbrev pub in_journal : LoggerRef × LogMessage → JournaledMessage
  in_journal (logger, m) = record {
    logger = logger;
    message = record m { fields = clone (wrapped m.fields) };
  }

  -- What follows an entry at once if messages are being replayed.
  abbrev pub again : Option LogLevel → LoggerRef × LogMessage → Entries
  again none e = []
  again (some level) e = replayed level e ∷ []

  abbrev pub echo : List LogLevel → Option LogLevel → LoggerRef × LogMessage → Entries
  echo levels at e = e ∷ (if should_journal e.1.level levels then again at e else [])

  abbrev mark : Option LogLevel → JournaledMessage → JournaledMessage
  mark none m = m
  mark (some level) m = left_of wrapped (marked m)

  -- From `s` to `s'` the entries are logged, each with its echo, and the journaled ones are kept.
  abbrev Logs : Entries → ReplayState → ReplayState → Type 0
  Logs es s s' =
      (s'.output ≡ s.output ++ concat_map (echo s.journal.levels s.journal.replaying_at) es)
      × (s'.journal.messages
          ≡ s.journal.messages
            ++ map (λ e. mark s.journal.replaying_at (in_journal e))
                (journaled s.journal.levels es))
      × (s'.journal.levels ≡ s.journal.levels)
      × (s'.journal.replaying_at ≡ s.journal.replaying_at)

  replay-idle :
      (s : ReplayState) (current level : LogLevel)
      → s.journal.replaying_at ≡ some current
      → current ≤ℤ level
      → replay wrapped level s ≡ s
  unfolding replay
  replay-idle s current level h le = ground arith

  replay-at_level :
      (s : ReplayState) (level : LogLevel)
      → (l : LogLevel) × ((replay wrapped level s).journal.replaying_at ≡ some l) × (l ≤ℤ level)
  unfolding replay
  replay-at_level s level = elim (Option-cases s.journal.replaying_at) [
    | inl quiet ↦ (level, ground arith, omega arith)
    | inr (current, h) ↦ elim (Bool-cases (ltb_ℤ level current)) [
      | inl severe ↦ (level, ground arith, omega arith)
      | inr mild ↦ (current, ground arith, ground arith)
    ]
  ]

  -- After a replay, another one at the same or a less severe level does nothing.
  pub replay_twice :
      (s : ReplayState) (first second : LogLevel)
      → first ≤ℤ second
      → replay wrapped second (replay wrapped first s) ≡ replay wrapped first s
  replay_twice s first second le =
      let (l, at, severe) = replay-at_level s first in
      replay-idle (replay wrapped first s) l second at (omega arith)
