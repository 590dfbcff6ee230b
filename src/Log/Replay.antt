-- ===== src/Log/Replay.antt =====
-- log/replay.go: a journal of the messages of some levels, which can be logged again at another
-- level.
use nacelle.Prelude.{
  String, Bool, true, false, not, Option, none, some, List, [], ◌∷◌, ◌++◌, insert, if◌then◌else◌,
  ltb_ℤ, string_comparable, nat_comparable, int_comparable, bytes_comparable, ◌==◌, Bytes,
}
use nacelle.Log.Message.{LogMessage, LogLevel, Fields, level_value, add_caller, clone}

abbrev pub field_replay : String
field_replay = "replayed-from-level"

-- The wrapped logger, or one that `WithFields` made of it: the sets of fields that were added.
abbrev pub LoggerRef : Type 0
LoggerRef = List Fields

pub record JournaledMessage : Type 0 where
  pub logger : LoggerRef
  pub message : LogMessage

-- `sharedJournal`, which all shims that `WithFields` makes share.
pub record Journal : Type 0 where
  pub messages : List JournaledMessage
  pub levels : List LogLevel
  pub replaying_at : Option LogLevel

-- The journal, and what the loggers were given, in order.
pub record ReplayState : Type 0 where
  pub journal : Journal
  pub output : List (LoggerRef × LogMessage)

unfoldable pub new_replay_state : List LogLevel → ReplayState
new_replay_state levels = record {
  journal = record { messages = []; levels = levels; replaying_at = none };
  output = [];
}

unfoldable pub with_fields : Fields → LoggerRef → LoggerRef
with_fields [] logger = logger
with_fields (f ∷ fs) logger = logger ++ (f ∷ fs) ∷ []

unfoldable pub should_journal : LogLevel → List LogLevel → Bool
should_journal level [] = false
should_journal level (l ∷ ls) = if l == level then true else should_journal level ls

-- The message with the field that `replay` sets on it, for good.
abbrev pub marked : JournaledMessage → JournaledMessage
marked m = record m {
  message = record m.message {
    fields = insert field_replay (level_value m.message.level) m.message.fields;
  };
}

-- Is the level more severe than the one at which messages are replayed now?
abbrev pub more_severe : LogLevel → Option LogLevel → Bool
more_severe level none = true
more_severe level (some current) = ltb_ℤ level current

-- `wrapped` is what `LogWithFields` of the wrapped logger leaves of the map of fields that it is given.
module _ (wrapped : Fields → Fields) where
  abbrev pub left_of : JournaledMessage → JournaledMessage
  left_of m = record m { message = record m.message { fields = wrapped m.message.fields } }

  -- `journaledMessage.replay`: the message afterwards, and what is logged.
  unfoldable pub replay_message :
      Option LogLevel → JournaledMessage → JournaledMessage × List (LoggerRef × LogMessage)
  replay_message none m = (m, [])
  replay_message (some level) m =
      (left_of (marked m), (m.logger, record (marked m).message { level = level }) ∷ [])

  -- `sharedJournal.record`.
  unfoldable pub record_message : LoggerRef → LogMessage → ReplayState → ReplayState
  unfolding replay_message should_journal clone
  record_message logger m s =
      if not (should_journal m.level s.journal.levels)
      then s
      else let (journaled, logged) =
          replay_message s.journal.replaying_at
            (record { logger = logger; message = record m { fields = clone m.fields } }) in
        record {
          journal = record s.journal { messages = s.journal.messages ++ journaled ∷ [] };
          output = s.output ++ logged;
        }

  -- `LogWithFields`: the message is logged, and then its map of fields is copied. `caller` is what `getCaller` finds.
  unfoldable pub log_with_fields : Bytes → LoggerRef → LogMessage → ReplayState → ReplayState
  unfolding record_message add_caller
  log_with_fields caller logger message s =
      let m = record message { fields = add_caller caller (some message.fields) } in
      record_message logger (record m { fields = wrapped m.fields })
        (record s { output = s.output ++ (logger, m) ∷ [] })

  unfoldable pub replay_messages :
      LogLevel → List JournaledMessage → List JournaledMessage × List (LoggerRef × LogMessage)
  unfolding replay_message
  replay_messages level [] = ([], [])
  replay_messages level (m ∷ ms) =
      let (m', logged) = replay_message (some level) m in
      let (ms', logged') = replay_messages level ms in (m' ∷ ms', logged ++ logged')

  -- `sharedJournal.replay`.
  unfoldable pub replay : LogLevel → ReplayState → ReplayState
  unfolding replay_messages
  replay level s =
      if not (more_severe level s.journal.replaying_at)
      then s
      else let (messages, logged) = replay_messages level s.journal.messages in
        record {
          journal = record s.journal { messages = messages; replaying_at = some level };
          output = s.output ++ logged;
        }
