-- ===== src/Journal/Writer.antt =====
-- crates/attractor-journal/src/writer.rs: opening a journal and appending to it. The fault of a call
-- is an argument.
use pascals_discrete_attract.Base.{
  ℕ, ◌+◌, ◌%◌, ◌^◌, max, ltb, if◌then◌else◌, Text, List, [], ◌∷◌, ◌++◌, Option, none, some, split,
  take,
}
use pascals_discrete_attract.Journal.Event.{EventData, JournalEvent}
use pascals_discrete_attract.Journal.Reader.{complete_part}

-- `JournalWriter`, with the bytes of its file. Forcing them to disk changes no byte.
pub record JournalWriter : Type 0 where
  pub run_id : Text
  pub attempt : ℕ
  pub next_seq : ℕ
  pub file : Text

-- The write stops after a number of bytes, or the bytes are not forced to disk.
pub data AppendFault : Type 0 where
  write_stops : ℕ → AppendFault
  sync_fails : AppendFault

-- `+ 1` of a `u64`, which wraps in a release build; a debug build panics there instead.
abbrev pub next_after : ℕ → ℕ
next_after n = (n + 1) % 2 ^ 64

module _ (decode_seq : Text → Option ℕ) where
  -- A number beyond a `u64` is no number to `SeqOnly`.
  unfoldable pub seq_or_zero : Option ℕ → ℕ
  seq_or_zero none = 0
  seq_or_zero (some n) = if ltb n (2 ^ 64) then n else 0

  unfoldable pub last_seq : List Text → ℕ
  unfolding seq_or_zero
  last_seq [] = 0
  last_seq (line ∷ lines) = max (seq_or_zero (decode_seq line)) (last_seq lines)

  -- `open`: a torn final line is cut off.
  unfoldable pub open_journal : Text → ℕ → Text → JournalWriter
  unfolding last_seq complete_part
  open_journal run_id attempt bytes =
      let complete = complete_part bytes in
      record {
        run_id = run_id;
        attempt = attempt;
        next_seq = next_after (last_seq (split b'\n' complete));
        file = complete;
      }

-- `JournalEvent::new`, with the version of the envelope.
unfoldable pub stamped : JournalWriter → ℕ → EventData → JournalEvent
stamped w now data_ = record {
  v = 1;
  seq = w.next_seq;
  ts = now;
  run_id = w.run_id;
  attempt = w.attempt;
  data_ = data_;
}

-- `encode` is the line of an event, without its line break.
module _ (encode : JournalEvent → Text) where
  unfoldable pub line_of : JournalEvent → Text
  line_of e = encode e ++ b'\n' ∷ []

  -- `append`: the event, or an error, and the writer after it.
  unfoldable pub append :
      JournalWriter → ℕ → EventData → Option AppendFault → Option JournalEvent × JournalWriter
  unfolding stamped line_of
  append w now data_ none = (
    some (stamped w now data_),
    record w { file = w.file ++ line_of (stamped w now data_); next_seq = next_after w.next_seq },
  )
  append w now data_ (some (write_stops n)) =
      (none, record w { file = w.file ++ take n (line_of (stamped w now data_)) })
  append w now data_ (some sync_fails) = (
    none,
    record w { file = w.file ++ line_of (stamped w now data_); next_seq = next_after w.next_seq },
  )
