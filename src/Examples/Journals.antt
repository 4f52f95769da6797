-- ===== src/Examples/Journals.antt =====
-- A journal of two heartbeats with a torn line, and the status of its run. An event is written as
-- one character, for its number.
use pascals_discrete_attract.Base.{
  false, ℕ, ◌+◌, ◌-◌, Text, true, List, [], ◌∷◌, ◌++◌, Option, none, some, ◌≡◌, refl, codes, split,
  arith, eqb,
}
use pascals_discrete_attract.Journal.Event.{heartbeat, attempt_ended, failed, stopped, JournalEvent}
use pascals_discrete_attract.Journal.Reader.{complete_part, read_all_raw, events}
use pascals_discrete_attract.Journal.Writer.{
  write_stops, stamped, open_journal, last_seq, seq_or_zero, append, line_of,
}
use pascals_discrete_attract.Journal.Status.{status_of_reason, derive_status, last_attempt}
use pascals_discrete_attract.Journal.Lines.{single_line}
use pascals_discrete_attract.Journal.Torn.{
  Storable, AllStorable, text_of, reopened, read_all_raw-append,
}
use pascals_discrete_attract.Journal.Numbers.{Above, open_journal-Above}
use pascals_discrete_attract.Journal.Faults.{read_all_raw-write_stops}
use pascals_discrete_attract.Journal.Ended.{first_end, reason_of, derive_status-ended}
use pascals_discrete_attract.Journal.Derived.{derive_status-last}

abbrev beat : ℕ → JournalEvent
beat n = record { v = 1; seq = n; ts = 5; run_id = codes "r"; attempt = 1; data_ = heartbeat 7 }

abbrev encode_mark : JournalEvent → Text
encode_mark e = (64 + e.seq) ∷ []

abbrev decode_mark : Text → Option JournalEvent
decode_mark [] = none
decode_mark (c ∷ s) = some (beat (c - 64))

abbrev decode_mark_seq : Text → Option ℕ
decode_mark_seq [] = none
decode_mark_seq (c ∷ s) = some (c - 64)

abbrev two_beats : List JournalEvent
two_beats = beat 1 ∷ beat 2 ∷ []

two_beats-AllStorable : AllStorable encode_mark decode_mark two_beats
unfolding single_line
two_beats-AllStorable = (
  record { reads_back = refl; one_line = refl; visible = refl },
  (record { reads_back = refl; one_line = refl; visible = refl }, tt),
)

third-Storable : Storable encode_mark decode_mark (
    stamped
      (reopened encode_mark decode_mark decode_mark_seq two_beats (codes "{") (codes "r") 1)
      5
      (heartbeat 7))
unfolding single_line stamped open_journal last_seq seq_or_zero text_of complete_part line_of split
third-Storable = record { reads_back = refl; one_line = refl; visible = refl }

torn-single_line : single_line (codes "{") ≡ true
unfolding single_line
torn-single_line = refl

read_all_raw-append_example :
    let w = reopened encode_mark decode_mark decode_mark_seq two_beats (codes "{") (codes "r") 1 in
    ((append encode_mark w 5 (heartbeat 7) none).0 ≡ some (stamped w 5 (heartbeat 7)))
    × (read_all_raw decode_mark (append encode_mark w 5 (heartbeat 7) none).1.file
        ≡ events (two_beats ++ stamped w 5 (heartbeat 7) ∷ []))
read_all_raw-append_example =
    read_all_raw-append encode_mark decode_mark decode_mark_seq two_beats (codes "{") (codes "r") 1
      5 (heartbeat 7) two_beats-AllStorable torn-single_line third-Storable

open_journal-Above_example :
    Above
      (reopened encode_mark decode_mark decode_mark_seq two_beats
        (codes "{")
        (codes "r")
        1).next_seq
      two_beats
open_journal-Above_example =
    open_journal-Above encode_mark decode_mark decode_mark_seq two_beats (codes "{") (codes "r") 1
      refl two_beats-AllStorable (refl, omega arith, (refl, omega arith, tt)) torn-single_line

read_all_raw-write_stops_example :
    let w = reopened encode_mark decode_mark decode_mark_seq two_beats (codes "{") (codes "r") 1 in
    let after = append encode_mark w 5 (heartbeat 7) (some (write_stops 1)) in
    (after.0 ≡ none)
    × ((after.1.next_seq ≡ w.next_seq)
        × ((read_all_raw decode_mark after.1.file ≡ events two_beats)
            × ((open_journal decode_mark_seq (codes "r") 1 after.1.file).file ≡ w.file)))
read_all_raw-write_stops_example =
    read_all_raw-write_stops encode_mark decode_mark decode_mark_seq two_beats (codes "{")
      (codes "r") 1 5 1 (heartbeat 7) two_beats-AllStorable torn-single_line third-Storable.one_line
      (omega arith)

-- The end of the attempt before.
abbrev earlier_end : JournalEvent
earlier_end = record (beat 1) { attempt = 0; data_ = attempt_ended 0 failed none }

derive_status-last_example :
    derive_status 0 9 (λ pid. eqb pid 7) (earlier_end ∷ [] ++ two_beats)
    ≡ derive_status 0 9 (λ pid. eqb pid 7) two_beats
unfolding last_attempt
derive_status-last_example =
    derive_status-last 0 9 (λ pid. eqb pid 7) (earlier_end ∷ []) two_beats (omega arith, tt)

-- An attempt that was stopped, with a heartbeat on either side of its end.
abbrev stopped_run : List JournalEvent
stopped_run = beat 1 ∷ record (beat 2) { data_ = attempt_ended 1 stopped none } ∷ beat 3 ∷ []

derive_status-ended_example :
    derive_status 0 900000 (λ pid. false) stopped_run ≡ status_of_reason stopped
unfolding first_end last_attempt reason_of
derive_status-ended_example = derive_status-ended 0 900000 (λ pid. false) stopped_run stopped refl
