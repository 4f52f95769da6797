-- ===== src/Journal/Faults.antt =====
-- Appends that fail in the middle of a line (crates/attractor-journal/src/writer.rs).
use pascals_discrete_attract.Base.{
  ℕ, zero, suc, ◌≤◌, Text, true, List, [], ◌∷◌, ◌++◌, Option, none, some, ◌≡◌, refl, ap, ◌∙◌, sym,
  take, length, arith,
}
use pascals_discrete_attract.Journal.Event.{EventData, JournalEvent}
use pascals_discrete_attract.Journal.Reader.{read_all_raw, events}
use pascals_discrete_attract.Journal.Writer.{line_of, open_journal, append, stamped, write_stops}
use pascals_discrete_attract.Journal.Lines.{single_line}
use pascals_discrete_attract.Journal.Torn.{
  AllStorable, text_of, reopened, open_journal-file, read_all_raw-text_of,
}

take-single_line :
    (n : ℕ) (s rest : Text)
    → single_line s ≡ true
    → n ≤ length s
    → single_line (take n (s ++ rest)) ≡ true
unfolding single_line
take-single_line zero s rest h le = refl
take-single_line (suc n) [] rest h le = ground arith
take-single_line (suc n) (c ∷ s) rest h le = ground (arith, take-single_line n s rest)

module _ (encode : JournalEvent → Text) (decode : Text → Option JournalEvent)
    (decode_seq : Text → Option ℕ) where
  after_part :
      (es : List JournalEvent) (run_id : Text) (attempt : ℕ) (file part : Text)
      → AllStorable encode decode es
      → file ≡ text_of encode decode es
      → single_line part ≡ true
      → (read_all_raw decode (file ++ part) ≡ events es)
        × ((open_journal decode_seq run_id attempt (file ++ part)).file ≡ file)
  after_part es run_id attempt file part h e k = (
    ap (λ f. read_all_raw decode (f ++ part)) e ∙ read_all_raw-text_of encode decode es part h k,
    ap (λ f. (open_journal decode_seq run_id attempt (f ++ part)).file) e
        ∙ open_journal-file encode decode decode_seq es part run_id attempt k
        ∙ sym e,
  )

  -- A journal of events whose lines read back, with whatever a killed process left of a further
  -- line, is opened, and the write of an event stops before its line break: the call gives no event and
  -- takes no number, the reader gives the events of before, and opening the journal
  -- again cuts off what was written.
  pub read_all_raw-write_stops :
      (es : List JournalEvent) (torn run_id : Text) (attempt now n : ℕ) (data_ : EventData)
      → AllStorable encode decode es
      → single_line torn ≡ true
      → single_line
          (encode (stamped (reopened encode decode decode_seq es torn run_id attempt) now data_))
        ≡ true
      → n
        ≤ length
            (encode (stamped (reopened encode decode decode_seq es torn run_id attempt) now data_))
      → let w = reopened encode decode decode_seq es torn run_id attempt in
        let after = append encode w now data_ (some (write_stops n)) in
        (after.0 ≡ none)
        × ((after.1.next_seq ≡ w.next_seq)
            × ((read_all_raw decode after.1.file ≡ events es)
                × ((open_journal decode_seq run_id attempt after.1.file).file ≡ w.file)))
  unfolding append line_of
  read_all_raw-write_stops es torn run_id attempt now n data_ h k one_line le = (
    refl,
    (
      refl,
      after_part es run_id attempt _ _ h
          (open_journal-file encode decode decode_seq es torn run_id attempt k)
          (take-single_line n _ _ one_line le),
    ),
  )
