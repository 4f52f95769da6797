-- ===== src/Journal/Torn.antt =====
-- Journals that end in a torn line: what the reader makes of them, and the writer that opens them
-- (crates/attractor-journal/src/reader.rs and writer.rs).
use pascals_discrete_attract.Base.{
  ℕ, suc, Text, true, false, List, [], ◌∷◌, ◌++◌, Option, none, some, ◌≡◌, refl, ap, ◌∙◌, sym, all,
  split, append_assoc, append-nil, if◌then◌else◌,
}
use pascals_discrete_attract.Journal.Event.{EventData, JournalEvent}
use pascals_discrete_attract.Journal.Reader.{
  complete_part, is_ascii_space, Reading, events, with_event, read_line, read_lines, read_all_raw,
}
use pascals_discrete_attract.Journal.Writer.{line_of, open_journal, append, stamped, JournalWriter}
use pascals_discrete_attract.Journal.Lines.{
  single_line, complete_part-torn, complete_part-line, split-line,
}

module _ (encode : JournalEvent → Text) (decode : Text → Option JournalEvent) where
  -- The line of the event is one line, not blank, and reads back.
  pub record Storable (e : JournalEvent) : Type 0 where
    pub reads_back : decode (encode e) ≡ some e
    pub one_line : single_line (encode e) ≡ true
    pub visible : all is_ascii_space (encode e) ≡ false

  abbrev pub AllStorable : List JournalEvent → Type 0
  AllStorable [] = Unit
  AllStorable (e ∷ es) = Storable e × AllStorable es

  -- The file of a journal of whole lines.
  unfoldable pub text_of : List JournalEvent → Text
  text_of [] = []
  text_of (e ∷ es) = line_of encode e ++ text_of es

  pub text_of-line :
      (e : JournalEvent) (rest : Text) → line_of encode e ++ rest ≡ encode e ++ b'\n' ∷ rest
  unfolding line_of
  text_of-line e rest = append_assoc (encode e) _ rest

  pub complete_part-text_of :
      (es : List JournalEvent) (torn : Text)
      → single_line torn ≡ true
      → complete_part (text_of es ++ torn) ≡ text_of es
  unfolding text_of complete_part
  complete_part-text_of [] torn h = complete_part-torn torn h
  complete_part-text_of (e ∷ es) torn h =
      ap complete_part
        (append_assoc (line_of encode e) (text_of es) torn ∙ text_of-line e (text_of es ++ torn))
      ∙ complete_part-line (encode e) (text_of es ++ torn)
      ∙ ap (λ rest. encode e ++ b'\n' ∷ rest) (complete_part-text_of es torn h)
      ∙ sym (text_of-line e (text_of es))

  text_of-append :
      (es : List JournalEvent) (e : JournalEvent)
      → text_of es ++ line_of encode e ≡ text_of (es ++ e ∷ [])
  unfolding text_of
  text_of-append [] e = sym (append-nil (line_of encode e))
  text_of-append (e' ∷ es) e =
      append_assoc (line_of encode e') (text_of es) (line_of encode e)
      ∙ ap (line_of encode e' ++◌) (text_of-append es e)

  shown :
      (i : ℕ) (e : JournalEvent) (rest : List Text) (r : Reading)
      → Storable e
      → read_lines decode (suc i) rest ≡ r
      → read_lines decode i (encode e ∷ rest) ≡ with_event e r
  unfolding read_lines read_line
  shown i e rest r h k =
      ap
        (λ b.
          if b
          then read_lines decode (suc i) rest
          else read_line decode (suc i) (decode (encode e)) (read_lines decode (suc i) rest))
        h.visible
      ∙ ap (λ o. read_line decode (suc i) o (read_lines decode (suc i) rest)) h.reads_back
      ∙ ap (with_event e) k

  read_lines-text_of :
      (es : List JournalEvent) (i : ℕ)
      → AllStorable es
      → read_lines decode i (split b'\n' (text_of es)) ≡ events es
  unfolding text_of read_lines read_line with_event split
  read_lines-text_of [] i h = refl
  read_lines-text_of (e ∷ es) i (h, hs) =
      ap (read_lines decode i) (
        ap (split b'\n') (text_of-line e (text_of es))
        ∙ split-line (encode e) (text_of es) h.one_line)
      ∙ shown i e (split b'\n' (text_of es)) (events es) h (read_lines-text_of es (suc i) hs)

  pub read_all_raw-text_of :
      (es : List JournalEvent) (torn : Text)
      → AllStorable es
      → single_line torn ≡ true
      → read_all_raw decode (text_of es ++ torn) ≡ events es
  unfolding read_all_raw
  read_all_raw-text_of es torn h k =
      ap (λ s. read_lines decode 0 (split b'\n' s)) (complete_part-text_of es torn k)
      ∙ read_lines-text_of es 0 h

  AllStorable-append :
      (es : List JournalEvent) (e : JournalEvent)
      → AllStorable es
      → Storable e
      → AllStorable (es ++ e ∷ [])
  AllStorable-append [] e h k = (k, tt)
  AllStorable-append (e' ∷ es) e (h, hs) k = (h, AllStorable-append es e hs k)

  module _ (decode_seq : Text → Option ℕ) where
    pub open_journal-file :
        (es : List JournalEvent) (torn run_id : Text) (attempt : ℕ)
        → single_line torn ≡ true
        → (open_journal decode_seq run_id attempt (text_of es ++ torn)).file ≡ text_of es
    unfolding open_journal
    open_journal-file es torn run_id attempt k = complete_part-text_of es torn k

    -- The writer that opens the journal.
    abbrev pub reopened : List JournalEvent → Text → Text → ℕ → JournalWriter
    reopened es torn run_id attempt = open_journal decode_seq run_id attempt (text_of es ++ torn)

    -- A journal of events whose lines read back, with whatever a killed process left of a further
    -- line, is opened and an event is appended without a fault: the reader gives the events of
    -- before, in their order, and then the event that the call returned.
    pub read_all_raw-append :
        (es : List JournalEvent) (torn run_id : Text) (attempt now : ℕ) (data_ : EventData)
        → AllStorable es
        → single_line torn ≡ true
        → Storable (stamped (reopened es torn run_id attempt) now data_)
        → let w = reopened es torn run_id attempt in
          ((append encode w now data_ none).0 ≡ some (stamped w now data_))
          × (read_all_raw decode (append encode w now data_ none).1.file
              ≡ events (es ++ stamped w now data_ ∷ []))
    unfolding append single_line
    read_all_raw-append es torn run_id attempt now data_ h k new = (
      refl,
      (let w = reopened es torn run_id attempt in
          ap (read_all_raw decode) (
            ap (λ f. f ++ line_of encode (stamped w now data_))
              (open_journal-file es torn run_id attempt k)
            ∙ text_of-append es (stamped w now data_)
            ∙ sym (append-nil (text_of (es ++ stamped w now data_ ∷ []))))
          ∙ read_all_raw-text_of (es ++ stamped w now data_ ∷ []) [] (AllStorable-append es _ h new)
              refl),
    )
