-- ===== src/Journal/Numbers.antt =====
-- The numbers of the events of a journal (crates/attractor-journal/src/writer.rs).
use pascals_discrete_attract.Base.{
  ℕ, ◌+◌, ◌<◌, ◌≤◌, ◌^◌, max, Text, true, List, [], ◌∷◌, Option, none, some, ◌≡◌, refl, ap, ◌∙◌,
  sym, subst, split, some_injective, arith,
}
use pascals_discrete_attract.Journal.Event.{JournalEvent}
use pascals_discrete_attract.Journal.Writer.{last_seq, seq_or_zero, next_after, open_journal}
use pascals_discrete_attract.Journal.Lines.{single_line, split-line}
use pascals_discrete_attract.Journal.Torn.{
  AllStorable, text_of, text_of-line, complete_part-text_of, reopened,
}

-- The number is above all of the journal.
abbrev pub Above : ℕ → List JournalEvent → Type 0
Above n [] = Unit
Above n (e ∷ es) = (e.seq < n) × Above n es

Above-weaken : (m n : ℕ) (es : List JournalEvent) → m ≤ n → Above m es → Above n es
Above-weaken m n [] le h = tt
Above-weaken m n (e ∷ es) le (h, hs) = (omega arith, Above-weaken m n es le hs)

-- The last number `n` of the events leaves room for another.
abbrev Last : ℕ → List JournalEvent → Type 0
Last n es = Above (n + 1) es × (n + 1 < 2 ^ 64)

next_after-Above : (n : ℕ) (es : List JournalEvent) → Last n es → Above (next_after n) es
next_after-Above n es (h, room) = subst (λ m. Above m es) (omega (arith, room)) h

Last-max :
    (m n : ℕ) (e : JournalEvent) (es : List JournalEvent)
    → e.seq ≡ m
    → m + 1 < 2 ^ 64
    → Last n es
    → Last (max m n) (e ∷ es)
Last-max m n e es k below (h, room) = (
  (omega (arith, k), Above-weaken (n + 1) (max m n + 1) es (omega arith) h),
  omega (arith, below, room),
)

module _ (encode : JournalEvent → Text) (decode : Text → Option JournalEvent)
    (decode_seq : Text → Option ℕ) where
  -- Every event of the journal has its number, as the writer reads it, and the number is not the
  -- greatest of a `u64`.
  abbrev pub AllNumbered : List JournalEvent → Type 0
  AllNumbered [] = Unit
  AllNumbered (e ∷ es) =
      (decode_seq (encode e) ≡ some e.seq) × (e.seq + 1 < 2 ^ 64) × AllNumbered es

  seq_or_zero-some :
      (o : Option ℕ) (n : ℕ) → o ≡ some n → n + 1 < 2 ^ 64 → seq_or_zero decode_seq o ≡ n
  unfolding seq_or_zero
  seq_or_zero-some none n e below = cc
  seq_or_zero-some (some m) n e below = ground (arith, some_injective e, below)

  last_seq-Last :
      (es : List JournalEvent)
      → decode_seq [] ≡ none
      → AllStorable encode decode es
      → AllNumbered es
      → Last (last_seq decode_seq (split b'\n' (text_of encode decode es))) es
  unfolding text_of last_seq split seq_or_zero
  last_seq-Last [] empty h k = rw empty (tt, omega arith)
  last_seq-Last (e ∷ es) empty (h, hs) (k, below, ks) =
      subst (λ ls. Last (last_seq decode_seq ls) (e ∷ es))
        (sym (
          ap (split b'\n') (text_of-line encode decode e (text_of encode decode es))
          ∙ split-line (encode e) (text_of encode decode es) h.one_line))
        (subst
          (λ m.
            Last (max m (last_seq decode_seq (split b'\n' (text_of encode decode es)))) (e ∷ es))
          (sym (seq_or_zero-some (decode_seq (encode e)) e.seq k below))
          (Last-max e.seq _ e es refl below (last_seq-Last es empty hs ks)))

  -- A journal of events whose lines read back and whose numbers are below the greatest `u64`, with
  -- whatever a killed process left of a further line, is opened, where an empty line has no number: the
  -- number of the next event is above the number of every event in the file.
  pub open_journal-Above :
      (es : List JournalEvent) (torn run_id : Text) (attempt : ℕ)
      → decode_seq [] ≡ none
      → AllStorable encode decode es
      → AllNumbered es
      → single_line torn ≡ true
      → Above (reopened encode decode decode_seq es torn run_id attempt).next_seq es
  unfolding open_journal
  open_journal-Above es torn run_id attempt empty h k one_line =
      subst (λ s. Above (next_after (last_seq decode_seq (split b'\n' s))) es)
        (sym (complete_part-text_of encode decode es torn one_line))
        (next_after-Above _ es (last_seq-Last es empty h k))
