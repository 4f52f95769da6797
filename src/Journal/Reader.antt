-- ===== src/Journal/Reader.antt =====
-- crates/attractor-journal/src/reader.rs: reading a whole journal. A file is a list of bytes; what
-- serde makes of a line is a parameter.
use pascals_discrete_attract.Base.{
  ℕ, suc, Text, Bool, not, ◌||◌, List, [], ◌∷◌, Option, none, some, eqb, all, keep, split,
  if◌then◌else◌,
}
use pascals_discrete_attract.Journal.Event.{JournalEvent, is_unknown}

-- The bytes up to the last line break, with it.
unfoldable pub complete_part : Text → Text
complete_part [] = []
complete_part (c ∷ s) = elim (complete_part s) [
  | [] ↦ if eqb c b'\n' then c ∷ [] else []
  | d ∷ t ↦ c ∷ d ∷ t
]

abbrev pub is_ascii_space : ℕ → Bool
is_ascii_space c = eqb c 32 || eqb c 9 || eqb c 10 || eqb c 12 || eqb c 13

-- The events of a journal, or the number of the line that is no event.
pub data Reading : Type 0 where
  events : List JournalEvent → Reading
  invalid_line : ℕ → Reading

unfoldable pub with_event : JournalEvent → Reading → Reading
with_event e (events es) = events (e ∷ es)
with_event e (invalid_line i) = invalid_line i

module _ (decode : Text → Option JournalEvent) where
  unfoldable pub read_line : ℕ → Option JournalEvent → Reading → Reading
  unfolding with_event
  read_line i none rest = invalid_line i
  read_line i (some e) rest = with_event e rest

  -- The loop over the lines; blank ones are passed over.
  unfoldable pub read_lines : ℕ → List Text → Reading
  unfolding read_line
  read_lines i [] = events []
  read_lines i (line ∷ lines) =
      let rest = read_lines (suc i) lines in
      if all is_ascii_space line then rest else read_line (suc i) (decode line) rest

  -- `read_all_raw`, of the bytes of the file.
  unfoldable pub read_all_raw : Text → Reading
  unfolding read_lines complete_part
  read_all_raw bytes = read_lines 0 (split b'\n' (complete_part bytes))

  known : Reading → Reading
  known (events es) = events (keep (λ (e : JournalEvent). not (is_unknown e.data_)) es)
  known (invalid_line i) = invalid_line i

  unfoldable pub read_all : Text → Reading
  unfolding known read_all_raw
  read_all bytes = known (read_all_raw bytes)
