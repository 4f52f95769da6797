-- ===== src/Journal/Lines.antt =====
-- The lines of a journal: a text of whole lines and what follows its last line break
-- (crates/attractor-journal/src/reader.rs and writer.rs).
use pascals_discrete_attract.Base.{
  ℕ, Text, Bool, true, not, [], ◌∷◌, ◌++◌, ◌≡◌, refl, ap, ◌∙◌, all, eqb, split, add_char, arith,
  if◌then◌else◌,
}
use pascals_discrete_attract.Journal.Reader.{complete_part}

-- Without a line break.
unfoldable pub single_line : Text → Bool
single_line s = all (λ c. not (eqb c b'\n')) s

keep_char : ℕ → Text → Text
keep_char c r = elim r [ [] ↦ if eqb c b'\n' then c ∷ [] else [] | d ∷ t ↦ c ∷ d ∷ t ]

pub complete_part-torn : (t : Text) → single_line t ≡ true → complete_part t ≡ []
unfolding complete_part single_line
complete_part-torn [] h = refl
complete_part-torn (c ∷ t) h = ground (arith, complete_part-torn t)

keep_char-line : (c : ℕ) (s rest : Text) → keep_char c (s ++ b'\n' ∷ rest) ≡ c ∷ s ++ b'\n' ∷ rest
unfolding keep_char
keep_char-line c [] rest = refl
keep_char-line c (d ∷ s) rest = refl

keep_char-break : (r : Text) → keep_char b'\n' r ≡ b'\n' ∷ r
unfolding keep_char
keep_char-break [] = refl
keep_char-break (d ∷ r) = refl

pub complete_part-line :
    (s rest : Text) → complete_part (s ++ b'\n' ∷ rest) ≡ s ++ b'\n' ∷ complete_part rest
unfolding complete_part keep_char
complete_part-line [] rest = keep_char-break (complete_part rest)
complete_part-line (c ∷ s) rest =
    ap (keep_char c) (complete_part-line s rest) ∙ keep_char-line c s (complete_part rest)

pub split-line :
    (s rest : Text) → single_line s ≡ true → split b'\n' (s ++ b'\n' ∷ rest) ≡ s ∷ split b'\n' rest
unfolding split single_line add_char
split-line [] rest h = refl
split-line (c ∷ s) rest h = ground (arith, split-line s rest)
