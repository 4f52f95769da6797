-- ===== src/Stylesheet/Scan.antt =====
-- Positions, errors and white space in the parser of
-- crates/attractor-pipeline/src/stylesheet.rs. A position in the input is the text
-- before it, latest character first, and the text after it. The source walks over bytes; a
-- character beyond ASCII only differs from its bytes where a slice cuts through it, which panics.
use pascals_discrete_attract.Base.{
  ℕ, ◌+◌, ◌/◌, Text, Bool, true, false, not, ◌&&◌, ◌||◌, [], ◌∷◌, none, eqb, ltb, if◌then◌else◌,
}
use pascals_discrete_attract.Types.Errors.{AttractorError, parse_error}

-- `Parser`: the input is the reversed `before` followed by `after`.
pub record Position : Type 0 where
  pub before : Text
  pub after : Text

-- What a parsing function gives: a value and the position after it, an error, a panic of a slice,
-- or (not a value of the source) too little fuel.
pub data Parsed (A : Type 0) : Type 0 where
  parsed : A → Position → Parsed A
  failed : AttractorError → Parsed A
  panicked starved : Parsed A

infixl 5 ◌>>=◌
-- `?`, with the position passed on.
unfoldable pub ◌>>=◌ : {A B : Type 0} → Parsed A → (A → Position → Parsed B) → Parsed B
(parsed a p) >>= next = next a p
(failed e) >>= next = failed e
panicked >>= next = panicked
starved >>= next = starved

abbrev pub advance : ℕ → Text → Text → Position
advance c before after = record { before = c ∷ before; after = after }

-- `len_utf8`.
utf8_length : ℕ → ℕ
utf8_length c = if ltb c 128 then 1 else if ltb c 2048 then 2 else if ltb c 65536 then 3 else 4

-- The bytes since the last line break and one more, the column of an error.
column_of : Text → ℕ
unfolding utf8_length
column_of [] = 1
column_of (c ∷ before) =
    let rest = column_of before in if eqb c b'\n' then 1 else rest + utf8_length c

lines_in : Text → ℕ
lines_in [] = 0
lines_in (c ∷ before) = let rest = lines_in before in if eqb c b'\n' then rest + 1 else rest

-- `Parser::error`.
unfoldable pub error_at : Position → Text → AttractorError
unfolding column_of lines_in
error_at p message = parse_error (lines_in p.before + 1) (column_of p.before) message none

-- The first byte of a character, read as a character by `as char`.
first_byte : ℕ → ℕ
first_byte c =
    if ltb c 128
    then c
    else if ltb c 2048
    then 192 + c / 64
    else if ltb c 65536
    then 224 + c / 4096
    else 240 + c / 262144

-- The byte at the position, or `\0`.
unfoldable pub found_text : Text → Text
unfolding first_byte
found_text [] = 0 ∷ []
found_text (c ∷ after) = first_byte c ∷ []

is_ascii_whitespace : ℕ → Bool
is_ascii_whitespace c = eqb c 32 || eqb c 9 || eqb c 10 || eqb c 12 || eqb c 13

abbrev is_ascii : ℕ → Bool
is_ascii c = ltb c 128

-- The loops of `skip_whitespace_and_comments`: outside a comment, in a line comment, in a block
-- comment.
pub data Mode : Type 0 where
  outside line block : Mode

-- What stands at the position, outside a comment and in a block comment.
pub data Sight : Type 0 where
  space line_comment block_comment comment_end cut other : Sight

abbrev is_pair : ℕ → ℕ → ℕ → ℕ → Bool
is_pair a b c d = eqb c a && eqb d b

unfoldable pub sight : ℕ → Text → Sight
unfolding is_ascii_whitespace
sight c [] = if is_ascii_whitespace c then space else other
sight c (d ∷ s) =
    if is_ascii_whitespace c
    then space
    else if is_pair b'/' b'/' c d
    then line_comment
    else if is_pair b'/' b'*' c d
    then block_comment
    else other

-- A block comment is scanned by slices of two bytes.
unfoldable pub block_sight : ℕ → ℕ → Sight
block_sight c d =
    if not (is_ascii c && is_ascii d)
    then cut
    else if is_pair b'*' b'/' c d
    then comment_end
    else other

-- At the last byte of a block comment without an end the scan gives up.
unfoldable pub last_sight : ℕ → Sight
unfolding is_ascii_whitespace
last_sight c = if not (is_ascii c) then cut else if is_ascii_whitespace c then space else other

abbrev pub stay : Text → Text → Parsed (Unit {0})
stay before after = parsed tt (record { before = before; after = after })

unfoldable pub skip_from : Mode → Text → Text → Parsed (Unit {0})
unfolding sight block_sight last_sight
skip_from outside before [] = stay before []
skip_from outside before (c ∷ []) = elim (sight c []) [
  | space ↦ skip_from outside (c ∷ before) []
  | _ ↦ stay before (c ∷ [])
]
skip_from outside before (c ∷ d ∷ s) = elim (sight c (d ∷ s)) [
  | space ↦ skip_from outside (c ∷ before) (d ∷ s)
  | line_comment ↦ skip_from line (d ∷ c ∷ before) s
  | block_comment ↦ skip_from block (d ∷ c ∷ before) s
  | _ ↦ stay before (c ∷ d ∷ s)
]
skip_from line before [] = stay before []
skip_from line before (c ∷ s) = elim (eqb c b'\n') [
  | true ↦ skip_from outside (c ∷ before) s
  | false ↦ skip_from line (c ∷ before) s
]
skip_from block before [] = stay before []
skip_from block before (c ∷ []) = elim (last_sight c) [
  | cut ↦ panicked
  | space ↦ skip_from outside (c ∷ before) []
  | _ ↦ stay before (c ∷ [])
]
skip_from block before (c ∷ d ∷ s) = elim (block_sight c d) [
  | cut ↦ panicked
  | comment_end ↦ skip_from outside (d ∷ c ∷ before) s
  | _ ↦ skip_from block (c ∷ before) (d ∷ s)
]

-- `skip_whitespace_and_comments`.
unfoldable pub skip : Position → Parsed (Unit {0})
unfolding skip_from
skip p = skip_from outside p.before p.after
