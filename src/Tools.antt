-- ===== src/Tools.antt =====
-- crates/attractor-tools/src/truncation.rs: tool outputs that are too long are cut.
pub mod Truncated
use pascals_discrete_attract.Base.{
  ℕ, ◌+◌, ◌-◌, ◌*◌, ◌/◌, ◌%◌, ◌^◌, Text, Bool, List, [], ◌∷◌, ◌++◌, codes, decimal, length, take,
  drop, leb, ltb, if◌then◌else◌,
}

pub data TruncationMode : Type 0 where
  head_tail tail : TruncationMode

-- The bytes of a character in UTF-8, and of a text (`str::len`).
unfoldable pub utf8_width : ℕ → ℕ
utf8_width c = if ltb c 128 then 1 else if ltb c 2048 then 2 else if ltb c 65536 then 3 else 4

unfoldable pub byte_length : Text → ℕ
unfolding utf8_width
byte_length [] = 0
byte_length (c ∷ cs) = utf8_width c + byte_length cs

unfoldable pub marker : TruncationMode → ℕ → Text
marker head_tail removed =
    codes "\n[WARNING: Output truncated. "
    ++ (decimal removed ++ codes " characters removed from middle]\n")
marker tail removed =
    codes "\n[WARNING: Output truncated. "
    ++ (decimal removed ++ codes " characters removed from start]\n")

-- The product is one of `usize`, of 64 bits.
unfoldable pub head_chars : ℕ → ℕ
head_chars max_chars = max_chars * 40 % 2 ^ 64 / 100

unfoldable pub cut : Text → ℕ → TruncationMode → Text
unfolding marker head_chars
cut output max_chars head_tail =
    take (head_chars max_chars) output
    ++ (marker head_tail (length output - max_chars)
        ++ drop (length output - (max_chars - head_chars max_chars)) output)
cut output max_chars tail =
    marker tail (length output - max_chars) ++ drop (length output - max_chars) output

unfoldable pub truncate_output : Text → ℕ → TruncationMode → Text
unfolding byte_length cut
truncate_output output max_chars mode =
    if leb (byte_length output) max_chars
    then output
    else if leb (length output) max_chars
    then output
    else cut output max_chars mode
