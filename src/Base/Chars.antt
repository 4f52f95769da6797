-- ===== src/Base/Chars.antt =====
-- The operations of `str` and `char` that the program uses, over code points.
use Prim.Native.Nat.{ℕ, zero, suc, ◌+◌, ◌/◌, ◌%◌}
use mathlib.Core.Bool.{Bool, true, false, ◌&&◌, ◌||◌}
use mathlib.Core.List.{List, [], ◌∷◌, ◌++◌, reverse}
use pascals_discrete_attract.Base.Bools.{eqb, leb, if◌then◌else◌}
use pascals_discrete_attract.Base.Strings.{Text}

-- `char::is_whitespace`: the Unicode property `White_Space`.
unfoldable pub is_whitespace : ℕ → Bool
is_whitespace c =
    (leb 9 c && leb c 13)
    || eqb c 32
    || eqb c 133
    || eqb c 160
    || eqb c 5760
    || (leb 8192 c && leb c 8202)
    || eqb c 8232
    || eqb c 8233
    || eqb c 8239
    || eqb c 8287
    || eqb c 12288

-- `char::is_ascii_digit`, `char::is_ascii_alphanumeric`.
unfoldable pub is_ascii_digit : ℕ → Bool
is_ascii_digit c = leb b'0' c && leb c b'9'

unfoldable pub is_ascii_alphanumeric : ℕ → Bool
unfolding is_ascii_digit
is_ascii_alphanumeric c =
    is_ascii_digit c || (leb b'A' c && leb c b'Z') || (leb b'a' c && leb c b'z')

unfoldable pub trim_start : Text → Text
trim_start [] = []
trim_start (c ∷ s) = let rest = trim_start s in if is_whitespace c then rest else c ∷ s

-- Cut from the end: a suffix of white space is dropped.
unfoldable pub trim_end : Text → Text
trim_end [] = []
trim_end (c ∷ s) = elim (trim_end s) [
  | [] ↦ if is_whitespace c then [] else c ∷ []
  | d ∷ t ↦ c ∷ d ∷ t
]

unfoldable pub trim : Text → Text
unfolding trim_start trim_end is_whitespace
trim s = trim_end (trim_start s)

-- `split(c)`: the pieces between the separators, one more than there are separators.
unfoldable pub add_char : ℕ → List Text → List Text
add_char c [] = (c ∷ []) ∷ []
add_char c (piece ∷ pieces) = (c ∷ piece) ∷ pieces

unfoldable pub split : ℕ → Text → List Text
unfolding add_char
split sep [] = [] ∷ []
split sep (c ∷ s) = let rest = split sep s in if eqb c sep then [] ∷ rest else add_char c rest

-- `split_whitespace`: the maximal runs without white space.
close_word : Text → List Text → List Text
close_word [] words = words
close_word (c ∷ w) words = reverse (c ∷ w) ∷ words

words_from : Text → Text → List Text
unfolding close_word
words_from word [] = close_word word []
words_from word (c ∷ s) = elim (is_whitespace c) [
  | true ↦ close_word word (words_from [] s)
  | false ↦ words_from (c ∷ word) s
]

unfoldable pub split_whitespace : Text → List Text
unfolding words_from is_whitespace
split_whitespace s = words_from [] s

unfoldable pub starts_with : Text → Text → Bool
starts_with [] s = true
starts_with (c ∷ p) [] = false
starts_with (c ∷ p) (d ∷ s) = eqb c d && starts_with p s

abbrev pub is_empty : Text → Bool
is_empty [] = true
is_empty (c ∷ s) = false

-- Decimal digits of a number, as `to_string` prints it; the fuel is one more than the number.
digits_from : ℕ → ℕ → Text → Text
digits_from zero n acc = acc
digits_from (suc f) n acc =
    let digit = b'0' + n % 10 in
    let more = digits_from f (n / 10) (digit ∷ acc) in if leb n 9 then digit ∷ acc else more

unfoldable pub decimal : ℕ → Text
unfolding digits_from
decimal n = digits_from (suc n) n []

-- `join(separator)`.
unfoldable pub join : Text → List Text → Text
join sep [] = []
join sep (s ∷ []) = s
join sep (s ∷ t ∷ rest) = s ++ (sep ++ join sep (t ∷ rest))

-- What the program takes from the Unicode tables: `char::is_alphanumeric`, the class `\w` of
-- regular expressions, and `str::to_lowercase`.
pub record Unicode : Type 0 where
  pub is_alphanumeric : ℕ → Bool
  pub is_word : ℕ → Bool
  pub to_lowercase : Text → Text
