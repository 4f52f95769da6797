-- ===== src/Graph/Attributes.antt =====
-- The attribute readers of crates/attractor-pipeline/src/graph.rs, and the duration syntax of
-- crates/attractor-dot/src/duration_serde.rs.
use mathlib.Core.List.{reverse}
use pascals_discrete_attract.Base.{
  ℕ, Text, Bool, [], ◌∷◌, Option, none, some, ℤ, codes, ◌==◌, lookup, ltb, is_ascii_digit,
  if◌then◌else◌, ◌+◌, ◌*◌, ◌-◌, ◌%◌, ◌^◌, eqb,
}
use pascals_discrete_attract.Graph.Dot.{AttributeValue, string, integer, boolean, duration, Attrs}

-- `get_string_attr`.
string_of : Option AttributeValue → Option Text
string_of (some (string s)) = some s
string_of _ = none

unfoldable pub get_string_attr : Attrs → Text → Option Text
unfolding string_of
get_string_attr attrs key = string_of (lookup key attrs)

-- `get_bool_attr`: a string counts as true exactly when it is "true".
bool_of : Option AttributeValue → Option Bool
bool_of (some (boolean b)) = some b
bool_of (some (string s)) = some (s == codes "true")
bool_of _ = none

unfoldable pub get_bool_attr : Attrs → Text → Option Bool
unfolding bool_of
get_bool_attr attrs key = bool_of (lookup key attrs)

-- `get_int_attr`.
int_of : Option AttributeValue → Option ℤ
int_of (some (integer i)) = some i
int_of _ = none

unfoldable pub get_int_attr : Attrs → Text → Option ℤ
unfolding int_of
get_int_attr attrs key = int_of (lookup key attrs)

-- `str::parse::<u64>`: an optional `+`, then digits, below 2^64.
digits_value : ℕ → Text → Option ℕ
digits_value n [] = some n
digits_value n (c ∷ s) =
    let rest = digits_value (n * 10 + (c - b'0')) s in if is_ascii_digit c then rest else none

checked_u64 : Option ℕ → Option ℕ
checked_u64 none = none
checked_u64 (some n) = if ltb n (2 ^ 64) then some n else none

digits_u64 : Text → Option ℕ
digits_u64 [] = none
digits_u64 (c ∷ s) = checked_u64 (digits_value 0 (c ∷ s))

parse_u64 : Text → Option ℕ
unfolding digits_value checked_u64 digits_u64 is_ascii_digit
parse_u64 [] = none
parse_u64 (c ∷ s) = if eqb c b'+' then digits_u64 s else digits_u64 (c ∷ s)

-- A count of a unit, in milliseconds. The product of seconds is a `u64`, which wraps.
seconds_in : ℕ → Text → Option ℕ
seconds_in unit val = elim (parse_u64 val) [
  | none ↦ none
  | some n ↦ some (n * unit % 2 ^ 64 * 1000)
]

-- The suffix is read from the reversed text: "ms" before "s".
duration_reversed : Text → Option ℕ
unfolding parse_u64 seconds_in
duration_reversed [] = none
duration_reversed (c ∷ []) = none
duration_reversed (c ∷ d ∷ s) =
    if eqb c b's'
    then (if eqb d b'm' then parse_u64 (reverse s) else seconds_in 1 (reverse (d ∷ s)))
    else if eqb c b'm'
    then seconds_in 60 (reverse (d ∷ s))
    else if eqb c b'h'
    then seconds_in 3600 (reverse (d ∷ s))
    else if eqb c b'd'
    then seconds_in 86400 (reverse (d ∷ s))
    else none

-- `parse_duration_str`, up to the text of its error.
unfoldable pub parse_duration_str : Text → Option ℕ
unfolding duration_reversed
parse_duration_str s = duration_reversed (reverse s)

duration_of : Option AttributeValue → Option ℕ
duration_of (some (duration d)) = some d
duration_of (some (string s)) = parse_duration_str s
duration_of _ = none

-- `get_duration_attr`.
unfoldable pub get_duration_attr : Attrs → Text → Option ℕ
unfolding duration_of
get_duration_attr attrs key = duration_of (lookup key attrs)
