-- ===== src/Condition.antt =====
-- crates/attractor-pipeline/src/condition.rs: the condition language of edges.
-- `char::is_alphanumeric` follows the Unicode tables, so it is the parameter `alnum`.
pub mod Wellformed
pub mod Words
pub mod Rendered
pub mod Roundtrip
use pascals_discrete_attract.Base.{
  ℕ, zero, suc, ◌+◌, Text, Bool, true, false, not, ◌&&◌, ◌||◌, List, [], ◌∷◌, ◌++◌, Option, none,
  some, codes, ◌==◌, eqb, ltb, leb, length, take, drop, all, trim, split, add_char, is_empty,
  if◌then◌else◌,
}
use pascals_discrete_attract.Types.Errors.{
  AttractorError, validation_error, Result, ok, err, ◌>>=◌, ◌>>◌,
}

pub data Operator : Type 0 where
  equal not_equal : Operator

pub record Clause : Type 0 where
  pub key : Text
  pub operator : Operator
  pub value : Text

pub record ConditionExpr : Type 0 where
  pub clauses : List Clause

unfoldable pub make_error : Text → AttractorError
make_error msg = validation_error (codes "condition parse error: " ++ msg)

unfoldable pub is_quote : ℕ → Bool
is_quote c = eqb c b'"' || eqb c b'\''

-- `!=` at the front.
abbrev is_not_equal : ℕ → Text → Bool
is_not_equal c [] = false
is_not_equal c (d ∷ s) = eqb c b'!' && eqb d b'='

-- The scan of `find_operator`: the quote that is open, the text left and the index reached.
unfoldable pub scan : Option ℕ → Text → ℕ → Option (ℕ × Operator × ℕ)
scan quote [] i = none
scan (some q) (c ∷ s) i = scan (if eqb c q then none else some q) s (i + 1)
scan none (c ∷ s) i =
    let rest = scan (if is_quote c then some c else none) s (i + 1) in
    if is_quote c
    then rest
    else if is_not_equal c s
    then some (i, not_equal, 2)
    else if eqb c b'='
    then some (i, equal, 1)
    else rest

unfoldable pub find_operator : Text → Result (ℕ × Operator × ℕ)
unfolding scan is_quote
find_operator input = elim (scan none input 0) [
  | none ↦ err (make_error (codes "no operator found in '" ++ (input ++ codes "'")))
  | some found ↦ ok found
]

-- The last element of a text that starts with `c`.
abbrev last : ℕ → Text → ℕ
last c [] = c
last c (d ∷ s) = last d s

abbrev init : Text → Text
init [] = []
init (c ∷ []) = []
init (c ∷ d ∷ s) = c ∷ init (d ∷ s)

unfoldable pub strip_quotes : Text → Text
strip_quotes [] = []
strip_quotes (c ∷ []) = c ∷ []
strip_quotes (c ∷ d ∷ s) =
    if (eqb c b'"' && eqb (last d s) b'"') || (eqb c b'\'' && eqb (last d s) b'\'')
    then init (d ∷ s)
    else c ∷ d ∷ s

-- `split("&&")`: the separators do not overlap.
unfoldable pub split_and : Text → List Text
unfolding add_char
split_and [] = [] ∷ []
split_and (c ∷ []) = (c ∷ []) ∷ []
split_and (c ∷ d ∷ s) = elim (eqb c b'&' && eqb d b'&') [
  | true ↦ [] ∷ split_and s
  | false ↦ add_char c (split_and (d ∷ s))
]

module _ (alnum : ℕ → Bool) where
  abbrev pub key_char : ℕ → Bool
  key_char c = alnum c || eqb c b'_'

  abbrev pub valid_segment : Text → Bool
  valid_segment seg = not (is_empty seg) && all key_char seg

  unfoldable pub check_segments : List Text → Result (Unit {0})
  check_segments [] = ok tt
  check_segments (seg ∷ segs) =
      if valid_segment seg
      then check_segments segs
      else err (make_error (codes "invalid key segment: '" ++ (seg ++ codes "'")))

  unfoldable pub parse_key : Text → Result Text
  parse_key key =
      if is_empty key
      then err (make_error (codes "missing key before operator"))
      else do check_segments (split b'.' key); ok key

  unfoldable pub parse_value : Text → Text → Result Text
  parse_value input raw_value =
      if is_empty raw_value
      then err (make_error (codes "missing value after operator in '" ++ (input ++ codes "'")))
      else ok (strip_quotes raw_value)

  unfoldable pub parse_trimmed : Text → Result Clause
  parse_trimmed input = if is_empty input then err (make_error (codes "empty clause")) else do
    (key_end, operator, op_len) ← find_operator input
    key ← parse_key (trim (take key_end input))
    value ← parse_value input (trim (drop (key_end + op_len) input))
    ok (record { key = key; operator = operator; value = value })

  unfoldable pub parse_clause : Text → Result Clause
  unfolding parse_trimmed
  parse_clause input = parse_trimmed (trim input)

  unfoldable pub parse_clauses : List Text → Result (List Clause)
  parse_clauses [] = ok []
  parse_clauses (part ∷ parts) = do
    clause ← parse_clause (trim part)
    clauses ← parse_clauses parts
    ok (clause ∷ clauses)

  unfoldable pub parse_condition : Text → Result ConditionExpr
  unfolding parse_clauses
  parse_condition input =
      let trimmed = trim input in
      if is_empty trimmed
      then ok (record { clauses = [] })
      else do clauses ← parse_clauses (split_and trimmed); ok (record { clauses = clauses })

unfoldable pub clause_holds : (Text → Text) → Clause → Bool
clause_holds resolve clause = elim clause.operator [
  | equal ↦ resolve clause.key == clause.value
  | not_equal ↦ not (resolve clause.key == clause.value)
]

-- The early return on no clauses is the empty conjunction.
unfoldable pub evaluate_condition : ConditionExpr → (Text → Text) → Bool
unfolding clause_holds
evaluate_condition expr resolve = elim expr.clauses [
  | [] ↦ true
  | clause ∷ clauses ↦ all (clause_holds resolve) (clause ∷ clauses)
]
