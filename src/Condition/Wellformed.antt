-- ===== src/Condition/Wellformed.antt =====
-- What a condition that parses looks like.
use pascals_discrete_attract.Base.{
  ℕ, Text, Bool, true, false, List, [], ◌∷◌, ◌≡◌, refl, arith, all, split, All, is_empty,
  Bool-cases, inl, inr, trim, take, drop, ◌+◌,
}
use pascals_discrete_attract.Types.Errors.{ok, Ensures, Ensures-bind, Ensures-ok, Ensures-if}
use pascals_discrete_attract.Condition.{
  Clause, ConditionExpr, valid_segment, check_segments, parse_key, parse_value, parse_trimmed,
  parse_clause, parse_clauses, parse_condition, split_and, find_operator,
}

module _ (alnum : ℕ → Bool) where
  -- A nonempty key of dot-separated segments, each nonempty and of letters, digits and `_`.
  abbrev pub IsValidKey : Text → Type 0
  IsValidKey key = (is_empty key ≡ false) × (all (valid_segment alnum) (split b'.' key) ≡ true)

  check_segments-all :
      (segs : List Text) → check_segments alnum segs ≡ ok tt → all (valid_segment alnum) segs ≡ true
  unfolding check_segments
  check_segments-all [] h = refl
  check_segments-all (seg ∷ segs) h = elim (Bool-cases (valid_segment alnum seg)) [
    | inl p ↦ rw p (check_segments-all segs (rw p at h))
    | inr p ↦ ground (arith, p)
  ]

  pub parse_key-IsValidKey :
      (text : Text) {key : Text} → parse_key alnum text ≡ ok key → IsValidKey key
  unfolding parse_key
  parse_key-IsValidKey text {key} h = ground (arith, check_segments-all (split b'.' text))

  abbrev pub IsValidClause : Clause → Type 0
  IsValidClause c = IsValidKey c.key

  parse_trimmed-IsValidClause : (input : Text) → Ensures IsValidClause (parse_trimmed alnum input)
  unfolding parse_trimmed
  parse_trimmed-IsValidClause input =
      Ensures-if IsValidClause (is_empty input) _ _ (λ _. tt)
        λ _. Ensures-bind IsValidClause (find_operator input) _ λ found _.
          Ensures-bind IsValidClause (parse_key alnum (trim (take found.0 input))) _ λ key parsed.
            Ensures-bind IsValidClause
              (parse_value alnum input (trim (drop (found.0 + found.2) input))) _
              λ value _. parse_key-IsValidKey _ parsed

  parse_clauses-IsValidClause :
      (parts : List Text) → Ensures (All IsValidClause) (parse_clauses alnum parts)
  unfolding parse_clauses parse_clause
  parse_clauses-IsValidClause [] = tt
  parse_clauses-IsValidClause (part ∷ parts) =
      Ensures-bind (All IsValidClause) (parse_clause alnum (trim part)) _ λ c parsed.
        Ensures-bind (All IsValidClause) (parse_clauses alnum parts) _ λ cs parsed_rest. (
          Ensures-ok IsValidClause _ c parsed (parse_trimmed-IsValidClause (trim (trim part))),
          Ensures-ok (All IsValidClause) _ cs parsed_rest (parse_clauses-IsValidClause parts),
        )

  -- Whatever the text, if it parses then every clause has a nonempty key of dot-separated
  -- nonempty segments of letters, digits and `_`.
  pub parse_condition-IsValidKey :
      (input : Text) (e : ConditionExpr)
      → parse_condition alnum input ≡ ok e
      → All IsValidClause e.clauses
  unfolding parse_condition
  parse_condition-IsValidKey input e h =
      Ensures-ok (λ (e : ConditionExpr). All IsValidClause e.clauses) _ e h
        (Ensures-if (λ (e : ConditionExpr). All IsValidClause e.clauses) (is_empty (trim input)) _ _
          (λ _. tt)
          λ _.
            Ensures-bind (λ (e : ConditionExpr). All IsValidClause e.clauses)
              (parse_clauses alnum (split_and (trim input))) _
              λ cs parsed.
                Ensures-ok (All IsValidClause) _ cs parsed (parse_clauses-IsValidClause _))
