-- ===== src/Condition/Rendered.antt =====
-- Printing a condition, and how one printed clause parses.
use pascals_discrete_attract.Base.{
  ℕ, ◌+◌, Text, Bool, true, false, List, [], ◌∷◌, ◌++◌, ◌≡◌, refl, ap, arith, all, split, trim,
  is_empty, codes, length, take, drop, ◌&&◌, split, add_char,
}
use pascals_discrete_attract.Types.Errors.{ok}
use pascals_discrete_attract.Condition.{
  Clause, ConditionExpr, valid_segment, key_char, check_segments, parse_key, parse_value,
  parse_trimmed, parse_clause, find_operator,
}
use pascals_discrete_attract.Condition.Words.{
  trim-plain, symbol-plain, is_empty-append, take_key, drop_key, plain, key_plain, blank, symbol,
  all-append, trim-padded, key_plain-plain, strip_quotes-plain, scan-key, underscore-key_plain,
  dot-key_plain,
}

unfoldable pub render_clause : Clause → Text
render_clause c = c.key ++ (symbol c.operator ++ c.value)

unfoldable pub render_clauses : List Clause → Text
unfolding render_clause
render_clauses [] = []
render_clauses (c ∷ []) = render_clause c
render_clauses (c ∷ d ∷ cs) =
    (render_clause c ++ codes " ") ++ (b'&' ∷ b'&' ∷ (codes " " ++ render_clauses (d ∷ cs)))

-- The clauses joined by " && ".
unfoldable pub render : ConditionExpr → Text
unfolding render_clauses
render e = render_clauses e.clauses

-- `alnum_key_plain`: letters and digits are neither white space nor quotes, `&`, `=`, `!`.
module _ (alnum : ℕ → Bool) (alnum_key_plain : (c : ℕ) → alnum c ≡ true → key_plain c ≡ true) where
  -- A key that is accepted, and a nonempty value without white space, quotes and `&`.
  pub record IsPrintable (c : Clause) : Type 0 where
    pub key_nonempty : is_empty c.key ≡ false
    pub key_segments : all (valid_segment alnum) (split b'.' c.key) ≡ true
    pub value_nonempty : is_empty c.value ≡ false
    pub value_plain : all plain c.value ≡ true

  key_char-key_plain : (c : ℕ) → key_char alnum c ≡ true → key_plain c ≡ true
  key_char-key_plain c h = ground (arith, alnum_key_plain c, underscore-key_plain)

  all-add_char :
      (c : ℕ) (pieces : List Text)
      → all (all (key_char alnum)) (add_char c pieces)
        ≡ (key_char alnum c && all (all (key_char alnum)) pieces)
  unfolding add_char
  all-add_char c [] = ground arith
  all-add_char c (piece ∷ pieces) = ground arith

  pieces-key_plain :
      (key : Text) → all (all (key_char alnum)) (split b'.' key) ≡ true → all key_plain key ≡ true
  unfolding split
  pieces-key_plain [] h = refl
  pieces-key_plain (c ∷ key) h = ground (
    arith,
    all-add_char c (split b'.' key),
    key_char-key_plain c,
    pieces-key_plain key,
    dot-key_plain,
  )

  valid_segments-chars :
      (segs : List Text)
      → all (valid_segment alnum) segs ≡ true
      → all (all (key_char alnum)) segs ≡ true
  valid_segments-chars [] h = refl
  valid_segments-chars (seg ∷ segs) h = ground (arith, valid_segments-chars segs)

  segments-key_plain :
      (key : Text) → all (valid_segment alnum) (split b'.' key) ≡ true → all key_plain key ≡ true
  segments-key_plain key h = pieces-key_plain key (valid_segments-chars (split b'.' key) h)

  check_segments-ok :
      (segs : List Text) → all (valid_segment alnum) segs ≡ true → check_segments alnum segs ≡ ok tt
  unfolding check_segments
  check_segments-ok [] h = refl
  check_segments-ok (seg ∷ segs) h = ground (arith, check_segments-ok segs)

  pub rendered-plain : (c : Clause) → IsPrintable c → all plain (render_clause c) ≡ true
  unfolding render_clause
  rendered-plain c p = ground (
    arith,
    all-append plain c.key (symbol c.operator ++ c.value),
    all-append plain (symbol c.operator) c.value,
    symbol-plain c.operator,
    key_plain-plain c.key (segments-key_plain c.key p.key_segments),
  )

  pub rendered_nonempty : (c : Clause) → IsPrintable c → is_empty (render_clause c) ≡ false
  unfolding render_clause
  rendered_nonempty c p = is_empty-append c.key _ p.key_nonempty

  find_operator-rendered :
      (c : Clause)
      → IsPrintable c
      → find_operator (render_clause c) ≡ ok (length c.key, c.operator, length (symbol c.operator))
  unfolding find_operator render_clause
  find_operator-rendered c p =
      rw
        (
          scan-key c.key c.operator c.value 0 (segments-key_plain c.key p.key_segments),
          find_operator,
        )
        (ap (λ n. ok (n, c.operator, length (symbol c.operator))) (omega arith))

  parse_key-rendered : (c : Clause) → IsPrintable c → parse_key alnum c.key ≡ ok c.key
  unfolding parse_key
  parse_key-rendered c p = rw (p.key_nonempty, check_segments-ok (split b'.' c.key) p.key_segments)

  parse_value-rendered :
      (c : Clause) (input : Text) → IsPrintable c → parse_value alnum input c.value ≡ ok c.value
  unfolding parse_value
  parse_value-rendered c input p = rw (p.value_nonempty, strip_quotes-plain c.value p.value_plain)

  key_back : (c : Clause) → IsPrintable c → trim (take (length c.key) (render_clause c)) ≡ c.key
  unfolding render_clause
  key_back c p = rw (take_key c.key (symbol c.operator) c.value) (
      trim-plain c.key p.key_nonempty
        (key_plain-plain c.key (segments-key_plain c.key p.key_segments)))

  value_back :
      (c : Clause)
      → IsPrintable c
      → trim (drop (length c.key + length (symbol c.operator)) (render_clause c)) ≡ c.value
  unfolding render_clause
  value_back c p =
      rw (drop_key c.key (symbol c.operator) c.value)
        (trim-plain c.value p.value_nonempty p.value_plain)

  parse_rendered : (c : Clause) → IsPrintable c → parse_trimmed alnum (render_clause c) ≡ ok c
  unfolding parse_trimmed
  parse_rendered c p = rw (
    rendered_nonempty c p,
    find_operator-rendered c p,
    key_back c p,
    value_back c p,
    parse_key-rendered c p,
    parse_value-rendered c (render_clause c) p,
  )

  -- With white space round it.
  pub parse_padded :
      (c : Clause) (before after : Text)
      → IsPrintable c
      → blank before ≡ true
      → blank after ≡ true
      → parse_clause alnum (trim (before ++ (render_clause c ++ after))) ≡ ok c
  unfolding parse_clause
  parse_padded c before after p hb ha =
      let e = rendered_nonempty c p in
      let h = rendered-plain c p in
      rw (trim-padded before (render_clause c) after hb e h ha, trim-plain (render_clause c) e h)
        (parse_rendered c p)
