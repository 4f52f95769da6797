-- ===== src/Condition/Roundtrip.antt =====
-- Printing a condition and parsing it again.
use pascals_discrete_attract.Base.{
  ℕ, Text, Bool, true, false, List, [], ◌∷◌, ◌++◌, ◌≡◌, refl, subst, is_whitespace, sym, ap, ◌∙◌,
  arith, all, All, trim, trim_start, trim_end, is_empty, codes, append_assoc, append-nil,
}
use pascals_discrete_attract.Types.Errors.{ok}
use pascals_discrete_attract.Condition.{
  Clause, ConditionExpr, parse_clause, parse_clauses, parse_condition, split_and,
}
use pascals_discrete_attract.Condition.Words.{
  key_plain, blank, no_and, all-append, split_and-whole, split_and-first, plain-no_and,
  trim_end-append, trim_end-plain, trim_start-plain, is_empty-append,
}
use pascals_discrete_attract.Condition.Rendered.{
  render_clause, render_clauses, render, IsPrintable, rendered-plain, rendered_nonempty,
  parse_padded,
}

space-blank : blank (codes " ") ≡ true
unfolding is_whitespace
space-blank = refl

module _ (alnum : ℕ → Bool) (alnum_key_plain : (c : ℕ) → alnum c ≡ true → key_plain c ≡ true) where
  abbrev Printable : Clause → Type 0
  Printable = IsPrintable alnum alnum_key_plain

  padded-no_and :
      (c : Clause) (before after : Text)
      → Printable c
      → all no_and before ≡ true
      → all no_and after ≡ true
      → all no_and (before ++ (render_clause c ++ after)) ≡ true
  padded-no_and c before after p hb ha = ground (
    arith,
    all-append no_and before (render_clause c ++ after),
    all-append no_and (render_clause c) after,
    plain-no_and (render_clause c) (rendered-plain alnum alnum_key_plain c p),
  )

  parse_pieces :
      (before : Text) (c : Clause) (cs : List Clause)
      → blank before ≡ true
      → all no_and before ≡ true
      → All Printable (c ∷ cs)
      → parse_clauses alnum (split_and (before ++ render_clauses (c ∷ cs))) ≡ ok (c ∷ cs)
  unfolding render_clauses parse_clauses
  parse_pieces before c [] hb nb p = rw (
    split_and-whole _ (
        subst (λ t. all no_and (before ++ t) ≡ true) (append-nil (render_clause c))
          (padded-no_and c before [] p.0 nb refl)),
    subst (λ t. parse_clause alnum (trim (before ++ t)) ≡ ok c) (append-nil (render_clause c))
        (parse_padded alnum alnum_key_plain c before [] p.0 hb refl),
  )
  parse_pieces before c (d ∷ cs) hb nb p = rw (
    ← append_assoc before (render_clause c ++ codes " ") _,
    split_and-first _ _ (padded-no_and c before (codes " ") p.0 nb refl),
    parse_padded alnum alnum_key_plain c before (codes " ") p.0 hb space-blank,
    parse_pieces (codes " ") d cs space-blank refl p.1,
  )

  rendered_clauses_nonempty :
      (c : Clause) (cs : List Clause)
      → All Printable (c ∷ cs)
      → is_empty (render_clauses (c ∷ cs)) ≡ false
  unfolding render_clauses
  rendered_clauses_nonempty c [] p = rendered_nonempty alnum alnum_key_plain c p.0
  rendered_clauses_nonempty c (d ∷ cs) p =
      is_empty-append _ _ (is_empty-append _ _ (rendered_nonempty alnum alnum_key_plain c p.0))

  trim_end-rendered :
      (c : Clause) (cs : List Clause)
      → All Printable (c ∷ cs)
      → trim_end (render_clauses (c ∷ cs)) ≡ render_clauses (c ∷ cs)
  unfolding render_clauses
  trim_end-rendered c [] p =
      ap trim_end (sym (append-nil (render_clause c)))
      ∙ trim_end-plain (render_clause c) [] (rendered-plain alnum alnum_key_plain c p.0) refl
  trim_end-rendered c (d ∷ cs) p =
      trim_end-append (render_clause c ++ codes " ")
        (b'&' ∷ b'&' ∷ (codes " " ++ render_clauses (d ∷ cs))) refl
        (trim_end-append (b'&' ∷ b'&' ∷ codes " ") (render_clauses (d ∷ cs))
          (rendered_clauses_nonempty d cs p.1) (trim_end-rendered d cs p.1))

  trim_start-rendered :
      (c : Clause) (cs : List Clause)
      → All Printable (c ∷ cs)
      → trim_start (render_clauses (c ∷ cs)) ≡ render_clauses (c ∷ cs)
  unfolding render_clauses
  trim_start-rendered c [] p =
      subst (λ t. trim_start t ≡ t) (append-nil (render_clause c))
        (trim_start-plain (render_clause c) [] (rendered_nonempty alnum alnum_key_plain c p.0)
          (rendered-plain alnum alnum_key_plain c p.0))
  trim_start-rendered c (d ∷ cs) p =
      subst (λ t. trim_start t ≡ t) (sym (append_assoc (render_clause c) (codes " ") _))
        (trim_start-plain (render_clause c) _ (rendered_nonempty alnum alnum_key_plain c p.0)
          (rendered-plain alnum alnum_key_plain c p.0))

  trim-rendered :
      (c : Clause) (cs : List Clause)
      → All Printable (c ∷ cs)
      → trim (render_clauses (c ∷ cs)) ≡ render_clauses (c ∷ cs)
  unfolding trim
  trim-rendered c cs p = rw (trim_start-rendered c cs p) (trim_end-rendered c cs p)

  parse_rendered_clauses :
      (cs : List Clause)
      → All Printable cs
      → parse_condition alnum (render_clauses cs) ≡ ok (record { clauses = cs })
  unfolding parse_condition
  parse_rendered_clauses [] p = unfold render_clauses trim in refl
  parse_rendered_clauses (c ∷ cs) p =
      rw (trim-rendered c cs p, rendered_clauses_nonempty c cs p, parse_pieces [] c cs refl refl p)

  -- Printing a condition and parsing the text gives the condition back. Each clause has an
  -- accepted key, and a nonempty value without white space, quotes and `&`; letters and digits
  -- are neither white space nor quotes, `&`, `=`, `!`.
  pub parse_condition-render :
      (e : ConditionExpr)
      → All (IsPrintable alnum alnum_key_plain) e.clauses
      → parse_condition alnum (render e) ≡ ok e
  unfolding render
  parse_condition-render e p = parse_rendered_clauses e.clauses p
