-- ===== src/Stylesheet/Parser.antt =====
-- The parser of crates/attractor-pipeline/src/stylesheet.rs.
use mathlib.Core.List.{reverse}
use pascals_discrete_attract.Base.{
  ℕ, zero, suc, Text, Bool, true, false, not, ◌||◌, List, [], ◌∷◌, codes, eqb, length, trim,
  is_ascii_alphanumeric, format, if◌then◌else◌,
}
use pascals_discrete_attract.Stylesheet.Scan.{
  Position, Parsed, parsed, failed, starved, ◌>>=◌, advance, error_at, found_text, skip,
}

pub data Selector : Type 0 where
  universal : Selector
  by_id : Text → Selector
  by_class : Text → Selector

pub record Declaration : Type 0 where
  pub property : Text
  pub value : Text

pub record Rule : Type 0 where
  pub selector : Selector
  pub declarations : List Declaration

expected : ℕ → Text → Text
unfolding found_text
expected c after =
    format (codes "expected '" ∷ (c ∷ []) ∷ codes "', found '" ∷ found_text after ∷ codes "'" ∷ [])

unfoldable pub expect_at : ℕ → Position → Text → Parsed (Unit {0})
unfolding expected
expect_at c p [] = failed (error_at p (expected c []))
expect_at c p (d ∷ s) =
    if eqb d c
    then parsed tt (record { before = d ∷ p.before; after = s })
    else failed (error_at p (expected c (d ∷ s)))

-- `expect`.
unfoldable pub expect : ℕ → Position → Parsed (Unit {0})
unfolding expect_at
expect c p = skip p >>= λ u q. expect_at c q q.after

unfoldable pub is_name_char : ℕ → Bool
is_name_char c = is_ascii_alphanumeric c || eqb c b'_' || eqb c b'-'

-- The longest run of characters that pass the test, latest first, and the position after it.
unfoldable pub take_run : (ℕ → Bool) → Text → Text → Text → Text × Position
take_run test run before [] = (run, record { before = before; after = [] })
take_run test run before (c ∷ s) = elim (test c) [
  | true ↦ take_run test (c ∷ run) (c ∷ before) s
  | false ↦ (run, record { before = before; after = c ∷ s })
]

unfoldable pub nonempty_run : Text × Position → Text → Parsed Text
nonempty_run ([], p) message = failed (error_at p message)
nonempty_run (c ∷ run, p) message = parsed (reverse (c ∷ run)) p

-- `parse_identifier`.
unfoldable pub parse_identifier : Position → Parsed Text
unfolding take_run nonempty_run is_name_char
parse_identifier p = skip p >>= λ u q.
    nonempty_run (take_run is_name_char [] q.before q.after) (codes "expected identifier")

unfoldable pub is_value_char : ℕ → Bool
is_value_char c = not (eqb c b';' || eqb c b'}')

unfoldable pub nonempty_value : Text → Position → Parsed Text
nonempty_value [] p = failed (error_at p (codes "expected property value"))
nonempty_value (c ∷ value) p = parsed (c ∷ value) p

-- `parse_value`.
unfoldable pub parse_value : Position → Parsed Text
unfolding take_run nonempty_value is_value_char
parse_value p = skip p >>= λ u q.
    let (run, r) = take_run is_value_char [] q.before q.after in
    nonempty_value (trim (reverse run)) r

-- `parse_declaration`.
unfoldable pub parse_declaration : Position → Parsed Declaration
parse_declaration p = parse_identifier p >>= λ property q. expect b':' q >>= λ u r.
    parse_value r >>= λ value s. parsed (record { property = property; value = value }) s

selector_error : Text → Text
unfolding found_text
selector_error after =
    format
      (codes "expected selector ('*', '#', or '.'), found '" ∷ found_text after ∷ codes "'" ∷ [])

unfoldable pub selector_at : Position → Text → Parsed Selector
unfolding selector_error
selector_at p [] = failed (error_at p (selector_error []))
selector_at p (c ∷ s) =
    if eqb c b'*'
    then parsed universal (advance c p.before s)
    else if eqb c b'#'
    then (parse_identifier (advance c p.before s) >>= λ id q. parsed (by_id id) q)
    else if eqb c b'.'
    then (parse_identifier (advance c p.before s) >>= λ class q. parsed (by_class class) q)
    else failed (error_at p (selector_error (c ∷ s)))

-- `parse_selector`.
unfoldable pub parse_selector : Position → Parsed Selector
unfolding selector_at
parse_selector p = skip p >>= λ u q. selector_at q q.after

-- The optional semicolon after a declaration.
unfoldable pub semicolon_at : Position → Text → Parsed (Unit {0})
semicolon_at p [] = parsed tt p
semicolon_at p (c ∷ s) = if eqb c b';' then parsed tt (advance c p.before s) else parsed tt p

unfoldable pub declaration_step : Position → Parsed Declaration
unfolding semicolon_at
declaration_step p =
    parse_declaration p >>= λ d q. skip q >>= λ u r. semicolon_at r r.after >>= λ v s. parsed d s

-- What the loop over declarations finds: the end of the body, the end of the input, or more.
pub data Body : Type 0 where
  body_end unexpected_end more : Body

unfoldable pub body_sight : Text → Body
body_sight [] = unexpected_end
body_sight (c ∷ s) = if eqb c b'}' then body_end else more

unfoldable pub past_first : Position → Text → Position
past_first p [] = p
past_first p (c ∷ s) = advance c p.before s

-- The loop of `parse_rule`.
unfoldable pub declarations_from : ℕ → Position → Parsed (List Declaration)
unfolding body_sight past_first declaration_step
declarations_from zero p = starved
declarations_from (suc fuel) p = skip p >>= λ u q. elim (body_sight q.after) [
  | body_end ↦ parsed [] (past_first q q.after)
  | unexpected_end ↦ failed (error_at q (codes "unexpected end of input in rule body"))
  | more ↦ declaration_step q >>= λ d r. declarations_from fuel r >>= λ ds t. parsed (d ∷ ds) t
]

-- `parse_rule`.
unfoldable pub parse_rule : ℕ → Position → Parsed Rule
unfolding declarations_from
parse_rule fuel p = parse_selector p >>= λ selector q. expect b'{' q >>= λ u r.
    declarations_from fuel r >>= λ ds t.
    parsed (record { selector = selector; declarations = ds }) t

-- The loop of `parse_stylesheet`; its own fuel also bounds the loop over declarations.
unfoldable pub rules_from : ℕ → Position → Parsed (List Rule)
rules_from zero p = starved
rules_from (suc fuel) p = skip p >>= λ u q. elim q.after [
  | [] ↦ parsed [] q
  | c ∷ s ↦
      parse_rule (suc fuel) q >>= λ rule r. rules_from fuel r >>= λ rules t. parsed (rule ∷ rules) t
]

unfoldable pub nonempty_rules : List Rule → Position → Parsed (List Rule)
nonempty_rules [] p = failed (error_at p (codes "stylesheet must contain at least one rule"))
nonempty_rules (r ∷ rules) p = parsed (r ∷ rules) p

-- `parse_stylesheet`; each turn of a loop takes a character, so the length of the input and one
-- more is fuel enough.
unfoldable pub parse_stylesheet : Text → Parsed (List Rule)
unfolding rules_from nonempty_rules
parse_stylesheet input =
    rules_from (suc (length input)) (record { before = []; after = input }) >>= nonempty_rules
