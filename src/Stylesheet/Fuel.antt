-- ===== src/Stylesheet/Fuel.antt =====
-- The fuel of the parser of crates/attractor-pipeline/src/stylesheet.rs.
use pascals_discrete_attract.Base.{
  ℕ, zero, suc, ◌+◌, ◌≤◌, ◌<◌, ◌≡◌, ◌≢◌, refl, ap, Text, Bool, true, false, List, [], ◌∷◌, eqb,
  length, arith, Bool-cases, inl, inr,
}
use pascals_discrete_attract.Stylesheet.Scan.{
  Position, Parsed, parsed, failed, panicked, starved, ◌>>=◌, advance, skip, skip_from, Mode,
  outside, line, block, space, line_comment, block_comment, comment_end, cut, sight, block_sight,
  last_sight, stay,
}
use pascals_discrete_attract.Stylesheet.Parser.{
  Rule, Body, body_end, unexpected_end, more, expect, expect_at, take_run, nonempty_run,
  is_name_char, is_value_char, nonempty_value, parse_identifier, parse_value, parse_declaration,
  selector_at, parse_selector, semicolon_at, declaration_step, body_sight, past_first,
  declarations_from, parse_rule, rules_from, nonempty_rules, parse_stylesheet,
}

-- The fuel sufficed, and at most `k` characters are left after a value.
abbrev pub Within : {A : Type 0} → ℕ → Parsed A → Type 0
Within k (parsed a p) = length p.after ≤ k
Within k (failed e) = Unit
Within k panicked = Unit
Within k starved = ⊥

Within-bind :
    {A B : Type 0} (j k : ℕ) (m : Parsed A) (f : A → Position → Parsed B)
    → Within j m
    → ((a : A) (q : Position) → length q.after ≤ j → Within k (f a q))
    → Within k (m >>= f)
unfolding ◌>>=◌
Within-bind j k (parsed a p) f h next = next a p h
Within-bind j k (failed e) f h next = tt
Within-bind j k panicked f h next = tt
Within-bind j k starved f h next = absurd h

skip_from-Within :
    (mode : Mode) (before after : Text) (k : ℕ)
    → length after ≤ k
    → Within k (skip_from mode before after)
unfolding skip_from
skip_from-Within outside before [] k h = h
skip_from-Within outside before (c ∷ []) k h =
    elim (sight c [])
      as (λ s.
        Within k
          (elim s [ space ↦ skip_from outside (c ∷ before) [] | _ ↦ stay before (c ∷ []) ])) [
            | space ↦ skip_from-Within outside (c ∷ before) [] k (omega arith)
            | _ ↦ h
          ]
skip_from-Within outside before (c ∷ d ∷ s) k h =
    elim (sight c (d ∷ s))
      as (λ o. Within k (elim o [
        | space ↦ skip_from outside (c ∷ before) (d ∷ s)
        | line_comment ↦ skip_from line (d ∷ c ∷ before) s
        | block_comment ↦ skip_from block (d ∷ c ∷ before) s
        | _ ↦ stay before (c ∷ d ∷ s)
      ])) [
        | space ↦ skip_from-Within outside (c ∷ before) (d ∷ s) k (omega arith)
        | line_comment ↦ skip_from-Within line (d ∷ c ∷ before) s k (omega arith)
        | block_comment ↦ skip_from-Within block (d ∷ c ∷ before) s k (omega arith)
        | _ ↦ h
      ]
skip_from-Within line before [] k h = h
skip_from-Within line before (c ∷ s) k h =
    elim (eqb c b'\n')
      as (λ b. Within k (elim b [
        | true ↦ skip_from outside (c ∷ before) s
        | false ↦ skip_from line (c ∷ before) s
      ])) [
        | true ↦ skip_from-Within outside (c ∷ before) s k (omega arith)
        | false ↦ skip_from-Within line (c ∷ before) s k (omega arith)
      ]
skip_from-Within block before [] k h = h
skip_from-Within block before (c ∷ []) k h =
    elim (last_sight c)
      as (λ o. Within k (elim o [
        | cut ↦ panicked
        | space ↦ skip_from outside (c ∷ before) []
        | _ ↦ stay before (c ∷ [])
      ])) [ cut ↦ tt | space ↦ skip_from-Within outside (c ∷ before) [] k (omega arith) | _ ↦ h ]
skip_from-Within block before (c ∷ d ∷ s) k h =
    elim (block_sight c d)
      as (λ o. Within k (elim o [
        | cut ↦ panicked
        | comment_end ↦ skip_from outside (d ∷ c ∷ before) s
        | _ ↦ skip_from block (c ∷ before) (d ∷ s)
      ])) [
        | cut ↦ tt
        | comment_end ↦ skip_from-Within outside (d ∷ c ∷ before) s k (omega arith)
        | _ ↦ skip_from-Within block (c ∷ before) (d ∷ s) k (omega arith)
      ]

skip-Within : (p : Position) (k : ℕ) → length p.after ≤ k → Within k (skip p)
unfolding skip
skip-Within p k h = skip_from-Within outside p.before p.after k h

expect_at-Within :
    (c : ℕ) (p : Position) (after : Text) (k : ℕ)
    → length after ≤ k
    → Within k (expect_at c p after)
unfolding expect_at
expect_at-Within c p [] k h = tt
expect_at-Within c p (d ∷ s) k h = elim (Bool-cases (eqb d c)) [
  | inl e ↦ rw e (omega arith)
  | inr e ↦ rw e tt
]

expect-Within : (c : ℕ) (p : Position) (k : ℕ) → length p.after ≤ k → Within k (expect c p)
unfolding expect
expect-Within c p k h =
    Within-bind k k _ _ (skip-Within p k h) λ u q l. expect_at-Within c q q.after k l

-- A run leaves the rest of the text, and less of it where it is not empty.
take_run-length :
    (test : ℕ → Bool) (run before after : Text)
    → length (take_run test run before after).0 + length (take_run test run before after).1.after
      ≡ length run + length after
unfolding take_run
take_run-length test run before [] = omega arith
take_run-length test run before (c ∷ s) =
    elim (test c)
      as (λ b.
        let r : Text × Position = elim b [
          | true ↦ take_run test (c ∷ run) (c ∷ before) s
          | false ↦ (run, record { before = before; after = c ∷ s })
        ] in
        length r.0 + length r.1.after ≡ length run + suc (length s)) [
          | true ↦ omega (arith, take_run-length test (c ∷ run) (c ∷ before) s)
          | false ↦ refl
        ]

nonempty_run-Within :
    (found : Text × Position) (message : Text) (k : ℕ)
    → length found.0 + length found.1.after ≤ suc k
    → Within k (nonempty_run found message)
unfolding nonempty_run
nonempty_run-Within ([], p) message k h = tt
nonempty_run-Within (c ∷ run, p) message k h = omega arith

identifier-Within : (p : Position) (k : ℕ) → length p.after ≤ suc k → Within k (parse_identifier p)
unfolding parse_identifier
identifier-Within p k h = Within-bind (suc k) k _ _ (skip-Within p (suc k) h) λ u q l.
    nonempty_run-Within (take_run is_name_char [] q.before q.after) _ k
      (omega (arith, take_run-length is_name_char [] q.before q.after))

nonempty_value-Within :
    (value : Text) (p : Position) (k : ℕ) → length p.after ≤ k → Within k (nonempty_value value p)
unfolding nonempty_value
nonempty_value-Within [] p k h = tt
nonempty_value-Within (c ∷ value) p k h = h

value-Within : (p : Position) (k : ℕ) → length p.after ≤ k → Within k (parse_value p)
unfolding parse_value
value-Within p k h = Within-bind k k _ _ (skip-Within p k h) λ u q l.
    nonempty_value-Within _ (take_run is_value_char [] q.before q.after).1 k
      (omega (arith, take_run-length is_value_char [] q.before q.after))

declaration-Within :
    (p : Position) (k : ℕ) → length p.after ≤ suc k → Within k (parse_declaration p)
unfolding parse_declaration
declaration-Within p k h = Within-bind k k _ _ (identifier-Within p k h) λ property q l.
    Within-bind k k _ _ (expect-Within b':' q k l)
      λ u r m. Within-bind k k _ _ (value-Within r k m) λ value s n. n

semicolon_at-Within :
    (p : Position) (after : Text) (k : ℕ)
    → length p.after ≤ k
    → length after ≤ k
    → Within k (semicolon_at p after)
unfolding semicolon_at
semicolon_at-Within p [] k h l = h
semicolon_at-Within p (c ∷ s) k h l = elim (Bool-cases (eqb c b';')) [
  | inl e ↦ rw e (omega arith)
  | inr e ↦ rw e h
]

declaration_step-Within :
    (p : Position) (k : ℕ) → length p.after ≤ suc k → Within k (declaration_step p)
unfolding declaration_step
declaration_step-Within p k h = Within-bind k k _ _ (declaration-Within p k h) λ d q l.
    Within-bind k k _ _ (skip-Within q k l)
      λ u r m. Within-bind k k _ _ (semicolon_at-Within r r.after k m m) λ v s n. n

past_first-length :
    (p : Position) (after : Text) (k : ℕ)
    → length p.after ≤ k
    → length after ≤ k
    → length (past_first p after).after ≤ k
unfolding past_first
past_first-length p [] k h l = h
past_first-length p (c ∷ s) k h l = omega arith

-- The loop is in a body that goes on only where a character is left.
more-length : (after : Text) → body_sight after ≡ more → (m : ℕ) × (length after ≡ suc m)
unfolding body_sight
more-length [] e = cc
more-length (c ∷ s) e = (length s, refl)

Body-step :
    {A : Type 0} (k : ℕ) (b : Body) (x y z : Parsed A)
    → Within k x
    → Within k y
    → (b ≡ more → Within k z)
    → Within k (elim b [ body_end ↦ x | unexpected_end ↦ y | more ↦ z ])
Body-step k body_end x y z h l m = h
Body-step k unexpected_end x y z h l m = l
Body-step k more x y z h l m = m refl

declarations-Within :
    (fuel : ℕ) (p : Position) (k : ℕ)
    → length p.after < fuel
    → length p.after ≤ k
    → Within k (declarations_from fuel p)
unfolding declarations_from
declarations-Within zero p k f h = absurd (omega arith)
declarations-Within (suc fuel) p k f h =
    Within-bind (length p.after) k _ _ (skip-Within p (length p.after) (omega arith)) λ u q l.
      Body-step k (body_sight q.after) _ _ _
        (past_first-length q q.after k (omega arith) (omega arith)) tt
        λ e.
          let (m, size) = more-length q.after e in
          Within-bind m k _ _ (declaration_step-Within q m (omega arith)) λ d r n.
            Within-bind k k _ _ (declarations-Within fuel r k (omega arith) (omega arith))
              λ ds t o. o

selector_at-Within :
    (p : Position) (after : Text) (k : ℕ) → length after ≤ suc k → Within k (selector_at p after)
unfolding selector_at
selector_at-Within p [] k h = tt
selector_at-Within p (c ∷ s) k h = elim (Bool-cases (eqb c b'*')) [
  | inl e ↦ rw e (omega arith)
  | inr e ↦ rw e (elim (Bool-cases (eqb c b'#')) [
    | inl e' ↦
        rw e' (
          Within-bind k k _ _ (identifier-Within (advance c p.before s) k (omega arith))
            λ id q l. l)
    | inr e' ↦ rw e' (elim (Bool-cases (eqb c b'.')) [
      | inl e'' ↦ rw e'' (
          Within-bind k k _ _ (identifier-Within (advance c p.before s) k (omega arith))
            λ id q l. l)
      | inr e'' ↦ rw e'' tt
    ])
  ])
]

rule-Within :
    (fuel : ℕ) (p : Position) (k : ℕ)
    → k < fuel
    → length p.after ≤ suc k
    → Within k (parse_rule fuel p)
unfolding parse_rule parse_selector
rule-Within fuel p k f h =
    Within-bind k k _ _
      (Within-bind (suc k) k _ _ (skip-Within p (suc k) h)
        λ u q l. selector_at-Within q q.after k l)
      λ selector q l.
        Within-bind k k _ _ (expect-Within b'{' q k l)
          λ u r m. Within-bind k k _ _ (declarations-Within fuel r k (omega arith) m) λ ds t n. n

-- The loop over rules, at a text with a character left.
rules_step-Within :
    (fuel : ℕ) (q : Position) (k : ℕ) (after : Text)
    → q.after ≡ after
    → length q.after ≤ fuel
    → length q.after ≤ k
    → ((r : Position) → length r.after < fuel → length r.after ≤ k → Within k (rules_from fuel r))
    → Within k (elim after [
      | [] ↦ parsed [] q
      | c ∷ s ↦ parse_rule (suc fuel) q >>= λ rule r.
          rules_from fuel r >>= λ rules t. parsed (rule ∷ rules) t
    ])
rules_step-Within fuel q k [] e f h next = h
rules_step-Within fuel q k (c ∷ s) e f h next =
    Within-bind (length s) k _ _
      (rule-Within (suc fuel) q (length s) (omega (arith, size)) (omega (arith, size)))
      λ rule r l.
        Within-bind k k _ _ (next r (omega (arith, size)) (omega (arith, size))) λ rules t m. m
  where
    size : length q.after ≡ suc (length s)
    size = ap length e

rules-Within :
    (fuel : ℕ) (p : Position) (k : ℕ)
    → length p.after < fuel
    → length p.after ≤ k
    → Within k (rules_from fuel p)
unfolding rules_from
rules-Within zero p k f h = absurd (omega arith)
rules-Within (suc fuel) p k f h =
    Within-bind (length p.after) k _ _ (skip-Within p (length p.after) (omega arith)) λ u q l.
      rules_step-Within fuel q k q.after refl (omega arith) (omega arith)
        λ r g i. rules-Within fuel r k g i

nonempty_rules-Within :
    (rules : List Rule) (p : Position) (k : ℕ)
    → length p.after ≤ k
    → Within k (nonempty_rules rules p)
unfolding nonempty_rules
nonempty_rules-Within [] p k h = tt
nonempty_rules-Within (r ∷ rules) p k h = h

Within-ends : {A : Type 0} (k : ℕ) (r : Parsed A) → Within k r → r ≢ starved
Within-ends k (parsed a p) h e = cc
Within-ends k (failed error) h e = cc
Within-ends k panicked h e = cc
Within-ends k starved h e = h

-- On every text the parser of stylesheets ends within its fuel.
pub parse_stylesheet-ends : (input : Text) → parse_stylesheet input ≢ starved
unfolding parse_stylesheet
parse_stylesheet-ends input = Within-ends (length input) _ (
    Within-bind (length input) (length input) _ nonempty_rules
      (rules-Within (suc (length input)) (record { before = []; after = input }) (length input)
        (omega arith) (omega arith))
      λ rules p h. nonempty_rules-Within rules p (length input) h)
