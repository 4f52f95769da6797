-- ===== src/Stylesheet/Layers.antt =====
-- The order in which the rules of a stylesheet apply (crates/attractor-pipeline/src/stylesheet.rs).
use pascals_discrete_attract.Base.{
  ℕ, ◌<◌, ◌≤◌, Ordering, compare, Bool, true, List, [], ◌∷◌, ◌++◌, ◌≡◌, refl, sym, ap, ◌∙◌, subst,
  eqb, keep, All, insert_with, sort_with, Bool-cases, inl, inr, ◌⊎◌, arith,
}
use pascals_discrete_attract.Stylesheet.{specificity}
use pascals_discrete_attract.Stylesheet.Parser.{Selector, universal, by_id, by_class, Rule}

abbrev pub by_rank : Rule → Rule → Ordering
by_rank a b = compare (specificity a.selector) (specificity b.selector)

abbrev has_rank : ℕ → Rule → Bool
has_rank k r = eqb (specificity r.selector) k

-- The rules of each specificity, one level after the other, each in the order of the file.
pub layers : List Rule → List Rule
layers rules = keep (has_rank 0) rules ++ (keep (has_rank 1) rules ++ keep (has_rank 2) rules)

insert_before :
    (r : Rule) (rules : List Rule)
    → All (λ (x : Rule). specificity r.selector ≤ specificity x.selector) rules
    → insert_with by_rank r rules ≡ r ∷ rules
unfolding insert_with
insert_before r [] h = refl
insert_before r (x ∷ rules) h = ground (arith, h.0)

insert_past :
    (r : Rule) (low high : List Rule)
    → All (λ (x : Rule). specificity x.selector < specificity r.selector) low
    → insert_with by_rank r (low ++ high) ≡ low ++ insert_with by_rank r high
unfolding insert_with
insert_past r [] high h = refl
insert_past r (x ∷ low) high h = ground (arith, h.0, insert_past r low high h.1)

keep-rank :
    (P : ℕ → Type 0) (k : ℕ) (rules : List Rule)
    → P k
    → All (λ (x : Rule). P (specificity x.selector)) (keep (has_rank k) rules)
keep-rank P k [] p = tt
keep-rank P k (x ∷ rules) p = elim (Bool-cases (has_rank k x)) [
  | inl e ↦ rw e (subst P (sym (same (specificity x.selector) k e)) p, keep-rank P k rules p)
  | inr e ↦ rw e (keep-rank P k rules p)
]
  where
    same : (a b : ℕ) → eqb a b ≡ true → a ≡ b
    same a b e = ground arith

All-every : (P : Rule → Type 0) → ((x : Rule) → P x) → (rules : List Rule) → All P rules
All-every P h [] = tt
All-every P h (x ∷ rules) = (h x, All-every P h rules)

All-append : (P : Rule → Type 0) (xs ys : List Rule) → All P xs → All P ys → All P (xs ++ ys)
All-append P [] ys h k = k
All-append P (x ∷ xs) ys h k = (h.0, All-append P xs ys h.1 k)

specificity-cases :
    (s : Selector) → (specificity s ≡ 0) ⊎ ((specificity s ≡ 1) ⊎ (specificity s ≡ 2))
unfolding specificity
specificity-cases universal = inl refl
specificity-cases (by_class class) = inr (inl refl)
specificity-cases (by_id id) = inr (inr refl)

at_least :
    (m k : ℕ) (rules : List Rule)
    → m ≤ k
    → All (λ (x : Rule). m ≤ specificity x.selector) (keep (has_rank k) rules)
at_least m k rules h = keep-rank (λ j. m ≤ j) k rules h

below :
    (m k : ℕ) (rules : List Rule)
    → k < m
    → All (λ (x : Rule). specificity x.selector < m) (keep (has_rank k) rules)
below m k rules h = keep-rank (λ j. j < m) k rules h

insert-layers :
    (r : Rule) (rules : List Rule) → insert_with by_rank r (layers rules) ≡ layers (r ∷ rules)
unfolding layers
insert-layers r rules = elim (specificity-cases r.selector) [
  | inl e ↦
      insert_before r (layers rules) (All-every _ (λ x. omega (arith, e)) (layers rules))
      ∙ rw e refl
  | inr (inl e) ↦
      insert_past r (keep (has_rank 0) rules) _
        (below (specificity r.selector) 0 rules (omega (arith, e)))
      ∙ ap (λ l. keep (has_rank 0) rules ++ l)
          (insert_before r _ (
            All-append _ (keep (has_rank 1) rules) _
              (at_least (specificity r.selector) 1 rules (omega (arith, e)))
              (at_least (specificity r.selector) 2 rules (omega (arith, e)))))
      ∙ rw e refl
  | inr (inr e) ↦
      insert_past r (keep (has_rank 0) rules) _
        (below (specificity r.selector) 0 rules (omega (arith, e)))
      ∙ ap (λ l. keep (has_rank 0) rules ++ l)
          (insert_past r (keep (has_rank 1) rules) _
              (below (specificity r.selector) 1 rules (omega (arith, e)))
            ∙ ap (λ l. keep (has_rank 1) rules ++ l)
                (insert_before r _ (at_least (specificity r.selector) 2 rules (omega (arith, e)))))
      ∙ rw e refl
]

-- The stable sort by specificity gives the levels one after the other.
pub sort-layers : (rules : List Rule) → sort_with by_rank rules ≡ layers rules
unfolding sort_with layers
sort-layers [] = refl
sort-layers (r ∷ rules) = ap (insert_with by_rank r) (sort-layers rules) ∙ insert-layers r rules
