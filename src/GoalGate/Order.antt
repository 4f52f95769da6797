-- ===== src/GoalGate/Order.antt =====
-- The order in which the outcomes are visited, which is that of a `HashMap`
-- (crates/attractor-pipeline/src/goal_gate.rs).
use mathlib.Core.List.{Perm}
use mathlib.Core.List.Permᴰ.{Permᴰ}
use mathlib.Core.Logic.{∥∥₁_elim}
use pascals_discrete_attract.Base.{
  ◌≤◌, Text, Map, Bool, true, false, List, [], ◌∷◌, none, some, keep, length, ◌≡◌, refl, ◌∙◌, ap,
  sym, subst, inl, inr, arith, Bool-cases, if◌then◌else◌,
}
use pascals_discrete_attract.Types.{Outcome}
use pascals_discrete_attract.Types.Errors.{Result}
use pascals_discrete_attract.Graph.{PipelineGraph, node}
use pascals_discrete_attract.GoalGate.{
  GoalGateResult, is_failed_gate, check_goal_gates, enforce_goal_gates, target_of, judge,
}

abbrev is_unsatisfied : PipelineGraph → Text × Outcome → Bool
is_unsatisfied graph (id, outcome) = is_failed_gate graph id outcome

-- The visited gates that are not satisfied.
unfoldable pub unsatisfied : PipelineGraph → Map Outcome → Map Outcome
unsatisfied graph outcomes = keep (is_unsatisfied graph) outcomes

first_result : PipelineGraph → Map Outcome → GoalGateResult
first_result graph [] = record { all_satisfied = true; failed_node_id = none; retry_target = none }
first_result graph ((id, outcome) ∷ rest) = record {
  all_satisfied = false;
  failed_node_id = some id;
  retry_target = target_of (node graph id) graph;
}

check_goal_gates-first :
    (graph : PipelineGraph) (outcomes : Map Outcome)
    → check_goal_gates graph outcomes ≡ first_result graph (unsatisfied graph outcomes)
unfolding check_goal_gates first_result unsatisfied
check_goal_gates-first graph [] = refl
check_goal_gates-first graph ((id, outcome) ∷ rest) =
    elim (Bool-cases (is_failed_gate graph id outcome)) [
      | inl p ↦ rw p refl
      | inr p ↦ rw p (check_goal_gates-first graph rest)
    ]

module _ {A : Type 0} (p : A → Bool) where
  kept : Bool → A → List A → List A
  kept b a xs = if b then a ∷ xs else xs

  kept-same :
      (b : Bool) (a a' : A) (xs ys : List A)
      → a ≡ a'
      → (length xs ≤ 1 → xs ≡ ys)
      → length (kept b a xs) ≤ 1
      → kept b a xs ≡ kept b a' ys
  unfolding kept
  kept-same true a a' xs ys e next one = rw (e, next (omega (arith, one))) refl
  kept-same false a a' xs ys e next one = next one

  -- Two neighbours of which one at most is kept may change places.
  kept-swap :
      (b c : Bool) (a d : A) (xs : List A)
      → length (kept b a (kept c d xs)) ≤ 1
      → kept b a (kept c d xs) ≡ kept c d (kept b a xs)
  unfolding kept
  kept-swap true true a d xs one = ground arith
  kept-swap true false a d xs one = refl
  kept-swap false c a d xs one = refl

  keep-Permᴰ : {xs ys : List A} → Permᴰ xs ys → length (keep p xs) ≤ 1 → keep p xs ≡ keep p ys
  unfolding kept
  keep-Permᴰ Permᴰ.nil one = refl
  keep-Permᴰ (Permᴰ.cons {a = a} {b = b} {l₂ = m} e h) one =
      kept-same (p a) a b _ _ e (keep-Permᴰ h) one ∙ ap (λ c. kept c b (keep p m)) (ap p e)
  keep-Permᴰ (Permᴰ.swap {l = l} e f) one =
      kept-swap (p _) (p _) _ _ (keep p l) one
      ∙ (λ i. kept (p (f i)) (f i) (kept (p (e i)) (e i) (keep p l)))
  keep-Permᴰ (Permᴰ.trans h k) one =
      let first = keep-Permᴰ h one in first ∙ keep-Permᴰ k (subst (λ l. length l ≤ 1) first one)

Result-set : IsSet (Result GoalGateResult)
Result-set = hlevel

-- Where at most one visited goal gate is not satisfied, the check gives the same result, error or
-- retry target in whatever order the map of outcomes is visited.
pub enforce_goal_gates-perm :
    (graph : PipelineGraph) (xs ys : Map Outcome)
    → Perm xs ys
    → length (unsatisfied graph xs) ≤ 1
    → enforce_goal_gates graph xs ≡ enforce_goal_gates graph ys
unfolding enforce_goal_gates unsatisfied
enforce_goal_gates-perm graph xs ys h one = ∥∥₁_elim h (Result-set _ _) λ d. ap judge (
    check_goal_gates-first graph xs
    ∙ ap (first_result graph) (keep-Permᴰ (is_unsatisfied graph) d one)
    ∙ sym (check_goal_gates-first graph ys))
