-- ===== src/Validation/Targets.antt =====
-- Where a plan without errors may send a goal gate (crates/attractor-pipeline/src/validation.rs).
use pascals_discrete_attract.Base.{
  ℕ, Text, Bool, true, false, List, [], ◌∷◌, Option, none, some, ◌≡◌, refl, subst, ap, ◌∙◌, codes,
  keep, keep-In, In-map, In, In-append_left, In-append_right, inl, inr, ◌⊎◌, sort_with-In,
  lookup-In_values, Bool-cases,
}
use pascals_discrete_attract.Types.Values.{FloatOps}
use pascals_discrete_attract.Graph.{PipelineGraph, PipelineNode}
use pascals_discrete_attract.Graph
use pascals_discrete_attract.Graph.Attributes.{get_string_attr}
use pascals_discrete_attract.Plan.{ExecutionPlan, is_exit}
use pascals_discrete_attract.GoalGate.{resolve_retry_target, or_else}
use pascals_discrete_attract.Compile.Aliases.{concat_map, all_nodes}
use pascals_discrete_attract.Validation.{
  RetryTarget, target_entry, node_targets, retry_targets, target_order, terminal_target,
  retry_target_not_terminal, validate_plan_structure, validate_plan,
}
use pascals_discrete_attract.Validation.Rules.{validate_nonsemantic_structure}
use pascals_discrete_attract.Validation.Diagnostics.{Diagnostic, is_error, error_messages}

In-concat_map :
    {A B : Type 0} (f : A → List B) (b : B) (a : A) (xs : List A)
    → In a xs
    → In b (f a)
    → In b (concat_map f xs)
unfolding concat_map
In-concat_map f b a [] h k = absurd h
In-concat_map f b a (x ∷ xs) (inl e) k = In-append_left b (f x) _ (subst (λ y. In b (f y)) e k)
In-concat_map f b a (x ∷ xs) (inr h) k = In-append_right b (f x) _ (In-concat_map f b a xs h k)

-- Without error messages no diagnostic is an error.
error_messages-none :
    (ds : List Diagnostic) (d : Diagnostic)
    → error_messages ds ≡ []
    → In d ds
    → is_error d ≡ true
    → ⊥
unfolding error_messages
error_messages-none ds d e h is =
    subst (In d.message) e
      (In-map (λ (x : Diagnostic). x.message) d (keep is_error ds) (keep-In is_error d ds h is))

-- A retry target of a node or of the graph, by the order in which they are tried.
TargetOf : PipelineNode → PipelineGraph → Text → Type 0
TargetOf n g target =
    (n.retry_target ≡ some target)
    ⊎ ((n.fallback_retry_target ≡ some target)
        ⊎ ((get_string_attr g.attrs (codes "retry_target") ≡ some target)
            ⊎ (get_string_attr g.attrs (codes "fallback_retry_target") ≡ some target)))

or_else-cases :
    (o p : Option Text) (target : Text)
    → or_else o p ≡ some target
    → (o ≡ some target) ⊎ (p ≡ some target)
or_else-cases none p target e = inr e
or_else-cases (some t) p target e = inl e

resolved-TargetOf :
    (n : PipelineNode) (g : PipelineGraph) (target : Text)
    → resolve_retry_target n g ≡ some target
    → TargetOf n g target
unfolding resolve_retry_target TargetOf
resolved-TargetOf n g target e = elim (or_else-cases n.retry_target _ target e) [
  | inl a ↦ inl a
  | inr a ↦ elim (or_else-cases n.fallback_retry_target _ target a) [
    | inl b ↦ inr (inl b)
    | inr b ↦ elim (or_else-cases (get_string_attr g.attrs (codes "retry_target")) _ target b) [
      | inl c ↦ inr (inr (inl c))
      | inr c ↦ inr (inr (inr c))
    ]
  ]
]

abbrev entry : Text → Option Text → Text → Text → RetryTarget
entry owner id attribute target = record {
  owner = owner;
  node_id = id;
  attribute = attribute;
  target = target;
}

target_entry-In :
    (owner : Text) (id : Option Text) (attribute : Text) (o : Option Text) (target : Text)
    → o ≡ some target
    → In (entry owner id attribute target) (target_entry owner id attribute o)
unfolding target_entry
target_entry-In owner id attribute none target e = cc
target_entry-In owner id attribute (some t) target e = inl (cc)

-- Each target that a node of the graph may resolve to is checked.
TargetOf-listed :
    (g : PipelineGraph) (n : PipelineNode) (target : Text)
    → In n (all_nodes g)
    → TargetOf n g target
    → (t : RetryTarget) × In t (retry_targets g) × (t.target ≡ target)
unfolding TargetOf retry_targets
TargetOf-listed g n target listed (inl e) = (
  entry n.id (some n.id) (codes "retry_target") target,
  In-append_left _ (concat_map node_targets (all_nodes g)) _ (
      In-concat_map node_targets _ n (all_nodes g) listed
        (In-append_left _ _ _ (target_entry-In n.id (some n.id) _ _ target e))),
  refl,
)
TargetOf-listed g n target listed (inr (inl e)) = (
  entry n.id (some n.id) (codes "fallback_retry_target") target,
  In-append_left _ (concat_map node_targets (all_nodes g)) _ (
      In-concat_map node_targets _ n (all_nodes g) listed
        (In-append_right _ _ _ (target_entry-In n.id (some n.id) _ _ target e))),
  refl,
)
TargetOf-listed g n target listed (inr (inr (inl e))) = (
  entry (codes "graph") none (codes "retry_target") target,
  In-append_right _ (concat_map node_targets (all_nodes g)) _
      (In-append_left _ _ _ (target_entry-In (codes "graph") none _ _ target e)),
  refl,
)
TargetOf-listed g n target listed (inr (inr (inr e))) = (
  entry (codes "graph") none (codes "fallback_retry_target") target,
  In-append_right _ (concat_map node_targets (all_nodes g)) _
      (In-append_right _ _ _ (target_entry-In (codes "graph") none _ _ target e)),
  refl,
)

module _ (floats : FloatOps) (alnum : ℕ → Bool) where
  terminal_target-reported :
      (plan : ExecutionPlan) (t : RetryTarget)
      → In t (retry_targets plan.graph)
      → is_exit plan t.target ≡ true
      → In (terminal_target t) (validate_plan floats alnum plan)
  unfolding validate_plan validate_plan_structure retry_target_not_terminal
  terminal_target-reported plan t listed exit =
      In-append_right _ (validate_nonsemantic_structure floats alnum plan.graph) _ (
        In-append_left _ (retry_target_not_terminal plan) _ (
          In-map terminal_target t _ (
            keep-In (λ (u : RetryTarget). is_exit plan u.target) t _
              (sort_with-In target_order t (retry_targets plan.graph) listed) exit)))

  -- A plan that validates without an error sends no node of its graph back to an exit node.
  pub validate_plan-leaves_exits :
      (plan : ExecutionPlan) (n : PipelineNode) (id target : Text)
      → error_messages (validate_plan floats alnum plan) ≡ []
      → Graph.node plan.graph id ≡ some n
      → resolve_retry_target n plan.graph ≡ some target
      → is_exit plan target ≡ false
  unfolding Graph.node terminal_target
  validate_plan-leaves_exits plan n id target clean named resolved =
      let (t, listed, same) =
        TargetOf-listed plan.graph n target (lookup-In_values id n plan.graph.nodes named)
          (resolved-TargetOf n plan.graph target resolved) in
      elim (Bool-cases (is_exit plan target)) [
        | inr p ↦ p
        | inl p ↦ absurd (
            error_messages-none _ (terminal_target t) clean
              (terminal_target-reported plan t listed (ap (is_exit plan) same ∙ p)) refl)
      ]
