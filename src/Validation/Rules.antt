-- ===== src/Validation/Rules.antt =====
-- The lint rules on a graph (crates/attractor-pipeline/src/validation.rs).
use pascals_discrete_attract.Base.{
  ℕ, Text, Bool, not, ◌&&◌, List, [], ◌∷◌, ◌++◌, map, Option, none, some, codes, keep, is_some,
  format,
}
use pascals_discrete_attract.Types.Values.{FloatOps}
use pascals_discrete_attract.Types.Errors.{Result, ok, err}
use pascals_discrete_attract.Types.Display.{display}
use pascals_discrete_attract.Graph.{PipelineGraph, PipelineNode}
use pascals_discrete_attract.Graph
use pascals_discrete_attract.Graph.Edges.{PipelineEdge}
use pascals_discrete_attract.Condition.{ConditionExpr, parse_condition}
use pascals_discrete_attract.Compile.Aliases.{concat_map, all_nodes}
use pascals_discrete_attract.Validation.Diagnostics.{Diagnostic, error, warning}

missing_target : PipelineEdge → Diagnostic
missing_target e = record {
  rule = codes "edge_target_exists";
  severity = error;
  message = format (
      codes "Edge "
      ∷ e.from
      ∷ codes " -> "
      ∷ e.to
      ∷ codes " references non-existent target '"
      ∷ e.to
      ∷ codes "'"
      ∷ []);
  node_id = none;
  edge = some (e.from, e.to);
  fix = some (format (codes "Add node '" ∷ e.to ∷ codes "' or fix the edge target" ∷ []));
}

unfoldable pub edge_target_exists : PipelineGraph → List Diagnostic
unfolding missing_target
edge_target_exists g =
    map missing_target (keep (λ (e : PipelineEdge). not (is_some (Graph.node g e.to))) g.edges)

module _ (floats : FloatOps) (alnum : ℕ → Bool) where
  invalid_condition : PipelineEdge → Text → Result ConditionExpr → List Diagnostic
  invalid_condition e cond (ok expr) = []
  invalid_condition e cond (err failure) =
      record {
        rule = codes "condition_syntax";
        severity = error;
        message = format (
            codes "Edge "
            ∷ e.from
            ∷ codes " -> "
            ∷ e.to
            ∷ codes " has invalid condition '"
            ∷ cond
            ∷ codes "': "
            ∷ display floats failure
            ∷ []);
        node_id = none;
        edge = some (e.from, e.to);
        fix = some (codes "Fix the condition expression syntax");
      }
      ∷ []

  edge_condition : PipelineEdge → Option Text → List Diagnostic
  unfolding invalid_condition
  edge_condition e none = []
  edge_condition e (some cond) = invalid_condition e cond (parse_condition alnum cond)

  unfoldable pub condition_syntax : PipelineGraph → List Diagnostic
  unfolding concat_map edge_condition
  condition_syntax g = concat_map (λ (e : PipelineEdge). edge_condition e e.condition) g.edges

missing_retry : PipelineNode → Text → Text → Diagnostic
missing_retry n attribute target = record {
  rule = codes "retry_target_exists";
  severity = warning;
  message = format (
      codes "Node '"
      ∷ n.id
      ∷ codes "' has "
      ∷ attribute
      ∷ codes " '"
      ∷ target
      ∷ codes "' which does not exist"
      ∷ []);
  node_id = some n.id;
  edge = none;
  fix = some (format (codes "Add node '" ∷ target ∷ codes "' or fix " ∷ attribute ∷ []));
}

unknown_retry : PipelineGraph → PipelineNode → Text → Option Text → List Diagnostic
unfolding missing_retry
unknown_retry g n attribute none = []
unknown_retry g n attribute (some target) = elim (Graph.node g target) [
  | none ↦ missing_retry n attribute target ∷ []
  | some m ↦ []
]

unfoldable pub retry_target_exists : PipelineGraph → List Diagnostic
unfolding concat_map unknown_retry
retry_target_exists g =
    concat_map
      (λ (n : PipelineNode).
        unknown_retry g n (codes "retry_target") n.retry_target
        ++ unknown_retry g n (codes "fallback_retry_target") n.fallback_retry_target)
      (all_nodes g)

gate_without_retry : PipelineNode → Diagnostic
gate_without_retry n = record {
  rule = codes "goal_gate_has_retry";
  severity = warning;
  message = format (codes "Node '" ∷ n.id ∷ codes "' has goal_gate=true but no retry_target" ∷ []);
  node_id = some n.id;
  edge = none;
  fix = some (codes "Add a retry_target attribute so the goal gate can retry");
}

unfoldable pub goal_gate_has_retry : PipelineGraph → List Diagnostic
unfolding gate_without_retry
goal_gate_has_retry g =
    map gate_without_retry
      (keep (λ (n : PipelineNode). n.goal_gate && not (is_some n.retry_target)) (all_nodes g))

-- `validate_nonsemantic_structure`: the four rules in order.
unfoldable pub validate_nonsemantic_structure :
    FloatOps → (ℕ → Bool) → PipelineGraph → List Diagnostic
unfolding edge_target_exists condition_syntax retry_target_exists goal_gate_has_retry
validate_nonsemantic_structure floats alnum g =
    edge_target_exists g
    ++ (condition_syntax floats alnum g ++ (retry_target_exists g ++ goal_gate_has_retry g))
