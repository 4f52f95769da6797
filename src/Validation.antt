-- ===== src/Validation.antt =====
-- crates/attractor-pipeline/src/validation.rs: the checks on a graph and on a compiled plan.
pub mod Diagnostics
pub mod Rules
pub mod Reachability
pub mod Targets
pub mod Reachable
use pascals_discrete_attract.Base.{
  ℕ, Ordering, Text, Map, Bool, true, false, not, ◌&&◌, ◌||◌, List, [], ◌∷◌, ◌++◌, map, Option,
  none, some, codes, ◌==◌, cmp, then_cmp, lookup, keep, any, is_some, is_empty, sort_by, sort_with,
  format, join, if◌then◌else◌,
}
use pascals_discrete_attract.Types.Values.{FloatOps}
use pascals_discrete_attract.Types.Errors.{validation_error, Result, ok, err}
use pascals_discrete_attract.Graph.{PipelineGraph, PipelineNode, outgoing_edges}
use pascals_discrete_attract.Graph
use pascals_discrete_attract.Graph.Attributes.{get_string_attr}
use pascals_discrete_attract.Graph.Edges.{PipelineEdge}
use pascals_discrete_attract.Plan.{
  LlmProvider, HandlerIdentity, handler_name, ResolvedNode, ExecutionPlan, is_exit,
}
use pascals_discrete_attract.Compile.{
  PlanCompilation, Compilation, compiled, invalid, panicked, compile, compile_for_generation,
}
use pascals_discrete_attract.Compile.Diagnostics.{SemanticDiagnostic, Formats}
use pascals_discrete_attract.Compile.Roles.{select_handler, close_handler}
use pascals_discrete_attract.Compile.Aliases.{concat_map, all_nodes}
use pascals_discrete_attract.Compile.Checks.{resolved_nodes}
use Diagnostics.{Diagnostic, error, warning, is_error, error_messages, semantic_diagnostic}
use Rules.{validate_nonsemantic_structure}
use Reachability.{member, reached}

-- A retry target: whose it is, the node, the attribute and the target.
pub record RetryTarget : Type 0 where
  pub owner : Text
  pub node_id : Option Text
  pub attribute : Text
  pub target : Text

unfoldable pub target_entry : Text → Option Text → Text → Option Text → List RetryTarget
target_entry owner id attribute none = []
target_entry owner id attribute (some target) =
    record { owner = owner; node_id = id; attribute = attribute; target = target } ∷ []

abbrev pub node_targets : PipelineNode → List RetryTarget
node_targets n =
    target_entry n.id (some n.id) (codes "retry_target") n.retry_target
    ++ target_entry n.id (some n.id) (codes "fallback_retry_target") n.fallback_retry_target

abbrev pub graph_target : PipelineGraph → Text → List RetryTarget
graph_target g attribute =
    target_entry (codes "graph") none attribute (get_string_attr g.attrs attribute)

unfoldable pub retry_targets : PipelineGraph → List RetryTarget
unfolding concat_map
retry_targets g =
    concat_map node_targets (all_nodes g)
    ++ (graph_target g (codes "retry_target") ++ graph_target g (codes "fallback_retry_target"))

abbrev pub target_order : RetryTarget → RetryTarget → Ordering
target_order left right =
    then_cmp (cmp left.owner right.owner)
      (then_cmp (cmp left.attribute right.attribute) (cmp left.target right.target))

unfoldable pub terminal_target : RetryTarget → Diagnostic
terminal_target t = record {
  rule = codes "retry_target_not_terminal";
  severity = error;
  message = format (
      t.owner
      ∷ codes " "
      ∷ t.attribute
      ∷ codes " '"
      ∷ t.target
      ∷ codes "' resolves to a terminal node and cannot change an unsatisfied goal gate"
      ∷ []);
  node_id = t.node_id;
  edge = none;
  fix = some (
      format (
        codes "Point "
        ∷ t.attribute
        ∷ codes " at a non-terminal node that can change the goal-gate outcome"
        ∷ []));
}

unfoldable pub retry_target_not_terminal : ExecutionPlan → List Diagnostic
unfolding terminal_target retry_targets
retry_target_not_terminal plan = map terminal_target (
    keep (λ (t : RetryTarget). is_exit plan t.target)
      (sort_with target_order (retry_targets plan.graph)))

unfoldable pub start_no_incoming : ExecutionPlan → List Diagnostic
start_no_incoming plan =
    if any (λ (e : PipelineEdge). e.to == plan.start_id) plan.graph.edges
    then record {
      rule = codes "start_no_incoming";
      severity = error;
      message = format (codes "Start node '" ∷ plan.start_id ∷ codes "' has incoming edges" ∷ []);
      node_id = some plan.start_id;
      edge = none;
      fix = some (codes "Remove edges pointing to the start node");
    }
      ∷ []
    else []

leaves_exit : Text → List PipelineEdge → List Diagnostic
leaves_exit id [] = []
leaves_exit id (e ∷ es) =
    record {
      rule = codes "exit_no_outgoing";
      severity = error;
      message = format (codes "Terminal node '" ∷ id ∷ codes "' has outgoing edges" ∷ []);
      node_id = some id;
      edge = none;
      fix = some (format (codes "Remove outgoing edges from '" ∷ id ∷ codes "'" ∷ []));
    }
    ∷ []

unfoldable pub exit_no_outgoing : ExecutionPlan → List Diagnostic
unfolding concat_map leaves_exit
exit_no_outgoing plan =
    concat_map (λ id. leaves_exit id (outgoing_edges plan.graph id)) plan.exit_ids

unfoldable pub unreachable_node : Text → Diagnostic
unreachable_node id = record {
  rule = codes "reachability";
  severity = error;
  message = format (codes "Node '" ∷ id ∷ codes "' is not reachable from the start node" ∷ []);
  node_id = some id;
  edge = none;
  fix = some (format (codes "Add an edge leading to '" ∷ id ∷ codes "' or remove it" ∷ []));
}

-- The ids of the compiled nodes that the search does not visit, sorted.
unfoldable pub unreachable : ExecutionPlan → List Text
unfolding reached
unreachable plan =
    sort_by (λ id. id)
      (keep (λ id. not (member id (reached plan.graph plan.start_id)))
        (map (λ (r : ResolvedNode). r.node_id) (resolved_nodes plan.nodes)))

abbrev is_codergen : ResolvedNode → Bool
is_codergen r = elim r.handler [ HandlerIdentity.codergen ↦ true | _ ↦ false ]

source_list : Option PipelineNode → List PipelineNode
source_list none = []
source_list (some n) = n ∷ []

no_prompt : PipelineNode → Diagnostic
no_prompt n = record {
  rule = codes "prompt_on_llm_nodes";
  severity = warning;
  message = format (
      codes "Node '" ∷ n.id ∷ codes "' (handler=codergen) has no prompt and label matches id" ∷ []);
  node_id = some n.id;
  edge = none;
  fix = some (codes "Add a prompt or a descriptive label attribute");
}

unfoldable pub prompt_on_llm_nodes : ExecutionPlan → List Diagnostic
unfolding concat_map source_list no_prompt
prompt_on_llm_nodes plan = map no_prompt (
    sort_by (λ (n : PipelineNode). n.id)
      (keep (λ (n : PipelineNode). not (is_some n.prompt) && (n.label == n.id))
        (concat_map (λ (r : ResolvedNode). source_list (Graph.node plan.graph r.node_id))
          (keep is_codergen (resolved_nodes plan.nodes)))))

unfoldable pub validate_plan_structure : ExecutionPlan → List Diagnostic
unfolding retry_target_not_terminal start_no_incoming exit_no_outgoing unreachable unreachable_node
    prompt_on_llm_nodes
validate_plan_structure plan =
    retry_target_not_terminal plan
    ++ (start_no_incoming plan
        ++ (exit_no_outgoing plan
            ++ (map unreachable_node (unreachable plan) ++ prompt_on_llm_nodes plan)))

unfoldable pub validate_plan : FloatOps → (ℕ → Bool) → ExecutionPlan → List Diagnostic
unfolding validate_nonsemantic_structure validate_plan_structure
validate_plan floats alnum plan =
    validate_nonsemantic_structure floats alnum plan.graph ++ validate_plan_structure plan

-- `beads_nodes`: the pairs are sorted by id and then by handler.
beads_nodes : ExecutionPlan → List (Text × Text)
beads_nodes plan =
    sort_with (λ (a b : Text × Text). then_cmp (cmp a.0 b.0) (cmp a.1 b.1))
      (keep (λ (p : Text × Text). (p.1 == select_handler) || (p.1 == close_handler))
        (map (λ (r : ResolvedNode). (r.node_id, handler_name r.handler))
          (resolved_nodes plan.nodes)))

beads_missing : Text × Text → Diagnostic
beads_missing (id, handler) = record {
  rule = codes "beads_available";
  severity = error;
  message = format (
      codes "Node '"
      ∷ id
      ∷ codes "' uses handler '"
      ∷ handler
      ∷ codes "' but bd is not on PATH"
      ∷ []);
  node_id = some id;
  edge = none;
  fix = some (codes "Install beads (bd) and make sure it is on PATH");
}

-- `beads_unavailable`, with whether `bd` is on the path.
unfoldable pub beads_unavailable : ExecutionPlan → Bool → List Diagnostic
unfolding beads_nodes beads_missing
beads_unavailable plan true = []
beads_unavailable plan false = map beads_missing (beads_nodes plan)

-- The diagnostics of a graph, none where the stylesheet's parser panics.
module _ (formats : Formats) (alnum : ℕ → Bool) (bd_found : Bool) where
  plan_diagnostics : Compilation → List Diagnostic
  unfolding beads_unavailable
  plan_diagnostics (compiled c) =
      validate_plan_structure c.plan ++ beads_unavailable c.plan bd_found
  plan_diagnostics (invalid ds) = []
  plan_diagnostics panicked = []

  unfoldable pub validate_compiled : PipelineGraph → Compilation → Option (List Diagnostic)
  unfolding validate_plan plan_diagnostics
  validate_compiled g (compiled c) =
      some (validate_plan formats.floats alnum c.plan ++ beads_unavailable c.plan bd_found)
  validate_compiled g (invalid ds) = some (
      validate_nonsemantic_structure formats.floats alnum g
      ++ (plan_diagnostics (compile_for_generation formats g LlmProvider.claude)
          ++ map semantic_diagnostic ds))
  validate_compiled g panicked = none

  unfoldable pub validate : PipelineGraph → Option (List Diagnostic)
  unfolding validate_compiled compile
  validate g = validate_compiled g (compile formats g)

  raise_errors : List Diagnostic → List Text → Result (List Diagnostic)
  raise_errors ds [] = ok ds
  raise_errors ds (m ∷ ms) = err (validation_error (join (codes "; ") (m ∷ ms)))

  raised : Option (List Diagnostic) → Option (Result (List Diagnostic))
  unfolding raise_errors error_messages
  raised none = none
  raised (some ds) = some (raise_errors ds (error_messages ds))

  unfoldable pub validate_or_raise : PipelineGraph → Option (Result (List Diagnostic))
  unfolding raised validate
  validate_or_raise g = raised (validate g)
