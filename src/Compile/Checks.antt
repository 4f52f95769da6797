-- ===== src/Compile/Checks.antt =====
-- What the compiler refuses although each node resolves: attributes, shapes of the graph and
-- capabilities that the engine has not (crates/attractor-pipeline/src/execution_plan.rs).
use pascals_discrete_attract.Base.{
  Text, Map, Bool, true, false, ◌&&◌, List, [], ◌∷◌, ◌++◌, map, Option, none, some, codes, ◌==◌,
  lookup, is_empty, keys, sort_by, join, format, decimal, length, leb, keep, trim, if◌then◌else◌,
}
use pascals_discrete_attract.Graph.{PipelineNode, PipelineGraph, outgoing_edges}
use pascals_discrete_attract.Graph
use pascals_discrete_attract.Graph.Dot.{AttributeValue}
use pascals_discrete_attract.Graph.Edges.{PipelineEdge}
use pascals_discrete_attract.Plan.{
  LlmProvider, HandlerIdentity, handler_name, ResolvedNodeKind, ResolvedNode,
}
use pascals_discrete_attract.Compile.Diagnostics.{
  SemanticDiagnostic, unsupported_execution_topology, unsupported_execution_capability,
  missing_attribute, Formats, invalid_type, unsupported_node_capability,
}
use pascals_discrete_attract.Compile.Roles.{select_handler}
use pascals_discrete_attract.Compile.Resolve.{has_attr}
use pascals_discrete_attract.Compile.Aliases.{concat_map, all_nodes, string_only}
use pascals_discrete_attract.Compile.PiNodes.{validate_pi_node}

unsupported_node_attributes : List Text
unsupported_node_attributes =
    codes "fidelity"
    ∷ codes "reasoning_effort"
    ∷ codes "auto_status"
    ∷ codes "allow_partial"
    ∷ codes "thread_id"
    ∷ []

node_attribute_errors : PipelineNode → Text → List SemanticDiagnostic
node_attribute_errors n attribute =
    if has_attr attribute n.raw_attrs
    then unsupported_node_capability n.id attribute (
        format
          (codes "Remove the '" ∷ attribute ∷ codes "' attribute or stylesheet declaration" ∷ []))
      ∷ []
    else []

edge_capability : PipelineEdge → Text → SemanticDiagnostic
edge_capability e attribute = record {
  kind = unsupported_execution_capability;
  node_id = none;
  message = format (
      codes "Edge '"
      ∷ e.from
      ∷ codes " -> "
      ∷ e.to
      ∷ codes "' uses unsupported execution capability '"
      ∷ attribute
      ∷ codes "'"
      ∷ []);
  fix = format (codes "Remove the '" ∷ attribute ∷ codes "' edge attribute" ∷ []);
}

edge_attribute_errors : PipelineEdge → Text → List SemanticDiagnostic
unfolding edge_capability
edge_attribute_errors e attribute =
    if has_attr attribute e.raw_attrs then edge_capability e attribute ∷ [] else []

unfoldable pub validate_unsupported_attributes : PipelineGraph → List SemanticDiagnostic
unfolding concat_map unsupported_node_attributes node_attribute_errors edge_attribute_errors
validate_unsupported_attributes g =
    concat_map (λ n. concat_map (node_attribute_errors n) unsupported_node_attributes)
      (sort_by (λ (n : PipelineNode). n.id) (all_nodes g))
    ++ concat_map
        (λ e. concat_map (edge_attribute_errors e) (codes "fidelity" ∷ codes "thread_id" ∷ []))
        g.edges

parallel_branches : Text → List PipelineEdge → SemanticDiagnostic
parallel_branches id outgoing = record {
  kind = unsupported_execution_topology;
  node_id = some id;
  message = format (
      codes "Node '"
      ∷ id
      ∷ codes "' resolves to parallel but has "
      ∷ decimal (length outgoing)
      ∷ codes " outgoing edges ("
      ∷ join (codes ", ") (sort_by (λ t. t) (map (λ (e : PipelineEdge). e.to) outgoing))
      ∷ codes "); PAS executes only one successor per step"
      ∷ []);
  fix = codes "Rewrite this node as a linear sequence until parallel branch execution is supported";
}

fan_in_node : Text → SemanticDiagnostic
fan_in_node id = record {
  kind = unsupported_execution_topology;
  node_id = some id;
  message = format (
      codes "Node '" ∷ id ∷ codes "' resolves to fan-in, but PAS cannot merge branch results" ∷ []);
  fix = codes "Remove the fan-in node and use a linear sequence until branch merging is supported";
}

unfoldable pub topology_errors : PipelineGraph → Text → ResolvedNodeKind → List SemanticDiagnostic
unfolding parallel_branches fan_in_node
topology_errors g id ResolvedNodeKind.parallel =
    let outgoing = outgoing_edges g id in
    if leb (length outgoing) 1 then [] else parallel_branches id outgoing ∷ []
topology_errors g id ResolvedNodeKind.fan_in = fan_in_node id ∷ []
topology_errors g id _ = []

unfoldable pub node_topology : PipelineGraph → Text → Option ResolvedNode → List SemanticDiagnostic
unfolding topology_errors
node_topology g id none = []
node_topology g id (some r) = topology_errors g id r.kind

unfoldable pub validate_supported_execution_topology :
    PipelineGraph → Map ResolvedNode → List SemanticDiagnostic
unfolding concat_map node_topology
validate_supported_execution_topology g nodes =
    concat_map (λ id. node_topology g id (lookup id nodes)) (sort_by (λ id. id) (keys nodes))

unfoldable pub manager_errors : Text → ResolvedNodeKind → List SemanticDiagnostic
manager_errors id ResolvedNodeKind.manager_loop =
    unsupported_node_capability id (codes "manager-loop execution")
      (codes "Replace the manager node with an explicit linear sequence")
    ∷ []
manager_errors id _ = []

abbrev is_codergen : HandlerIdentity → Bool
is_codergen HandlerIdentity.codergen = true
is_codergen _ = false

abbrev takes_budget : Option LlmProvider → Bool
takes_budget (some LlmProvider.claude) = true
takes_budget (some LlmProvider.pi) = true
takes_budget _ = false

abbrev is_pi : Option LlmProvider → Bool
is_pi (some LlmProvider.pi) = true
is_pi _ = false

budget_attribute_errors : Formats → PipelineNode → Text → Bool → Text → List SemanticDiagnostic
budget_attribute_errors formats n id false attribute =
    if has_attr attribute n.raw_attrs
    then unsupported_node_capability id attribute (
        format
          (codes "Remove '" ∷ attribute ∷ codes "' or use it on a Claude or pi codergen node" ∷ []))
      ∷ []
    else []
budget_attribute_errors formats n id true attribute =
    string_only formats (some id) attribute (lookup attribute n.raw_attrs)

pi_errors : Bool → Text → PipelineNode → List SemanticDiagnostic
pi_errors false id n = []
pi_errors true id n = validate_pi_node id n

unfoldable pub capability_errors :
    Formats → Text → ResolvedNode → PipelineNode → List SemanticDiagnostic
unfolding manager_errors concat_map budget_attribute_errors pi_errors validate_pi_node
capability_errors formats id r n =
    manager_errors id r.kind
    ++ (concat_map
          (budget_attribute_errors formats n id (is_codergen r.handler && takes_budget r.provider))
          (codes "allowed_tools" ∷ codes "max_budget_usd" ∷ [])
        ++ pi_errors (is_codergen r.handler && is_pi r.provider) id n)

-- A resolved node has a source: the compiler panics before where it has none.
unfoldable pub node_capabilities :
    Formats → Text → Option ResolvedNode → Option PipelineNode → List SemanticDiagnostic
unfolding capability_errors
node_capabilities formats id (some r) (some n) = capability_errors formats id r n
node_capabilities formats id _ _ = []

unfoldable pub validate_supported_execution_capabilities :
    Formats → PipelineGraph → Map ResolvedNode → List SemanticDiagnostic
unfolding concat_map node_capabilities
validate_supported_execution_capabilities formats g nodes =
    concat_map (λ id. node_capabilities formats id (lookup id nodes) (Graph.node g id))
      (sort_by (λ id. id) (keys nodes))

missing_epic : Text → SemanticDiagnostic
missing_epic id = record {
  kind = missing_attribute;
  node_id = some id;
  message = format (
      codes "Node '"
      ∷ id
      ∷ codes "' resolves to handler '"
      ∷ select_handler
      ∷ codes "' but has no 'epic' attribute"
      ∷ []);
  fix = codes "Add epic=\"<epic-id>\" naming the Epic whose Tasks this node claims";
}

unfoldable pub epic_errors : Formats → Text → Option AttributeValue → List SemanticDiagnostic
unfolding missing_epic
epic_errors formats id none = missing_epic id ∷ []
epic_errors formats id (some (AttributeValue.string epic)) =
    if is_empty (trim epic) then missing_epic id ∷ [] else []
epic_errors formats id (some value) = invalid_type formats (some id) (codes "epic") value ∷ []

source_epic_errors : Formats → Text → Option PipelineNode → List SemanticDiagnostic
unfolding epic_errors
source_epic_errors formats id none = []
source_epic_errors formats id (some n) = epic_errors formats id (lookup (codes "epic") n.raw_attrs)

abbrev pub resolved_nodes : Map ResolvedNode → List ResolvedNode
resolved_nodes nodes = map (λ (e : Text × ResolvedNode). e.1) nodes

unfoldable pub validate_beads_attributes :
    Formats → PipelineGraph → Map ResolvedNode → List SemanticDiagnostic
unfolding concat_map source_epic_errors
validate_beads_attributes formats g nodes =
    concat_map (λ id. source_epic_errors formats id (Graph.node g id))
      (sort_by (λ id. id)
        (map (λ (r : ResolvedNode). r.node_id)
          (keep (λ (r : ResolvedNode). handler_name r.handler == select_handler)
            (resolved_nodes nodes))))
