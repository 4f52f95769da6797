-- ===== src/Compile.antt =====
-- crates/attractor-pipeline/src/execution_plan.rs: the compiler from a pipeline graph to a plan.
pub mod Diagnostics
pub mod Roles
pub mod Policy
pub mod Resolve
pub mod Aliases
pub mod Transforms
pub mod PiNodes
pub mod Checks
pub mod Settled
pub mod Collected
pub mod Capabilities
pub mod Clean
pub mod Wellformed
pub mod Accepted
pub mod Supported
pub mod Defaulted
pub mod Expected
pub mod Refusals
use pascals_discrete_attract.Base.{
  Text, Map, Bool, true, false, List, [], ◌∷◌, ◌++◌, map, Option, none, some, codes, ◌==◌, lookup,
  keys, sort_by, sort_with, join, format, any, all, is_some, ◌&&◌, ◌||◌, not, map_option,
  map_values, if◌then◌else◌,
}
use pascals_discrete_attract.Base
use pascals_discrete_attract.Types.Errors.{AttractorError}
use pascals_discrete_attract.Types.Display.{display}
use pascals_discrete_attract.Graph.{PipelineGraph, PipelineNode}
use pascals_discrete_attract.Graph
use pascals_discrete_attract.Plan.{
  LlmProvider, provider_name, handler_name, ResolvedNodeKind, ResolvedNode, ExecutionPlan,
}
use Diagnostics.{
  SemanticDiagnostic, SemanticDiagnosticKind, missing_start, multiple_starts, missing_exit,
  multiple_exits, transform_error, diagnostic_order, Checked, accepted, rejected, Formats,
}
use Roles.{select_handler, close_handler}
use Resolve.{MissingProviderPolicy, reject, insert, resolve_node}
use Aliases.{all_nodes, validate_semantic_attribute_types, normalize_aliases}
use Transforms.{Transformed, transformed, refused, broken, apply_transforms}
use Checks.{
  validate_unsupported_attributes, validate_supported_execution_topology,
  validate_supported_execution_capabilities, validate_beads_attributes, resolved_nodes,
}

-- What the loop over the nodes collects.
pub record Resolution : Type 0 where
  pub nodes : Map ResolvedNode
  pub starts : List Text
  pub exits : List Text
  pub defaulted : List Text
  pub diagnostics : List SemanticDiagnostic
  -- A collected id named no node: `expect` panics there.
  pub lost : Bool

abbrev no_resolution : Resolution
no_resolution = record {
  nodes = [];
  starts = [];
  exits = [];
  defaulted = [];
  diagnostics = [];
  lost = false;
}

abbrev pub is_start_kind : ResolvedNodeKind → Bool
is_start_kind ResolvedNodeKind.start = true
is_start_kind _ = false

abbrev pub is_exit_kind : ResolvedNodeKind → Bool
is_exit_kind ResolvedNodeKind.exit = true
is_exit_kind _ = false

unfoldable pub with_result : Text → Checked (ResolvedNode × Bool) → Resolution → Resolution
with_result id (rejected ds) rest = record rest { diagnostics = ds ++ rest.diagnostics }
with_result id (accepted (r, defaulted)) rest = record rest {
  nodes = Base.insert id r rest.nodes;
  starts = if is_start_kind r.kind then id ∷ rest.starts else rest.starts;
  exits = if is_exit_kind r.kind then id ∷ rest.exits else rest.exits;
  defaulted = if defaulted then id ∷ rest.defaulted else rest.defaulted;
}

-- Exactly one start and exactly one exit.
unfoldable pub start_errors : List Text → List SemanticDiagnostic
start_errors [] =
    record {
      kind = missing_start;
      node_id = none;
      message = codes "Pipeline has no canonical start node";
      fix = codes "Add exactly one shape=\"Mdiamond\" start node";
    }
    ∷ []
start_errors (id ∷ []) = []
start_errors (id ∷ other ∷ ids) =
    record {
      kind = multiple_starts;
      node_id = none;
      message =
          format (
            codes "Pipeline has multiple start nodes: "
            ∷ join (codes ", ") (id ∷ other ∷ ids)
            ∷ []);
      fix = codes "Keep exactly one start node";
    }
    ∷ []

unfoldable pub exit_errors : List Text → List SemanticDiagnostic
exit_errors [] =
    record {
      kind = missing_exit;
      node_id = none;
      message = codes "Pipeline has no canonical exit node";
      fix = codes "Add exactly one shape=\"Msquare\" exit node";
    }
    ∷ []
exit_errors (id ∷ []) = []
exit_errors (id ∷ other ∷ ids) =
    record {
      kind = multiple_exits;
      node_id = none;
      message =
          format (
            codes "Pipeline has multiple exit nodes: " ∷ join (codes ", ") (id ∷ other ∷ ids) ∷ []);
      fix = codes "Keep exactly one exit node";
    }
    ∷ []

-- The provider that a node was given by default is written to its source.
unfoldable pub provider_of : Option ResolvedNode → Option Text
provider_of none = none
provider_of (some r) = map_option provider_name r.provider

unfoldable pub write_provider : List Text → Map ResolvedNode → PipelineNode → PipelineNode
unfolding provider_of
write_provider defaulted nodes n =
    if any (λ id. id == n.id) defaulted
    then record n { llm_provider = provider_of (lookup n.id nodes) }
    else n

unfoldable pub write_providers : List Text → Map ResolvedNode → PipelineGraph → PipelineGraph
unfolding write_provider
write_providers defaulted nodes g = record g {
  nodes = map_values (write_provider defaulted nodes) g.nodes;
}

-- The handlers of the resolved nodes are in the catalog, or `settle` panics.
unfoldable pub add_capability : Text → Option Bool → Map Bool → Map Bool
add_capability name none m = m
add_capability name (some capability) m = Base.insert name capability m

unfoldable pub capabilities_of : Map Bool → List ResolvedNode → Map Bool
unfolding add_capability
capabilities_of catalog [] = []
capabilities_of catalog (r ∷ rs) =
    add_capability (handler_name r.handler) (lookup (handler_name r.handler) catalog)
      (capabilities_of catalog rs)

-- `pop` of the list of starts.
abbrev pub last_of : List Text → Text
last_of [] = []
last_of (id ∷ []) = id
last_of (id ∷ other ∷ ids) = last_of (other ∷ ids)

pub record PlanCompilation : Type 0 where
  pub plan : ExecutionPlan
  pub defaulted_provider_nodes : List Text

-- The compiler gives a plan or diagnostics, or panics: in the parser of the stylesheet, or by an
-- `expect` of its own.
pub data Compilation : Type 0 where
  compiled : PlanCompilation → Compilation
  invalid : List SemanticDiagnostic → Compilation
  panicked : Compilation

abbrev pub has_provider : Option ResolvedNode → Bool
has_provider none = false
has_provider (some r) = is_some r.provider

abbrev pub nonempty : List Text → Bool
nonempty [] = false
nonempty (id ∷ ids) = true

-- What the plan is made of by `expect`: the provider of each defaulted node, the capability of each
-- handler, and a start.
unfoldable pub expected : Map Bool → Resolution → Bool
expected catalog found =
    all (λ id. has_provider (lookup id found.nodes)) found.defaulted
    && (all (λ (r : ResolvedNode). is_some (lookup (handler_name r.handler) catalog))
          (resolved_nodes found.nodes)
        && nonempty found.starts)

unfoldable pub builtin_handler_catalog : Map Bool
builtin_handler_catalog =
    (codes "start", false)
    ∷ (codes "exit", false)
    ∷ (codes "codergen", true)
    ∷ (codes "conditional", false)
    ∷ (codes "wait.human", false)
    ∷ (codes "tool", false)
    ∷ (codes "parallel", false)
    ∷ (codes "parallel.fan_in", false)
    ∷ (codes "stack.manager_loop", false)
    ∷ (codes "quality", false)
    ∷ (select_handler, false)
    ∷ (close_handler, false)
    ∷ []

module _ (formats : Formats) where
  unfoldable pub transform_failure : AttractorError → SemanticDiagnostic
  transform_failure e = record {
    kind = transform_error;
    node_id = none;
    message = display formats.floats e;
    fix = codes "Correct the stylesheet or prompt transform input";
  }

  module _ (catalog : Map Bool) (policy : MissingProviderPolicy) where
    unfoldable pub with_node : Text → Option PipelineNode → Resolution → Resolution
    unfolding with_result
    with_node id none rest = record rest { lost = true }
    with_node id (some n) rest = with_result id (resolve_node formats catalog policy n) rest

    unfoldable pub resolve_all : PipelineGraph → List Text → Resolution
    resolve_all g [] = no_resolution
    resolve_all g (id ∷ ids) = with_node id (Graph.node g id) (resolve_all g ids)

    unfoldable pub node_ids : PipelineGraph → List Text
    node_ids g = sort_by (λ id. id) (map (λ (n : PipelineNode). n.id) (all_nodes g))

    -- Every diagnostic that comes after the transforms.
    unfoldable pub later_errors : PipelineGraph → Resolution → List SemanticDiagnostic
    unfolding start_errors exit_errors
    later_errors g found =
        validate_unsupported_attributes g
        ++ (found.diagnostics
            ++ (validate_supported_execution_topology g found.nodes
                ++ (validate_supported_execution_capabilities formats g found.nodes
                    ++ (validate_beads_attributes formats g found.nodes
                        ++ (start_errors (sort_by (λ id. id) found.starts)
                            ++ exit_errors (sort_by (λ id. id) found.exits))))))

    unfoldable pub plan_of : PipelineGraph → Resolution → PlanCompilation
    unfolding write_providers capabilities_of
    plan_of g found =
        let defaulted = sort_by (λ id. id) found.defaulted in
        record {
          plan = record {
            graph = write_providers defaulted found.nodes g;
            nodes = found.nodes;
            handler_capabilities = capabilities_of catalog (resolved_nodes found.nodes);
            start_id = last_of (sort_by (λ id. id) found.starts);
            exit_ids = sort_by (λ id. id) found.exits;
          };
          defaulted_provider_nodes = defaulted;
        }

    unfoldable pub settle : PipelineGraph → Resolution → List SemanticDiagnostic → Compilation
    unfolding plan_of expected
    settle g found [] = if expected catalog found then compiled (plan_of g found) else panicked
    settle g found (d ∷ ds) = invalid (d ∷ ds)

    -- Each resolved node has its source, which the checks take by `expect`.
    unfoldable pub sourced : PipelineGraph → Map ResolvedNode → Bool
    sourced g nodes = all (λ id. is_some (Graph.node g id)) (keys nodes)

    unfoldable pub compile_nodes : PipelineGraph → List SemanticDiagnostic → Compilation
    unfolding settle later_errors resolve_all node_ids sourced
    compile_nodes g earlier =
        let found = resolve_all g (node_ids g) in
        if found.lost || not (sourced g found.nodes)
        then panicked
        else settle g found (sort_with diagnostic_order (earlier ++ later_errors g found))

    unfoldable pub compile_transformed : PipelineGraph → Transformed → Compilation
    unfolding transform_failure
    compile_transformed g (transformed changed) = compile_nodes changed []
    compile_transformed g (refused e) = compile_nodes g (transform_failure e ∷ [])
    compile_transformed g broken = panicked

    -- The transforms are only applied where the attributes are sound so far.
    unfoldable pub compile_normalized : PipelineGraph → List SemanticDiagnostic → Compilation
    unfolding compile_transformed
    compile_normalized g [] = compile_transformed g (apply_transforms formats g)
    compile_normalized g (d ∷ ds) = compile_nodes g (d ∷ ds)

    unfoldable pub compile_with_policy : PipelineGraph → Compilation
    unfolding compile_normalized normalize_aliases
    compile_with_policy g =
        let (normalized, conflicts) = normalize_aliases g in
        compile_normalized normalized (validate_semantic_attribute_types formats g ++ conflicts)

  -- `ExecutionPlan::compile` and `compile_for_generation`.
  unfoldable pub compile : PipelineGraph → Compilation
  unfolding compile_with_policy
  compile = compile_with_policy builtin_handler_catalog reject

  unfoldable pub compile_for_generation : PipelineGraph → LlmProvider → Compilation
  unfolding compile_with_policy
  compile_for_generation g provider =
      compile_with_policy builtin_handler_catalog (insert provider) g
