-- ===== src/GoalGate.antt =====
-- crates/attractor-pipeline/src/goal_gate.rs: the goal gates that a run must have satisfied.
pub mod Judged
pub mod Verdict
pub mod Order
use pascals_discrete_attract.Base.{
  ℕ, Text, Map, Bool, true, false, not, ◌&&◌, List, [], ◌∷◌, Option, none, some, codes,
  if◌then◌else◌,
}
use pascals_discrete_attract.Types.{
  Outcome, StageStatus, success, partial_success, retry, fail, skipped,
}
use pascals_discrete_attract.Types.Errors.{AttractorError, goal_gate_unsatisfied, Result, ok, err}
use pascals_discrete_attract.Graph.{PipelineGraph, PipelineNode, node}
use pascals_discrete_attract.Graph.Attributes.{get_string_attr}

pub record GoalGateResult : Type 0 where
  pub all_satisfied : Bool
  pub failed_node_id : Option Text
  pub retry_target : Option Text

-- `matches!(status, Success | PartialSuccess)`.
unfoldable pub is_satisfying : StageStatus → Bool
is_satisfying success = true
is_satisfying partial_success = true
is_satisfying _ = false

abbrev pub or_else : Option Text → Option Text → Option Text
or_else (some t) other = some t
or_else none other = other

unfoldable pub resolve_retry_target : PipelineNode → PipelineGraph → Option Text
resolve_retry_target n graph = or_else n.retry_target (
    or_else n.fallback_retry_target (
      or_else (get_string_attr graph.attrs (codes "retry_target"))
        (get_string_attr graph.attrs (codes "fallback_retry_target"))))

abbrev failing : Option PipelineNode → Outcome → Bool
failing none outcome = false
failing (some n) outcome = n.goal_gate && not (is_satisfying outcome.status)

abbrev target_of : Option PipelineNode → PipelineGraph → Option Text
target_of none graph = none
target_of (some n) graph = resolve_retry_target n graph

-- Whether the outcome of a node leaves a goal gate unsatisfied.
unfoldable pub is_failed_gate : PipelineGraph → Text → Outcome → Bool
is_failed_gate graph id outcome = failing (node graph id) outcome

-- The loop over the visited nodes, in the order of the map.
unfoldable pub check_goal_gates : PipelineGraph → Map Outcome → GoalGateResult
unfolding is_failed_gate
check_goal_gates graph [] = record {
  all_satisfied = true;
  failed_node_id = none;
  retry_target = none;
}
check_goal_gates graph ((id, outcome) ∷ rest) =
    if is_failed_gate graph id outcome
    then record {
      all_satisfied = false;
      failed_node_id = some id;
      retry_target = target_of (node graph id) graph;
    }
    else check_goal_gates graph rest

abbrev text_or_empty : Option Text → Text
text_or_empty none = []
text_or_empty (some t) = t

abbrev is_none : Option Text → Bool
is_none none = true
is_none (some t) = false

-- Unsatisfied with no target is an error.
unfoldable pub judge : GoalGateResult → Result GoalGateResult
judge result =
    if not result.all_satisfied && is_none result.retry_target
    then err (goal_gate_unsatisfied (text_or_empty result.failed_node_id))
    else ok result

unfoldable pub enforce_goal_gates : PipelineGraph → Map Outcome → Result GoalGateResult
unfolding check_goal_gates judge
enforce_goal_gates graph outcomes = judge (check_goal_gates graph outcomes)
