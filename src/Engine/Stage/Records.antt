-- ===== src/Engine/Stage/Records.antt =====
-- What the loop of `run_inner` (crates/attractor-pipeline/src/engine.rs) records after a stage, and what
-- it reads: the stop request, the goal gates, the footprints and the keys of conditions.
use pascals_discrete_attract.Base.{
  ℕ, Text, Map, Bool, true, false, ◌||◌, List, [], ◌∷◌, ◌++◌, Option, none, some, codes, ◌==◌,
  lookup, insert, keys, sort_by, if◌then◌else◌,
}
use pascals_discrete_attract.Types.{Outcome, StageStatus, fail}
use pascals_discrete_attract.Types.Values.{
  Json, Items, null, bool, number, string, array, object, nil, cons, as_str, as_f64, as_array,
}
use pascals_discrete_attract.Types.Values
use pascals_discrete_attract.Types.Errors.{other}
use pascals_discrete_attract.Types.Store
use pascals_discrete_attract.Graph.{PipelineGraph, PipelineNode}
use pascals_discrete_attract.Graph
use pascals_discrete_attract.GoalGate.{GoalGateResult, is_satisfying}
use pascals_discrete_attract.Engine.Exec.{pure, raise, gets, lift, modify, ◌>>=◌, ◌>>◌}
use pascals_discrete_attract.Engine.Events.{PipelineEvent, goal_gate_checked, context_updated}
use pascals_discrete_attract.Engine.Keys.{status_to_string, apply_handler_updates}
use pascals_discrete_attract.Engine.State.{RunConfiguration, Environment, RunState}
use pascals_discrete_attract.Engine.Invoke.{Run, emit}

-- How the loop ends: at an exit node or without an edge, before a node on request, or in a panic
-- (`expect` on a node that the plan was not compiled with).
pub data Ending : Type 0 where
  finished panicked : Ending
  stopped : Text → Ending

pub data Step : Type 0 where
  again : PipelineNode → Step
  done : Ending → Step

known_source : Text → Text
known_source s = if s == codes "cli" || s == codes "monitor" then s else codes "cli"

source_text : Option Json → Text
unfolding known_source
source_text none = codes "cli"
source_text (some v) = elim (as_str v) [ none ↦ codes "cli" | some s ↦ known_source s ]

abbrev source_of : Option Json → Option Json
source_of none = none
source_of (some v) = Values.get (codes "source") v

-- `stop_request_source`, of what `control/stop` holds.
unfoldable pub stop_request_source : Option (Option Json) → Option Text
unfolding source_text
stop_request_source none = none
stop_request_source (some content) = some (source_text (source_of content))

abbrev pub is_gate : Option PipelineNode → Bool
is_gate none = false
is_gate (some n) = n.goal_gate

gates_of : PipelineGraph → Map Outcome → Map Outcome
gates_of graph [] = []
gates_of graph ((id, outcome) ∷ rest) =
    let others = gates_of graph rest in
    if is_gate (Graph.node graph id) then (id, outcome) ∷ others else others

-- The events of the goal gates, in the order of their names.
unfoldable pub gate_events : PipelineGraph → Map Outcome → List PipelineEvent
unfolding gates_of
gate_events graph outcomes =
    gate_list (sort_by (λ (g : Text × Outcome). g.0) (gates_of graph outcomes))
  where
    gate_list : Map Outcome → List PipelineEvent
    gate_list [] = []
    gate_list ((id, outcome) ∷ rest) =
        goal_gate_checked id (is_satisfying outcome.status) ∷ gate_list rest

abbrev pub gate_jump : GoalGateResult → Option Text
gate_jump verdict = if verdict.all_satisfied then none else verdict.retry_target

abbrev text_of : Option Text → Text
text_of none = []
text_of (some t) = t

unfoldable pub is_fail : StageStatus → Bool
is_fail fail = true
is_fail _ = false

footprint_in : Items → Option Text
footprint_in nil = none
footprint_in (cons r rs) =
    let rest = footprint_in rs in
    elim (footprint_of (Values.get (codes "failure_footprint") r)) [
      | some fp ↦ some fp
      | none ↦ rest
    ]
  where
    footprint_of : Option Json → Option Text
    footprint_of none = none
    footprint_of (some v) = as_str v

results_in : Option Json → Option Text
unfolding footprint_in
results_in none = none
results_in (some v) = elim (as_array v) [ none ↦ none | some rs ↦ footprint_in rs ]

-- The first failure footprint among the results of a quality node.
unfoldable pub failure_footprint : Text → Outcome → Option Text
unfolding results_in
failure_footprint id outcome = results_in (lookup (id ++ codes ".results") outcome.context_updates)

unfoldable pub count_of : Option ℕ → ℕ
count_of none = 0
count_of (some n) = n

module _ {W : Type 0} (env : Environment W) (cfg : RunConfiguration) (logs : Bool) where
  value_text : Option Json → Text
  value_text none = []
  value_text (some v) = elim (as_str v) [ some s ↦ s | none ↦ env.show_value v ]

  -- The closure `resolve`.
  unfoldable pub resolve : Outcome → Map Json → Text → Text
  unfolding value_text
  resolve outcome snapshot key =
      if key == codes "outcome"
      then status_to_string outcome.status
      else if key == codes "preferred_label"
      then text_of outcome.preferred_label
      else value_text (lookup key snapshot)

  unfoldable pub record_outcome : Text → Outcome → RunState W → RunState W
  record_outcome id outcome s = record s {
    completed_nodes = s.completed_nodes ++ id ∷ [];
    node_outcomes = insert id outcome s.node_outcomes;
  }

  unfoldable pub clear_active : RunState W → RunState W
  clear_active s = record s {
    progress = record s.progress { active_node_id = none; active_node_attempts = 0 };
  }

  unfoldable pub set_context : Store.Context → RunState W → RunState W
  set_context context s = record s { context = context }

  unfoldable pub report_updates : Text → Map Json → Run env cfg logs (Unit {0})
  report_updates id [] = pure tt
  report_updates id (u ∷ us) =
      emit env cfg logs (context_updated id (sort_by (λ k. k) (keys (u ∷ us))))

  unfoldable pub apply_outcome : Text → Outcome → Run env cfg logs (Unit {0})
  unfolding emit report_updates set_context
  apply_outcome id outcome = do
    result ← gets (λ s. apply_handler_updates s.context id outcome)
    context ← lift result
    modify (set_context context)
    report_updates id outcome.context_updates

  abbrev pub node_or_error : Text → Text → Option PipelineNode → Run env cfg logs PipelineNode
  node_or_error what id (some n) = pure n
  node_or_error what id none = raise (other (what ++ (codes " '" ++ (id ++ codes "' not found"))))

  -- `current_node = graph.node(id).ok_or_else(..)?`.
  unfoldable pub find_node : Text → Text → Run env cfg logs PipelineNode
  find_node what id = node_or_error what id (Graph.node cfg.plan.graph id)

  unfoldable pub emit_all : List PipelineEvent → RunState W → RunState W
  emit_all es s = record s { events = s.events ++ es }
