-- ===== src/Engine/Stage.antt =====
-- One turn of the loop of `run_inner` (crates/attractor-pipeline/src/engine.rs): the stop request,
-- the exit node with its goal gates, and a stage with the choice of the next one. The pause and the
-- log line of a quality loop change no state.
pub mod Records
unfoldable pub use Records.*
use pascals_discrete_attract.Base.{
  ℕ, ◌+◌, ◌%◌, ◌^◌, Text, Map, Bool, true, false, ◌&&◌, ◌||◌, List, [], ◌∷◌, ◌++◌, Option, none,
  some, codes, ◌==◌, ltb, lookup, insert, keys, sort_by, decimal, if◌then◌else◌,
}
use pascals_discrete_attract.Types.{Outcome, StageStatus, fail}
use pascals_discrete_attract.Types.Values.{
  Json, Items, null, bool, number, string, array, object, nil, cons, as_str, as_f64, as_array,
}
use pascals_discrete_attract.Types.Values
use pascals_discrete_attract.Types.Errors.{
  AttractorError, handler_error, other, budget_exhausted, err,
}
use pascals_discrete_attract.Types.Store
use pascals_discrete_attract.Graph.{PipelineGraph, PipelineNode}
use pascals_discrete_attract.Graph
use pascals_discrete_attract.Graph.Edges.{PipelineEdge}
use pascals_discrete_attract.Plan.{ResolvedNode, handler_name, is_exit, is_quality}
use pascals_discrete_attract.Plan
use pascals_discrete_attract.EdgeSelection.{select_edge}
use pascals_discrete_attract.GoalGate.{GoalGateResult, is_satisfying, enforce_goal_gates}
use pascals_discrete_attract.Engine.Exec.{pure, raise, gets, lift, modify, ◌>>=◌, ◌>>◌}
use pascals_discrete_attract.Engine.Events.{
  PipelineEvent, edge_selected, goal_gate_checked, stop_requested, context_updated,
}
use pascals_discrete_attract.Engine.Keys.{status_to_string, apply_handler_updates}
use pascals_discrete_attract.Engine.State.{RunConfiguration, Environment, RunState}
use pascals_discrete_attract.Engine.Invoke.{Run, ask, emit, save, invoke_node, add_cost, cost_of}

module _ {W : Type 0} (env : Environment W) (cfg : RunConfiguration) (logs : Bool) where
  -- The exit handler.
  unfoldable pub run_exit : PipelineNode → ResolvedNode → Run env cfg logs Step
  unfolding apply_outcome record_outcome clear_active invoke_node
  run_exit node resolved = do
    outcome ← invoke_node env cfg logs node resolved
    apply_outcome env cfg logs node.id outcome
    modify (record_outcome env cfg logs node.id outcome)
    modify (clear_active env cfg logs)
    pure (done finished)

  unfoldable pub exit_handler : PipelineNode → Option ResolvedNode → Run env cfg logs Step
  unfolding run_exit
  exit_handler node none = pure (done panicked)
  exit_handler node (some resolved) = run_exit node resolved

  unfoldable pub jump_or_exit : PipelineNode → Option Text → Run env cfg logs Step
  unfolding find_node exit_handler
  jump_or_exit node (some target) = do
    n ← find_node env cfg logs (codes "Retry target") target
    pure (again n)
  jump_or_exit node none = exit_handler node (Plan.node cfg.plan node.id)

  -- The terminal check: the goal gates first, and a jump back where one asks for it.
  unfoldable pub exit_step : PipelineNode → Run env cfg logs Step
  unfolding emit_all jump_or_exit
  exit_step node = do
    outcomes ← gets (λ (s : RunState W). s.node_outcomes)
    modify (emit_all env cfg logs (gate_events cfg.plan.graph outcomes))
    verdict ← lift (enforce_goal_gates cfg.plan.graph outcomes)
    jump_or_exit node (gate_jump verdict)

  abbrev loop_key : Text → Option Text → Text
  loop_key id none = id ++ codes "::__start__"
  loop_key id (some upstream) = id ++ (codes "::" ++ upstream)

  -- The counter is a `u32`.
  unfoldable pub count_entry : Text → RunState W → RunState W
  unfolding count_of
  count_entry id s =
      let key = loop_key id s.prev_node_id in
      record s {
        quality_loop_counters =
            insert key ((count_of (lookup key s.quality_loop_counters) + 1) % 2 ^ 32)
              s.quality_loop_counters;
      }

  unfoldable pub iteration : Text → RunState W → ℕ
  unfolding count_of
  iteration id s = count_of (lookup (loop_key id s.prev_node_id) s.quality_loop_counters)

  abbrev too_many_fixes : Text → ℕ → AttractorError
  too_many_fixes id limit = other (
      codes "Quality node '"
      ++ (id
          ++ (codes "' exceeded max_fix_iterations ("
              ++ (decimal limit ++ codes ") — aborting pipeline"))))

  unfoldable pub within_fixes : Text → ℕ → ℕ → Run env cfg logs (Unit {0})
  within_fixes id limit n = if ltb limit n then raise (too_many_fixes id limit) else pure tt

  -- Quality loop control: an entry is counted, and one beyond the limit ends the run.
  unfoldable pub enter_quality : Text → Run env cfg logs (Unit {0})
  unfolding iteration count_entry within_fixes
  enter_quality id = do
    modify (count_entry id)
    n ← gets (iteration id)
    within_fixes id (cfg.quality_max_fix_iterations id) n

  unfoldable pub keep_footprint : Text → Option Text → RunState W → RunState W
  keep_footprint id none s = s
  keep_footprint id (some fp) s = record s {
    quality_last_footprint = insert id fp s.quality_last_footprint;
  }

  unfoldable pub note_footprint : Text → Bool → Outcome → RunState W → RunState W
  unfolding keep_footprint is_fail
  note_footprint id quality outcome s =
      if quality && is_fail outcome.status
      then keep_footprint id (failure_footprint id outcome) s
      else s

  unfoldable pub charge : Option ℕ → RunState W → RunState W
  charge none s = s
  charge (some c) s = add_cost env cfg logs c s

  unfoldable pub restart : Bool → RunState W → RunState W
  restart false s = s
  restart true s = record s { completed_nodes = []; node_outcomes = [] }

  unfoldable pub reset_quality : Bool → RunState W → RunState W
  reset_quality false s = s
  reset_quality true s = record s { quality_loop_counters = []; quality_last_footprint = [] }

  unfoldable pub came_from : Text → RunState W → RunState W
  came_from id s = record s { prev_node_id = some id }

  -- Along the selected edge.
  unfoldable pub follow : Text → PipelineEdge → Run env cfg logs Step
  unfolding emit restart reset_quality find_node clear_active save came_from
  follow id edge = do
    emit env cfg logs (edge_selected edge.from edge.to edge.label)
    modify (restart edge.loop_restart)
    modify (reset_quality edge.reset_quality_loop_state)
    next ← find_node env cfg logs (codes "Edge target") edge.to
    modify (clear_active env cfg logs)
    save env cfg logs next.id (some id)
    modify (came_from id)
    pure (again next)

  -- No outgoing edge and not an exit node.
  unfoldable pub dead_end : Text → Text → StageStatus → Run env cfg logs Step
  unfolding clear_active is_fail
  dead_end id handler status =
      if is_fail status
      then raise (handler_error handler id (codes "Handler failed with no outgoing edge"))
      else (do modify (clear_active env cfg logs); pure (done finished))

  abbrev pub selected : Text → Outcome → RunState W → Option PipelineEdge
  selected id outcome s =
      select_edge env.unicode id outcome (resolve env cfg logs outcome (Store.snapshot s.context))
        cfg.plan.graph

  unfoldable pub leave : Text → Text → StageStatus → Option PipelineEdge → Run env cfg logs Step
  unfolding follow dead_end
  leave id handler status (some edge) = follow id edge
  leave id handler status none = dead_end id handler status

  unfoldable pub advance : Text → Text → Outcome → Run env cfg logs Step
  unfolding leave
  advance id handler outcome = do
    choice ← gets (selected id outcome)
    leave id handler outcome.status choice

  -- A stage that is not an exit: from the quality control to the next node.
  unfoldable pub run_stage : PipelineNode → ResolvedNode → Run env cfg logs Step
  unfolding enter_quality invoke_node note_footprint record_outcome charge apply_outcome advance
  run_stage node resolved = do
    if is_quality resolved.handler then enter_quality node.id else pure tt
    outcome ← invoke_node env cfg logs node resolved
    modify (note_footprint node.id (is_quality resolved.handler) outcome)
    modify (record_outcome env cfg logs node.id outcome)
    modify (charge (cost_of node.id outcome))
    apply_outcome env cfg logs node.id outcome
    advance node.id (handler_name resolved.handler) outcome

  unfoldable pub stop_before : Text → Text → Run env cfg logs Step
  unfolding emit save
  stop_before id source = do
    emit env cfg logs (stop_requested source)
    previous ← gets (λ (s : RunState W). s.prev_node_id)
    save env cfg logs id previous
    pure (done (stopped id))

  unfoldable pub compiled_stage : PipelineNode → Option ResolvedNode → Run env cfg logs Step
  unfolding run_stage
  compiled_stage node none = pure (done panicked)
  compiled_stage node (some resolved) = run_stage node resolved

  unfoldable pub stage_or_stop : PipelineNode → Option Text → Run env cfg logs Step
  unfolding stop_before compiled_stage
  stage_or_stop node (some source) = stop_before node.id source
  stage_or_stop node none = compiled_stage node (Plan.node cfg.plan node.id)

  unfoldable pub stage_step : PipelineNode → Run env cfg logs Step
  unfolding stage_or_stop
  stage_step node = do
    request ← ask env cfg logs env.stop_file
    stage_or_stop node (stop_request_source request)

  -- One turn of the loop.
  unfoldable pub turn : PipelineNode → Run env cfg logs Step
  unfolding exit_step stage_step
  turn node s =
      if env.floats.gt s.progress.total_cost cfg.max_budget
      then (err (budget_exhausted s.progress.total_cost cfg.max_budget), s)
      else if is_exit cfg.plan node.id
      then exit_step node s
      else stage_step node s
