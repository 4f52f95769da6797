-- ===== src/Engine/Run.antt =====
-- `run_inner` of crates/attractor-pipeline/src/engine.rs: the checks before a run, the start or the
-- resumption from a checkpoint, the loop, and the end of the run.
use pascals_discrete_attract.Base.{
  ℕ, zero, suc, ◌^◌, ◌-◌, min, Text, Map, Bool, not, List, [], ◌∷◌, ◌++◌, Option, none, some, codes,
  keep, keys, sort_by, join, length, if◌then◌else◌,
}
use pascals_discrete_attract.Types.Values.{Json}
use pascals_discrete_attract.Types.Errors.{AttractorError, validation_error, other, Result, ok, err}
use pascals_discrete_attract.Types.Display.{display}
use pascals_discrete_attract.Types.Store
use pascals_discrete_attract.Graph.{PipelineNode}
use pascals_discrete_attract.Graph
use pascals_discrete_attract.Plan.{fingerprint}
use pascals_discrete_attract.Plan.Registry.{registry_diagnostics}
use pascals_discrete_attract.Validation.{validate_plan}
use pascals_discrete_attract.Validation.Diagnostics.{error_messages}
use pascals_discrete_attract.Checkpoint.{
  PipelineCheckpoint, load_checkpoint, validate_checkpoint, clear_checkpoint, ClearFault,
}
use pascals_discrete_attract.Engine.Exec.{pure, raise, gets, lift, modify, ◌>>=◌, ◌>>◌}
use pascals_discrete_attract.Engine.Events.{pipeline_started, pipeline_completed, pipeline_failed}
use pascals_discrete_attract.Engine.Keys.{is_reserved_key}
use pascals_discrete_attract.Engine.State.{RunConfiguration, Environment, RunState, PipelineResult}
use pascals_discrete_attract.Engine.Invoke.{Run, ask, emit}
use pascals_discrete_attract.Engine.Stage.{Ending, finished, panicked, stopped, again, done, turn}

-- What a run returns: a result, or (not a value of the source) a panic or too little fuel.
pub data RunEnd : Type 0 where
  returned : PipelineResult → RunEnd
  crashed out_of_fuel : RunEnd

abbrev refuse_if : List Text → (List Text → AttractorError) → Result (Unit {0})
refuse_if [] e = ok tt
refuse_if (m ∷ ms) e = err (e (m ∷ ms))

abbrev refused : List Text → AttractorError
refused messages = validation_error (join (codes "; ") messages)

abbrev reserved_input : List Text → AttractorError
reserved_input ks =
    validation_error
      (codes "canonical workflow input contains reserved context key(s): " ++ join (codes ", ") ks)

abbrev pub unreserved : Map Json → Map Json
unreserved m = keep (λ (p : Text × Json). not (is_reserved_key p.0)) m

abbrev pub or_own : Option Text → Option Text → Option Text
or_own (some t) theirs = some t
or_own none theirs = theirs

module _ {W : Type 0} (env : Environment W) (cfg : RunConfiguration) (logs : Bool) where
  -- What `validate_plan` has against the plan.
  abbrev pub plan_errors : List Text
  plan_errors = error_messages (validate_plan env.floats env.unicode.is_alphanumeric cfg.plan)

  unfoldable pub after_plan : List Text → RunState W → Result (Unit {0})
  after_plan [] s =
      refuse_if (sort_by (λ k. k) (keep is_reserved_key (keys (Store.snapshot s.context))))
        reserved_input
  after_plan (m ∷ ms) s = err (refused (m ∷ ms))

  unfoldable pub after_registry : List Text → RunState W → Result (Unit {0})
  unfolding after_plan
  after_registry [] s = after_plan plan_errors s
  after_registry (m ∷ ms) s = err (refused (m ∷ ms))

  -- The checks that come before the first event.
  unfoldable pub preflight : RunState W → Result (Unit {0})
  unfolding after_registry
  preflight s = after_registry (registry_diagnostics cfg.plan env.capabilities) s

  -- The variables of the run, as a checkpoint has them.
  unfoldable pub restore : PipelineCheckpoint → RunState W → RunState W
  restore cp s = record s {
    context = Store.apply_updates (unreserved cp.context_snapshot) s.context;
    completed_nodes = cp.completed_nodes;
    node_outcomes = cp.node_outcomes;
    quality_loop_counters = cp.quality_loop_counters;
    quality_last_footprint = cp.quality_last_footprint;
    prev_node_id = cp.previous_node_id;
    run_id = or_own s.run_id cp.run_id;
    progress = record {
      step_count = cp.step_count;
      total_cost = cp.total_cost;
      total_handler_attempts = cp.total_handler_attempts;
      active_node_id = cp.active_node_id;
      active_node_attempts = cp.active_node_attempts;
    };
  }

  abbrev lost_node : Text → AttractorError
  lost_node id = other (
      codes "Checkpoint node '"
      ++ (id ++ codes "' not found in graph — was the .dot file changed?"))

  -- A checkpoint of this plan is restored; the run goes on at its node.
  unfoldable pub resume : PipelineNode → Option PipelineCheckpoint → Run env cfg logs PipelineNode
  resume start none = pure start
  resume start (some cp) = do
    lift (validate_checkpoint cp (fingerprint env.blake3 cfg.plan) env.checkpoint_path)
    modify (restore cp)
    elim (Graph.node cfg.plan.graph cp.current_node_id) [
      | some n ↦ pure n
      | none ↦ raise (lost_node cp.current_node_id)
    ]

  unfoldable pub merge_defaults : RunState W → RunState W
  merge_defaults s = record s { context = Store.apply_updates cfg.graph_context_defaults s.context }

  unfoldable pub resume_saved : PipelineNode → Run env cfg logs PipelineNode
  unfolding resume
  resume_saved start =
      if logs
      then (do
        fault ← ask env cfg logs env.load_fault
        disk ← gets (λ (s : RunState W). s.disk)
        saved ← lift (load_checkpoint env.decode fault disk)
        resume start saved)
      else pure start

  -- Phase 3 and the start of phase 4: the node to begin with, none where `expect` panics.
  unfoldable pub initialise : Run env cfg logs (Option PipelineNode)
  unfolding merge_defaults resume_saved
  initialise = do
    modify merge_defaults
    elim (Graph.node cfg.plan.graph cfg.plan.start_id) [
      | none ↦ pure none
      | some start ↦ (do node ← resume_saved start; pure (some node))
    ]

  -- The loop, on fuel.
  unfoldable pub loop : ℕ → PipelineNode → Run env cfg logs (Option Ending)
  loop zero node = pure none
  loop (suc fuel) node = do
    step ← turn env cfg logs node
    elim step [ again next ↦ loop fuel next | done ending ↦ pure (some ending) ]

  unfoldable pub result_of : Option Text → RunState W → PipelineResult
  result_of before s = record {
    completed_nodes = s.completed_nodes;
    node_outcomes = s.node_outcomes;
    final_context = Store.snapshot s.context;
    total_cost = s.progress.total_cost;
    stopped_before = before;
  }

  remove_checkpoint : Option ClearFault → Run env cfg logs (Unit {0})
  remove_checkpoint fault s =
      let (r, disk) = clear_checkpoint fault s.disk in (r, record s { disk = disk })

  unfoldable pub clear_saved : Run env cfg logs (Unit {0})
  unfolding remove_checkpoint
  clear_saved =
      if logs
      then (do fault ← ask env cfg logs env.clear_fault; remove_checkpoint fault)
      else pure tt

  -- Phase 5: the checkpoint is cleared, unless the run was stopped.
  unfoldable pub finalise : Option Ending → Run env cfg logs RunEnd
  unfolding clear_saved
  finalise none = pure out_of_fuel
  finalise (some panicked) = pure crashed
  finalise (some (stopped id)) = do result ← gets (result_of (some id)); pure (returned result)
  finalise (some finished) = do clear_saved; result ← gets (result_of none); pure (returned result)

  -- The part of the run inside the `async` block.
  unfoldable pub execute : ℕ → Run env cfg logs RunEnd
  unfolding initialise
  execute fuel = do
    begin ← initialise
    elim begin [ none ↦ pure crashed | some node ↦ (do ending ← loop fuel node; finalise ending) ]

  abbrev name : Text
  name = cfg.plan.graph.name

  unfoldable pub completed : PipelineResult → Run env cfg logs RunEnd
  completed result = do
    duration ← gets (λ s. min (env.elapsed_ms s.world) (2 ^ 64 - 1))
    emit env cfg logs (pipeline_completed name result.completed_nodes duration)
    pure (returned result)

  unfoldable pub report_result : PipelineResult → Option Text → Run env cfg logs RunEnd
  unfolding completed
  report_result result (some id) = pure (returned result)
  report_result result none = completed result

  unfoldable pub report : Result RunEnd → Run env cfg logs RunEnd
  unfolding report_result
  report (err error) = do
    emit env cfg logs (pipeline_failed name (display env.floats error))
    raise error
  report (ok crashed) = pure crashed
  report (ok out_of_fuel) = pure out_of_fuel
  report (ok (returned result)) = report_result result result.stopped_before

  -- The last event of the run tells how it ended.
  unfoldable pub conclude : Result RunEnd × RunState W → Result RunEnd × RunState W
  unfolding report
  conclude (result, s) = report result s

  abbrev broken_journal : Text → AttractorError
  broken_journal error = other (codes "cannot write Run Journal " ++ error)

  unfoldable pub started : ℕ → Option Text → Run env cfg logs RunEnd
  unfolding conclude execute emit
  started fuel (some error) s =
      (do
        emit env cfg logs (pipeline_failed name (display env.floats (broken_journal error)))
        raise (broken_journal error))
        s
  started fuel none s = conclude (
      execute fuel (record s {
        events = s.events ++ pipeline_started name (length cfg.plan.graph.nodes) ∷ [];
      }))

  unfoldable pub checked : ℕ → Result (Unit {0}) → Run env cfg logs RunEnd
  unfolding started
  checked fuel (err e) = raise e
  checked fuel (ok u) = do fault ← ask env cfg logs env.journal_fault; started fuel fault

  -- `run_inner`.
  unfoldable pub run_inner : ℕ → Run env cfg logs RunEnd
  unfolding checked preflight
  run_inner fuel = do verdict ← gets preflight; checked fuel verdict
