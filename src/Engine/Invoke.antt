-- ===== src/Engine/Invoke.antt =====
-- `CheckpointData::save`, `invoke_node` and `emit_run_commits` of
-- crates/attractor-pipeline/src/engine.rs. The pause before a retry changes no state.
use pascals_discrete_attract.Base.{
  ℕ, zero, suc, ◌+◌, ◌-◌, ◌^◌, min, Text, Bool, true, false, ◌&&◌, List, [], ◌∷◌, ◌++◌, Option,
  none, some, codes, ◌==◌, leb, ltb, lookup, is_some, if◌then◌else◌,
}
use pascals_discrete_attract.Types.{Outcome, StageStatus, retry}
use pascals_discrete_attract.Types.Values.{as_f64}
use pascals_discrete_attract.Types.Errors.{
  AttractorError, handler_error, retries_exhausted, max_steps_exceeded, budget_exhausted,
  command_timeout, is_retryable, Result, ok, err,
}
use pascals_discrete_attract.Types.Display.{display}
use pascals_discrete_attract.Types.Store
use pascals_discrete_attract.Graph.{PipelineNode}
use pascals_discrete_attract.Plan.{ResolvedNode, handler_name, fingerprint}
use pascals_discrete_attract.Checkpoint.{
  PipelineCheckpoint, SaveFault, with_quality_counters, save_checkpoint,
}
use pascals_discrete_attract.Engine.Exec.{Exec, pure, raise, gets, modify, ◌>>=◌, ◌>>◌}
use pascals_discrete_attract.Engine.Events.{
  PipelineEvent, CommitRef, stage_started, stage_completed, stage_failed, stage_retrying,
  checkpoint_saved, commits_created,
}
use pascals_discrete_attract.Engine.Keys.{status_to_string, task_id_key, task_id_value}
use pascals_discrete_attract.Engine.State.{RunConfiguration, Attempt, Environment, RunState}

abbrev pub is_retry : StageStatus → Bool
is_retry retry = true
is_retry _ = false

abbrev pub same_node : Option Text → Text → Bool
same_node none id = false
same_node (some active) id = active == id

abbrev pub cost_of : Text → Outcome → Option ℕ
cost_of id outcome = elim (lookup (id ++ codes ".cost_usd") outcome.context_updates) [
  | none ↦ none
  | some v ↦ as_f64 v
]

abbrev pub or_text : Option Text → Option Text → Option Text
or_text (some t) other = some t
or_text none other = other

module _ {W : Type 0} (env : Environment W) (cfg : RunConfiguration) (logs : Bool) where
  abbrev pub Run : Type 0 → Type 0
  Run A = Exec (RunState W) A

  abbrev pub ask : {A : Type 0} → (W → A × W) → Run A
  ask f s = let (a, w) = f s.world in (ok a, record s { world = w })

  unfoldable pub emit : PipelineEvent → Run (Unit {0})
  emit e s = (ok tt, record s { events = s.events ++ e ∷ [] })

  -- The checkpoint that `save` builds.
  unfoldable pub snapshot_of : Text → Option Text → RunState W → PipelineCheckpoint
  snapshot_of current previous s =
      record (with_quality_counters (env.now s.world) current s.completed_nodes s.node_outcomes
        (Store.snapshot s.context) s.progress.step_count s.progress.total_cost
        s.quality_loop_counters s.quality_last_footprint previous
        (some (fingerprint env.blake3 cfg.plan))) {
          run_id = s.run_id;
          total_handler_attempts = s.progress.total_handler_attempts;
          active_node_id = s.progress.active_node_id;
          active_node_attempts = s.progress.active_node_attempts;
        }

  unfoldable pub write_checkpoint : PipelineCheckpoint → Option SaveFault → Run (Unit {0})
  write_checkpoint cp fault s =
      let (r, disk) = save_checkpoint env.encode fault cp s.disk in (r, record s { disk = disk })

  -- `CheckpointData::save`.
  unfoldable pub save : Text → Option Text → Run (Unit {0})
  unfolding emit snapshot_of write_checkpoint
  save current previous =
      if logs
      then (do
        cp ← gets (snapshot_of current previous)
        fault ← ask env.save_fault
        write_checkpoint cp fault
        emit (checkpoint_saved current))
      else pure tt

  -- The guards of an attempt, its count, and the checkpoint before the handler runs.
  unfoldable pub count_attempt : Text → ℕ → RunState W → RunState W
  count_attempt handler attempt s = record s {
    progress = record s.progress {
      step_count = s.progress.step_count + 1;
      total_handler_attempts = s.progress.total_handler_attempts + 1;
      active_node_attempts =
          if env.resumes_interrupted_attempt handler then attempt else attempt + 1;
    };
  }

  unfoldable pub mark_used : ℕ → RunState W → RunState W
  mark_used attempt s = record s {
    progress = record s.progress { active_node_attempts = attempt + 1 };
  }

  unfoldable pub begin_attempt : Text → Text → ℕ → Run (Unit {0})
  begin_attempt node_id handler attempt s =
      if leb cfg.max_steps s.progress.step_count
      then (err (max_steps_exceeded cfg.max_steps), s)
      else if env.floats.gt s.progress.total_cost cfg.max_budget
      then (err (budget_exhausted s.progress.total_cost cfg.max_budget), s)
      else (do
        modify (count_attempt handler attempt)
        save node_id s.prev_node_id
        modify (mark_used attempt))
          s

  unfoldable pub absorb : {A : Type 0} → Attempt W A → RunState W → A × RunState W
  absorb a s =
      (a.result, record s { context = a.context; events = s.events ++ a.emitted; world = a.world })

  abbrev timed : ℕ → Option (Result Outcome) → Result Outcome
  timed timeout none = err (command_timeout (min timeout (2 ^ 64 - 1)))
  timed timeout (some r) = r

  unfoldable pub perform_within : Option ℕ → PipelineNode → ResolvedNode → Run (Result Outcome)
  unfolding absorb
  perform_within none node resolved s =
      let (r, s') = absorb (env.execute node resolved s.context s.world) s in (ok r, s')
  perform_within (some timeout) node resolved s =
      let (r, s') = absorb (env.execute_within timeout node resolved s.context s.world) s in
      (ok (timed timeout r), s')

  -- The handler, under its timeout.
  unfoldable pub perform : PipelineNode → ResolvedNode → Run (Result Outcome)
  unfolding perform_within
  perform node resolved = perform_within resolved.invocation.timeout node resolved

  unfoldable pub claimed_task : Store.Context → Option Text
  claimed_task context = task_id_value (Store.get task_id_key context)

  -- The task of an attempt's commits: what the outcome says of it, else the context.
  abbrev pub task_of : Result Outcome → Store.Context → Option Text
  task_of (err e) context = claimed_task context
  task_of (ok outcome) context = elim (lookup task_id_key outcome.context_updates) [
    | none ↦ claimed_task context
    | some v ↦ task_id_value (some v)
  ]

  unfoldable pub report_commits : Text → Option Text → Option (List CommitRef) → Run (Unit {0})
  report_commits node_id task none = pure tt
  report_commits node_id task (some []) = pure tt
  report_commits node_id task (some (c ∷ cs)) = emit (commits_created node_id task (c ∷ cs))

  unfoldable pub commits_since : Text → Option Text → Text → Option Text → Run (Unit {0})
  commits_since node_id task before none = pure tt
  commits_since node_id task before (some after) = if after == before then pure tt else (do
    commits ← ask (env.commits_between before after)
    report_commits node_id task commits)

  unfoldable pub emit_run_commits : Text → Option Text → Option Text → Run (Unit {0})
  unfolding commits_since report_commits
  emit_run_commits node_id none task = pure tt
  emit_run_commits node_id (some before) task = do
    after ← ask env.head
    commits_since node_id task before after

  -- One execution of the handler, with the commits it made.
  unfoldable pub run_handler : PipelineNode → ResolvedNode → Run (Result Outcome)
  unfolding emit perform emit_run_commits claimed_task
  run_handler node resolved = do
    head_before ← ask env.head
    task_before ← gets (λ s. claimed_task s.context)
    emit (stage_started node.id (handler_name resolved.handler))
    result ← perform node resolved
    task ← gets (λ s. or_text (task_of result s.context) task_before)
    emit_run_commits node.id head_before task
    pure result

  unfoldable pub add_cost : ℕ → RunState W → RunState W
  add_cost cost s = record s {
    progress = record s.progress { total_cost = env.floats.add s.progress.total_cost cost };
  }

  -- A retry outcome may report a cost, which is counted and saved.
  unfoldable pub charge_retry : Text → Option ℕ → Run (Unit {0})
  charge_retry node_id none s = (ok tt, s)
  charge_retry node_id (some cost) s = (do modify (add_cost cost); save node_id s.prev_node_id) s

  -- What follows an attempt: the outcome, an error, or (none) another attempt.
  unfoldable pub settle : PipelineNode → ℕ → Bool → Result Outcome → Run (Option Outcome)
  unfolding emit charge_retry
  settle node attempt has_more (ok outcome) =
      if is_retry outcome.status && has_more
      then (do
        charge_retry node.id (cost_of node.id outcome)
        emit (stage_retrying node.id (attempt + 2))
        pure none)
      else (do
        duration ← gets (λ s. min (env.elapsed_ms s.world) (2 ^ 64 - 1))
        emit (stage_completed node.id (status_to_string outcome.status) duration)
        pure (some outcome))
  settle node attempt has_more (err error) =
      if is_retryable error && has_more
      then (do
        emit (stage_failed node.id (display env.floats error))
        emit (stage_retrying node.id (attempt + 2))
        pure none)
      else (do emit (stage_failed node.id (display env.floats error)); raise error)

  unfoldable pub attempt_once : PipelineNode → ResolvedNode → ℕ → Run (Option Outcome)
  unfolding begin_attempt run_handler settle
  attempt_once node resolved attempt = do
    begin_attempt node.id (handler_name resolved.handler) attempt
    result ← run_handler node resolved
    settle node attempt (ltb (attempt + 1) resolved.invocation.max_attempts) result

  -- The `for` loop over the attempts that are left.
  unfoldable pub attempts : ℕ → ℕ → PipelineNode → ResolvedNode → Run Outcome
  attempts zero attempt node resolved =
      raise (retries_exhausted node.id resolved.invocation.max_attempts)
  attempts (suc left) attempt node resolved = do
    done ← attempt_once node resolved attempt
    elim done [ some outcome ↦ pure outcome | none ↦ attempts left (attempt + 1) node resolved ]

  unfoldable pub activate : Text → RunState W → RunState W
  activate id s = if same_node s.progress.active_node_id id then s else record s {
    progress = record s.progress { active_node_id = some id; active_node_attempts = 0 };
  }

  abbrev no_handler : Text → Text → AttractorError
  no_handler handler node_id =
      handler_error handler node_id
        (codes "No handler registered for type '" ++ (handler ++ codes "'"))

  abbrev pub invoke_active : PipelineNode → ResolvedNode → ℕ → Run Outcome
  invoke_active node resolved used =
      if leb resolved.invocation.max_attempts used
      then raise (retries_exhausted node.id resolved.invocation.max_attempts)
      else attempts (resolved.invocation.max_attempts - used) used node resolved

  -- `invoke_node`.
  unfoldable pub invoke_node : PipelineNode → ResolvedNode → Run Outcome
  unfolding attempts activate
  invoke_node node resolved =
      if is_some (lookup (handler_name resolved.handler) env.capabilities)
      then (do
        modify (activate node.id)
        used ← gets (λ s. s.progress.active_node_attempts)
        invoke_active node resolved used)
      else raise (no_handler (handler_name resolved.handler) node.id)
