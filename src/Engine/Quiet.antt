-- ===== src/Engine/Quiet.antt =====
-- The frame of the other actions of `invoke_node` (crates/attractor-pipeline/src/engine.rs).
use pascals_discrete_attract.Base.{
  ℕ, ◌+◌, ◌-◌, ◌^◌, min, ltb, Text, Bool, ◌&&◌, List, [], ◌∷◌, Option, none, some, ◌≡◌, refl, inl,
  inr, Bool-cases, ◌==◌,
}
use pascals_discrete_attract.Types.{Outcome}
use pascals_discrete_attract.Types.Errors.{Result, ok, err, is_retryable}
use pascals_discrete_attract.Graph.{PipelineNode}
use pascals_discrete_attract.Plan.{ResolvedNode, handler_name}
use pascals_discrete_attract.Checkpoint.{PipelineCheckpoint, SaveFault}
use pascals_discrete_attract.Engine.Exec.{gets, modify, ◌>>=◌, ◌>>◌}
use pascals_discrete_attract.Engine.Events.{
  PipelineEvent, CommitRef, checkpoint_saved, stage_started, stage_retrying, commits_created,
}
use pascals_discrete_attract.Engine.State.{RunConfiguration, Environment, RunState}
use pascals_discrete_attract.Engine.Invoke.{
  ask, emit, snapshot_of, write_checkpoint, save, mark_used, absorb, perform_within, perform,
  commits_since, report_commits, emit_run_commits, run_handler, claimed_task, add_cost,
  charge_retry, settle, activate, same_node, is_retry, or_text, task_of, cost_of,
}
use pascals_discrete_attract.Engine.Frames.{
  Moves-events, Moves-quiet, Moves-refl, Follows, Follows-bind, Follows-if,
}

module _ {W : Type 0} (env : Environment W) (cfg : RunConfiguration) (logs : Bool) (limit : ℕ) where
  pub emit-Follows : (e : PipelineEvent) → Follows limit (emit env cfg logs e)
  unfolding emit
  emit-Follows e s = Moves-events limit s (emit env cfg logs e s).1 (e ∷ []) refl refl refl

  pub ask-Follows : {A : Type 0} (f : W → A × W) → Follows limit (ask env cfg logs f)
  ask-Follows f s = Moves-quiet limit s (ask env cfg logs f s).1 refl refl refl

  pub gets-Follows : {A : Type 0} (f : RunState W → A) → Follows limit (gets f)
  gets-Follows f s = Moves-refl limit s

  pub quiet-Follows :
      (f : RunState W → RunState W)
      → ((s : RunState W) → (f s).progress.step_count ≡ s.progress.step_count)
      → ((s : RunState W)
          → (f s).progress.total_handler_attempts ≡ s.progress.total_handler_attempts)
      → ((s : RunState W) → (f s).events ≡ s.events)
      → Follows limit (modify f)
  quiet-Follows f p q r s = Moves-quiet limit s (f s) (p s) (q s) (r s)

  write_checkpoint-Follows :
      (cp : PipelineCheckpoint) (fault : Option SaveFault)
      → Follows limit (write_checkpoint env cfg logs cp fault)
  unfolding write_checkpoint
  write_checkpoint-Follows cp fault s =
      Moves-quiet limit s (write_checkpoint env cfg logs cp fault s).1 refl refl refl

  pub save-Follows :
      (id : Text) (previous : Option Text) → Follows limit (save env cfg logs id previous)
  unfolding save
  save-Follows id previous =
      Follows-if limit logs _ _
        (Follows-bind limit _ _ (gets-Follows (snapshot_of env cfg logs id previous)) λ cp.
          Follows-bind limit _ _ (ask-Follows env.save_fault) λ fault.
            Follows-bind limit _ _ (write_checkpoint-Follows cp fault)
              λ u. emit-Follows (checkpoint_saved id))
        (Moves-refl limit)

  pub add_cost-Follows : (cost : ℕ) → Follows limit (modify (add_cost env cfg logs cost))
  unfolding add_cost
  add_cost-Follows cost =
      quiet-Follows (add_cost env cfg logs cost) (λ s. refl) (λ s. refl) (λ s. refl)

  mark_used-Follows : (attempt : ℕ) → Follows limit (modify (mark_used env cfg logs attempt))
  unfolding mark_used
  mark_used-Follows attempt =
      quiet-Follows (mark_used env cfg logs attempt) (λ s. refl) (λ s. refl) (λ s. refl)

  pub saving-Follows :
      (id : Text) (previous : Option Text) (attempt : ℕ)
      → Follows limit (save env cfg logs id previous >> modify (mark_used env cfg logs attempt))
  saving-Follows id previous attempt =
      Follows-bind limit _ _ (save-Follows id previous) λ u. mark_used-Follows attempt

  perform_within-Follows :
      (timeout : Option ℕ) (node : PipelineNode) (resolved : ResolvedNode)
      → Follows limit (perform_within env cfg logs timeout node resolved)
  unfolding perform_within absorb
  perform_within-Follows none node resolved s =
      Moves-events limit s (perform_within env cfg logs none node resolved s).1
        (env.execute node resolved s.context s.world).emitted refl refl refl
  perform_within-Follows (some t) node resolved s =
      Moves-events limit s (perform_within env cfg logs (some t) node resolved s).1
        (env.execute_within t node resolved s.context s.world).emitted refl refl refl

  perform-Follows :
      (node : PipelineNode) (resolved : ResolvedNode)
      → Follows limit (perform env cfg logs node resolved)
  unfolding perform
  perform-Follows node resolved = perform_within-Follows resolved.invocation.timeout node resolved

  report_commits-Follows :
      (id : Text) (task : Option Text) (commits : Option (List CommitRef))
      → Follows limit (report_commits env cfg logs id task commits)
  unfolding report_commits
  report_commits-Follows id task none = Moves-refl limit
  report_commits-Follows id task (some []) = Moves-refl limit
  report_commits-Follows id task (some (c ∷ cs)) = emit-Follows (commits_created id task (c ∷ cs))

  commits_since-Follows :
      (id : Text) (task : Option Text) (before : Text) (after : Option Text)
      → Follows limit (commits_since env cfg logs id task before after)
  unfolding commits_since
  commits_since-Follows id task before none = Moves-refl limit
  commits_since-Follows id task before (some after) =
      Follows-if limit (after == before) _ _ (Moves-refl limit) (
        Follows-bind limit _ _ (ask-Follows (env.commits_between before after))
          λ commits. report_commits-Follows id task commits)

  emit_run_commits-Follows :
      (id : Text) (before task : Option Text)
      → Follows limit (emit_run_commits env cfg logs id before task)
  unfolding emit_run_commits
  emit_run_commits-Follows id none task = Moves-refl limit
  emit_run_commits-Follows id (some before) task =
      Follows-bind limit _ _ (ask-Follows env.head)
        λ after. commits_since-Follows id task before after

  run_handler-Follows :
      (node : PipelineNode) (resolved : ResolvedNode)
      → Follows limit (run_handler env cfg logs node resolved)
  unfolding run_handler
  run_handler-Follows node resolved = Follows-bind limit _ _ (ask-Follows env.head) λ before.
      Follows-bind limit _ _ (gets-Follows (λ s. claimed_task env cfg logs s.context))
        λ task_before.
          Follows-bind limit _ _
            (emit-Follows (stage_started node.id (handler_name resolved.handler)))
            λ u. Follows-bind limit _ _ (perform-Follows node resolved) λ result.
              Follows-bind limit _ _
                (gets-Follows (λ s. or_text (task_of env cfg logs result s.context) task_before))
                λ task.
                  Follows-bind limit _ _ (emit_run_commits-Follows node.id before task)
                    λ v. Moves-refl limit

  charge_retry-Follows :
      (id : Text) (cost : Option ℕ) → Follows limit (charge_retry env cfg logs id cost)
  unfolding charge_retry
  charge_retry-Follows id none s = Moves-refl limit s
  charge_retry-Follows id (some cost) s =
      Follows-bind limit (modify (add_cost env cfg logs cost))
        (λ u. save env cfg logs id s.prev_node_id) (add_cost-Follows cost)
        (λ u. save-Follows id s.prev_node_id) s

  settle-Follows :
      (node : PipelineNode) (attempt : ℕ) (more : Bool) (r : Result Outcome)
      → Follows limit (settle env cfg logs node attempt more r)
  unfolding settle
  settle-Follows node attempt more (ok outcome) =
      Follows-if limit (is_retry outcome.status && more) _ _
        (Follows-bind limit _ _ (charge_retry-Follows node.id (cost_of node.id outcome)) λ u.
          Follows-bind limit _ _ (emit-Follows (stage_retrying node.id (attempt + 2)))
            λ v. Moves-refl limit)
        (Follows-bind limit _ _
          (gets-Follows λ (s : RunState W). min (env.elapsed_ms s.world) (2 ^ 64 - 1))
          λ duration. Follows-bind limit _ _ (emit-Follows _) λ u. Moves-refl limit)
  settle-Follows node attempt more (err error) =
      Follows-if limit (is_retryable error && more) _ _
        (Follows-bind limit _ _ (emit-Follows _)
          λ u. Follows-bind limit _ _ (emit-Follows _) λ v. Moves-refl limit)
        (Follows-bind limit _ _ (emit-Follows _) λ u. Moves-refl limit)

  pub settled-Follows :
      (node : PipelineNode) (resolved : ResolvedNode) (attempt : ℕ)
      → Follows limit (
          run_handler env cfg logs node resolved >>= λ r.
          settle env cfg logs node attempt (ltb (attempt + 1) resolved.invocation.max_attempts) r)
  settled-Follows node resolved attempt =
      Follows-bind limit _ _ (run_handler-Follows node resolved)
        λ r. settle-Follows node attempt _ r

  pub activate-Follows : (id : Text) → Follows limit (modify (activate env cfg logs id))
  unfolding activate
  activate-Follows id s = elim (Bool-cases (same_node s.progress.active_node_id id)) [
    | inl p ↦ rw p (Moves-refl limit s)
    | inr p ↦ rw p (Moves-quiet limit s _ refl refl refl)
  ]
