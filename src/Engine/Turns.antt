-- ===== src/Engine/Turns.antt =====
-- The frame of the actions that make a turn of the loop (crates/attractor-pipeline/src/engine.rs).
use pascals_discrete_attract.Base.{
  ℕ, Text, Bool, true, false, ◌&&◌, Map, List, [], ◌∷◌, Option, none, some, refl, inl, inr,
  Bool-cases, ltb, if◌then◌else◌, codes,
}
use pascals_discrete_attract.Types.{Outcome, StageStatus}
use pascals_discrete_attract.Types.Values.{Json}
use pascals_discrete_attract.Types.Errors.{Result}
use pascals_discrete_attract.Types.Store
use pascals_discrete_attract.Graph.{PipelineNode}
use pascals_discrete_attract.Graph
use pascals_discrete_attract.Graph.Edges.{PipelineEdge}
use pascals_discrete_attract.Plan.{ResolvedNode, handler_name, is_exit, is_quality}
use pascals_discrete_attract.Plan
use pascals_discrete_attract.GoalGate.{enforce_goal_gates}
use pascals_discrete_attract.Engine.Exec.{pure, lift, modify, ◌>>◌}
use pascals_discrete_attract.Engine.Events.{PipelineEvent}
use pascals_discrete_attract.Engine.Keys.{apply_handler_updates}
use pascals_discrete_attract.Engine.State.{RunConfiguration, Environment, RunState}
use pascals_discrete_attract.Engine.Invoke.{Run, cost_of}
use pascals_discrete_attract.Engine.Stage.{
  Step, stop_request_source, gate_events, gate_jump, is_fail, failure_footprint, record_outcome,
  clear_active, set_context, report_updates, apply_outcome, node_or_error, find_node, emit_all,
  run_exit, exit_handler, jump_or_exit, exit_step, count_entry, iteration, within_fixes,
  enter_quality, keep_footprint, note_footprint, charge, restart, reset_quality, came_from, follow,
  dead_end, leave, selected, advance, run_stage, stop_before, compiled_stage, stage_or_stop,
  stage_step, turn,
}
use pascals_discrete_attract.Engine.Frames.{
  Moves-events, Moves-quiet, Moves-refl, Follows, Follows-bind, Follows-if, Gains, Gains-first,
  Gains-second,
}
use pascals_discrete_attract.Engine.Quiet.{
  emit-Follows, ask-Follows, gets-Follows, save-Follows, add_cost-Follows,
}
use pascals_discrete_attract.Engine.Steps.{invoke_node-Follows, invoke_node-Gains}

module _ {W : Type 0} (env : Environment W) (cfg : RunConfiguration) (logs : Bool) where
  abbrev max : ℕ
  max = cfg.max_steps

  lift-Follows : {A : Type 0} (r : Result A) → Follows {W = W} max (lift r)
  lift-Follows r s = Moves-refl max s

  record_outcome-Follows :
      (id : Text) (o : Outcome) → Follows max (modify (record_outcome env cfg logs id o))
  unfolding record_outcome
  record_outcome-Follows id o s = Moves-quiet max s _ refl refl refl

  clear_active-Follows : Follows max (modify (clear_active env cfg logs))
  unfolding clear_active
  clear_active-Follows s = Moves-quiet max s _ refl refl refl

  set_context-Follows : (c : Store.Context) → Follows max (modify (set_context env cfg logs c))
  unfolding set_context
  set_context-Follows c s = Moves-quiet max s _ refl refl refl

  count_entry-Follows : (id : Text) → Follows max (modify (count_entry env cfg logs id))
  unfolding count_entry
  count_entry-Follows id s = Moves-quiet max s _ refl refl refl

  came_from-Follows : (id : Text) → Follows max (modify (came_from env cfg logs id))
  unfolding came_from
  came_from-Follows id s = Moves-quiet max s _ refl refl refl

  emit_all-Follows : (es : List PipelineEvent) → Follows max (modify (emit_all env cfg logs es))
  unfolding emit_all
  emit_all-Follows es s = Moves-events max s _ es refl refl refl

  restart-Follows : (b : Bool) → Follows max (modify (restart env cfg logs b))
  unfolding restart
  restart-Follows false s = Moves-refl max s
  restart-Follows true s = Moves-quiet max s _ refl refl refl

  reset_quality-Follows : (b : Bool) → Follows max (modify (reset_quality env cfg logs b))
  unfolding reset_quality
  reset_quality-Follows false s = Moves-refl max s
  reset_quality-Follows true s = Moves-quiet max s _ refl refl refl

  keep_footprint-Follows :
      (id : Text) (fp : Option Text) → Follows max (modify (keep_footprint env cfg logs id fp))
  unfolding keep_footprint
  keep_footprint-Follows id none s = Moves-refl max s
  keep_footprint-Follows id (some fp) s = Moves-quiet max s _ refl refl refl

  note_footprint-Follows :
      (id : Text) (q : Bool) (o : Outcome)
      → Follows max (modify (note_footprint env cfg logs id q o))
  unfolding note_footprint
  note_footprint-Follows id q o s = elim (Bool-cases (q && is_fail o.status)) [
    | inl p ↦ rw p (keep_footprint-Follows id (failure_footprint id o) s)
    | inr p ↦ rw p (Moves-refl max s)
  ]

  charge-Follows : (c : Option ℕ) → Follows max (modify (charge env cfg logs c))
  unfolding charge
  charge-Follows none s = Moves-refl max s
  charge-Follows (some c) s = add_cost-Follows env cfg logs max c s

  report_updates-Follows :
      (id : Text) (us : Map Json) → Follows max (report_updates env cfg logs id us)
  unfolding report_updates
  report_updates-Follows id [] = Moves-refl max
  report_updates-Follows id (u ∷ us) = emit-Follows env cfg logs max _

  apply_outcome-Follows : (id : Text) (o : Outcome) → Follows max (apply_outcome env cfg logs id o)
  unfolding apply_outcome
  apply_outcome-Follows id o =
      Follows-bind max _ _
        (gets-Follows env cfg logs max λ (s : RunState W). apply_handler_updates s.context id o)
        λ r. Follows-bind max _ _ (lift-Follows r) λ c.
          Follows-bind max _ _ (set_context-Follows c)
            λ u. report_updates-Follows id o.context_updates

  find_node-Follows : (what id : Text) → Follows max (find_node env cfg logs what id)
  unfolding find_node
  find_node-Follows what id = found (Graph.node cfg.plan.graph id)
    where
      found : (n : Option PipelineNode) → Follows max (node_or_error env cfg logs what id n)
      found none = Moves-refl max
      found (some n) = Moves-refl max

  run_exit-Follows : (n : PipelineNode) (r : ResolvedNode) → Follows max (run_exit env cfg logs n r)
  unfolding run_exit
  run_exit-Follows n r = Follows-bind max _ _ (invoke_node-Follows env cfg logs n r) λ o.
      Follows-bind max _ _ (apply_outcome-Follows n.id o) λ u.
        Follows-bind max _ _ (record_outcome-Follows n.id o)
          λ v. Follows-bind max _ _ clear_active-Follows λ w. Moves-refl max

  exit_handler-Follows :
      (n : PipelineNode) (r : Option ResolvedNode) → Follows max (exit_handler env cfg logs n r)
  unfolding exit_handler
  exit_handler-Follows n none = Moves-refl max
  exit_handler-Follows n (some r) = run_exit-Follows n r

  jump_or_exit-Follows :
      (n : PipelineNode) (t : Option Text) → Follows max (jump_or_exit env cfg logs n t)
  unfolding jump_or_exit
  jump_or_exit-Follows n none = exit_handler-Follows n (Plan.node cfg.plan n.id)
  jump_or_exit-Follows n (some t) =
      Follows-bind max _ _ (find_node-Follows (codes "Retry target") t) λ m. Moves-refl max

  pub exit_step-Follows : (n : PipelineNode) → Follows max (exit_step env cfg logs n)
  unfolding exit_step
  exit_step-Follows n =
      Follows-bind max _ _ (gets-Follows env cfg logs max λ (s : RunState W). s.node_outcomes) λ os.
        Follows-bind max _ _ (emit_all-Follows (gate_events cfg.plan.graph os)) λ u.
          Follows-bind max _ _ (lift-Follows (enforce_goal_gates cfg.plan.graph os))
            λ v. jump_or_exit-Follows n (gate_jump v)

  enter_quality-Follows : (id : Text) → Follows max (enter_quality env cfg logs id)
  unfolding enter_quality within_fixes
  enter_quality-Follows id = Follows-bind max _ _ (count_entry-Follows id) λ u.
      Follows-bind max _ _ (gets-Follows env cfg logs max (iteration env cfg logs id)) λ n.
        Follows-if max (ltb (cfg.quality_max_fix_iterations id) n) _ _ (Moves-refl max)
          (Moves-refl max)

  follow-Follows : (id : Text) (e : PipelineEdge) → Follows max (follow env cfg logs id e)
  unfolding follow
  follow-Follows id e = Follows-bind max _ _ (emit-Follows env cfg logs max _) λ u.
      Follows-bind max _ _ (restart-Follows e.loop_restart) λ v.
        Follows-bind max _ _ (reset_quality-Follows e.reset_quality_loop_state) λ w.
          Follows-bind max _ _ (find_node-Follows (codes "Edge target") e.to) λ next.
            Follows-bind max _ _ clear_active-Follows λ x.
              Follows-bind max _ _ (save-Follows env cfg logs max next.id (some id))
                λ y. Follows-bind max _ _ (came_from-Follows id) λ z. Moves-refl max

  dead_end-Follows :
      (id handler : Text) (status : StageStatus)
      → Follows max (dead_end env cfg logs id handler status)
  unfolding dead_end
  dead_end-Follows id handler status =
      Follows-if max (is_fail status) _ _ (Moves-refl max)
        (Follows-bind max _ _ clear_active-Follows λ u. Moves-refl max)

  leave-Follows :
      (id handler : Text) (status : StageStatus) (e : Option PipelineEdge)
      → Follows max (leave env cfg logs id handler status e)
  unfolding leave
  leave-Follows id handler status none = dead_end-Follows id handler status
  leave-Follows id handler status (some e) = follow-Follows id e

  advance-Follows :
      (id handler : Text) (o : Outcome) → Follows max (advance env cfg logs id handler o)
  unfolding advance
  advance-Follows id handler o =
      Follows-bind max _ _ (gets-Follows env cfg logs max (selected env cfg logs id o))
        λ e. leave-Follows id handler o.status e

  -- What a stage does once its node was invoked.
  after : PipelineNode → ResolvedNode → Outcome → Run env cfg logs Step
  after n r o = do
    modify (note_footprint env cfg logs n.id (is_quality r.handler) o)
    modify (record_outcome env cfg logs n.id o)
    modify (charge env cfg logs (cost_of n.id o))
    apply_outcome env cfg logs n.id o
    advance env cfg logs n.id (handler_name r.handler) o

  after-Follows : (n : PipelineNode) (r : ResolvedNode) (o : Outcome) → Follows max (after n r o)
  unfolding after
  after-Follows n r o =
      Follows-bind max _ _ (note_footprint-Follows n.id (is_quality r.handler) o) λ u.
        Follows-bind max _ _ (record_outcome-Follows n.id o) λ v.
          Follows-bind max _ _ (charge-Follows (cost_of n.id o)) λ w.
            Follows-bind max _ _ (apply_outcome-Follows n.id o)
              λ x. advance-Follows n.id (handler_name r.handler) o

  control-Follows :
      (n : PipelineNode) (b : Bool)
      → Follows max (if b then enter_quality env cfg logs n.id else pure tt)
  control-Follows n b = Follows-if max b _ _ (enter_quality-Follows n.id) (Moves-refl max)

  run_stage-Follows :
      (n : PipelineNode) (r : ResolvedNode) → Follows max (run_stage env cfg logs n r)
  unfolding run_stage after
  run_stage-Follows n r =
      Follows-bind max _ _ (control-Follows n (is_quality r.handler))
        λ u. Follows-bind max _ _ (invoke_node-Follows env cfg logs n r) (after-Follows n r)

  pub run_stage-Gains :
      (n : PipelineNode) (r : ResolvedNode) → Gains max (run_stage env cfg logs n r)
  unfolding run_stage after
  run_stage-Gains n r =
      Gains-second max _ _ (control-Follows n (is_quality r.handler))
        λ u. Gains-first max _ _ (invoke_node-Gains env cfg logs n r) (after-Follows n r)

  compiled_stage-Follows :
      (n : PipelineNode) (r : Option ResolvedNode) → Follows max (compiled_stage env cfg logs n r)
  unfolding compiled_stage
  compiled_stage-Follows n none = Moves-refl max
  compiled_stage-Follows n (some r) = run_stage-Follows n r

  stage_or_stop-Follows :
      (n : PipelineNode) (source : Option Text) → Follows max (stage_or_stop env cfg logs n source)
  unfolding stage_or_stop stop_before
  stage_or_stop-Follows n (some source) =
      Follows-bind max _ _ (emit-Follows env cfg logs max _) λ u.
        Follows-bind max _ _ (gets-Follows env cfg logs max λ (s : RunState W). s.prev_node_id)
          λ previous.
            Follows-bind max _ _ (save-Follows env cfg logs max n.id previous) λ v. Moves-refl max
  stage_or_stop-Follows n none = compiled_stage-Follows n (Plan.node cfg.plan n.id)

  pub stage_step-Follows : (n : PipelineNode) → Follows max (stage_step env cfg logs n)
  unfolding stage_step
  stage_step-Follows n =
      Follows-bind max _ _ (ask-Follows env cfg logs max env.stop_file)
        λ request. stage_or_stop-Follows n (stop_request_source request)

  pub turn-Follows : (n : PipelineNode) → Follows max (turn env cfg logs n)
  unfolding turn
  turn-Follows n s = elim (Bool-cases (env.floats.gt s.progress.total_cost cfg.max_budget)) [
    | inl p ↦ rw p (Moves-refl max s)
    | inr p ↦ rw p elim (Bool-cases (is_exit cfg.plan n.id)) [
      | inl q ↦ rw q (exit_step-Follows n s)
      | inr q ↦ rw q (stage_step-Follows n s)
    ]
  ]
