-- ===== src/Engine/Covered.antt =====
-- The nodes that a run comes to (`run_inner` of crates/attractor-pipeline/src/engine.rs).
use pascals_discrete_attract.Base.{
  Text, Bool, Option, none, some, ◌≡◌, refl, ap, ◌∙◌, codes, Bool-cases, inl, inr,
}
use pascals_discrete_attract.Types.{StageStatus}
use pascals_discrete_attract.Types.Errors.{Result, ok, err}
use pascals_discrete_attract.Graph.{PipelineGraph, PipelineNode}
use pascals_discrete_attract.Graph
use pascals_discrete_attract.Graph.Edges.{PipelineEdge}
use pascals_discrete_attract.Graph.Keyed.{Keyed, lookup-Keyed}
use pascals_discrete_attract.Plan.{ResolvedNode, ExecutionPlan, is_exit, handler_name}
use pascals_discrete_attract.Plan
use pascals_discrete_attract.Engine.Exec.{Exec, continue, ◌>>=◌}
use pascals_discrete_attract.Engine.State.{RunConfiguration, Environment, RunState}
use pascals_discrete_attract.Engine.Stage.{
  Step, again, done, panicked, gate_jump, find_node, run_exit, exit_handler, jump_or_exit,
  exit_step, stop_before, compiled_stage, stage_or_stop, stage_step, turn, run_stage, is_fail,
  advance, leave, follow, dead_end, stop_request_source,
}
use pascals_discrete_attract.Engine.Jumps.{node_or_error-found}

-- The start node is in the graph, and each node of the graph is compiled.
pub record Covered (plan : ExecutionPlan) : Type 0 where
  pub start : (n : PipelineNode) × (Graph.node plan.graph plan.start_id ≡ some n)
  pub nodes :
      (id : Text) (n : PipelineNode)
      → Graph.node plan.graph id ≡ some n
      → (r : ResolvedNode) × (Plan.node plan id ≡ some r)

module _ {W : Type 0} (env : Environment W) (cfg : RunConfiguration) (logs : Bool) where
  -- The node is a node of the graph, under its own id.
  abbrev pub InGraph : PipelineNode → Type 0
  InGraph n = Graph.node cfg.plan.graph n.id ≡ some n

  -- No panic, and the run goes on at a node of the graph.
  abbrev pub Fine : Result Step → Type 0
  Fine (ok (again n)) = InGraph n
  Fine (ok (done panicked)) = ⊥
  Fine (ok (done _)) = Unit
  Fine (err e) = Unit

  Fine-continue :
      {A : Type 0} (r : Result A) (f : A → Exec (RunState W) Step) (t : RunState W)
      → ((a : A) → r ≡ ok a → (u : RunState W) → Fine (f a u).0)
      → Fine (continue r f t).0
  Fine-continue (ok a) f t h = h a refl t
  Fine-continue (err e) f t h = tt

  Fine-bind :
      {A : Type 0} (m : Exec (RunState W) A) (f : A → Exec (RunState W) Step)
      → ((a : A) (s : RunState W) → (m s).0 ≡ ok a → (u : RunState W) → Fine (f a u).0)
      → (s : RunState W) → Fine ((m >>= f) s).0
  unfolding ◌>>=◌
  Fine-bind m f h s = Fine-continue (m s).0 f (m s).1 λ a e. h a s e

  module _ (keyed : Keyed cfg.plan.graph.nodes) (covered : Covered cfg.plan) where
    pub found-InGraph :
        (id : Text) (n : PipelineNode) → Graph.node cfg.plan.graph id ≡ some n → InGraph n
    unfolding Graph.node
    found-InGraph id n e =
        ap (λ k. Graph.node cfg.plan.graph k) (lookup-Keyed id n cfg.plan.graph.nodes keyed e) ∙ e

    run_exit-Fine :
        (n : PipelineNode) (r : ResolvedNode) (s : RunState W)
        → Fine (run_exit env cfg logs n r s).0
    unfolding run_exit
    run_exit-Fine n r =
        Fine-bind _ _
          λ o _ _. Fine-bind _ _ λ u _ _. Fine-bind _ _ λ v _ _. Fine-bind _ _ λ w _ _ _. tt

    exit_handler-Fine :
        (n : PipelineNode) (o : Option ResolvedNode) (r : ResolvedNode)
        → o ≡ some r
        → (s : RunState W) → Fine (exit_handler env cfg logs n o s).0
    unfolding exit_handler
    exit_handler-Fine n none r e s = cc
    exit_handler-Fine n (some q) r e s = run_exit-Fine n q s

    jump_or_exit-Fine :
        (n : PipelineNode) (jump : Option Text)
        → InGraph n
        → (s : RunState W) → Fine (jump_or_exit env cfg logs n jump s).0
    unfolding jump_or_exit find_node
    jump_or_exit-Fine n none h =
        let (r, e) = covered.nodes n.id n h in exit_handler-Fine n (Plan.node cfg.plan n.id) r e
    jump_or_exit-Fine n (some target) h = Fine-bind _ _ λ m s e _. found-InGraph target m (
        node_or_error-found env cfg logs (codes "Retry target") target
          (Graph.node cfg.plan.graph target) m s e)

    exit_step-Fine :
        (n : PipelineNode) → InGraph n → (s : RunState W) → Fine (exit_step env cfg logs n s).0
    unfolding exit_step
    exit_step-Fine n h = Fine-bind _ _ λ outcomes _ _.
        Fine-bind _ _ λ u _ _. Fine-bind _ _ λ v _ _. jump_or_exit-Fine n (gate_jump v) h

    follow-Fine :
        (id : Text) (edge : PipelineEdge) (s : RunState W) → Fine (follow env cfg logs id edge s).0
    unfolding follow find_node
    follow-Fine id edge = Fine-bind _ _ λ a _ _. Fine-bind _ _ λ b _ _. Fine-bind _ _ λ c _ _.
        Fine-bind _ _ λ next s e. Fine-bind _ _ λ d _ _. Fine-bind _ _ λ f _ _.
          Fine-bind _ _ λ g _ _ _. found-InGraph edge.to next (
            node_or_error-found env cfg logs (codes "Edge target") edge.to
              (Graph.node cfg.plan.graph edge.to) next s e)

    dead_end-Fine :
        (id handler : Text) (status : StageStatus) (s : RunState W)
        → Fine (dead_end env cfg logs id handler status s).0
    unfolding dead_end
    dead_end-Fine id handler status s = elim (Bool-cases (is_fail status)) [
      | inl e ↦ rw e tt
      | inr e ↦ rw e (Fine-bind _ _ (λ u _ _ _. tt) s)
    ]

    leave-Fine :
        (id handler : Text) (status : StageStatus) (edge : Option PipelineEdge) (s : RunState W)
        → Fine (leave env cfg logs id handler status edge s).0
    unfolding leave
    leave-Fine id handler status (some edge) = follow-Fine id edge
    leave-Fine id handler status none = dead_end-Fine id handler status

    run_stage-Fine :
        (n : PipelineNode) (r : ResolvedNode) (s : RunState W)
        → Fine (run_stage env cfg logs n r s).0
    unfolding run_stage advance
    run_stage-Fine n r = Fine-bind _ _ λ a _ _. Fine-bind _ _ λ outcome _ _. Fine-bind _ _ λ b _ _.
        Fine-bind _ _ λ c _ _. Fine-bind _ _ λ d _ _. Fine-bind _ _ λ f _ _.
          Fine-bind _ _ λ choice _ _. leave-Fine n.id (handler_name r.handler) outcome.status choice

    compiled_stage-Fine :
        (n : PipelineNode) (o : Option ResolvedNode) (r : ResolvedNode)
        → o ≡ some r
        → (s : RunState W) → Fine (compiled_stage env cfg logs n o s).0
    unfolding compiled_stage
    compiled_stage-Fine n none r e s = cc
    compiled_stage-Fine n (some q) r e s = run_stage-Fine n q s

    stop_before-Fine :
        (id source : Text) (s : RunState W) → Fine (stop_before env cfg logs id source s).0
    unfolding stop_before
    stop_before-Fine id source =
        Fine-bind _ _ λ u _ _. Fine-bind _ _ λ previous _ _. Fine-bind _ _ λ v _ _ _. tt

    stage_or_stop-Fine :
        (n : PipelineNode) (source : Option Text)
        → InGraph n
        → (s : RunState W) → Fine (stage_or_stop env cfg logs n source s).0
    unfolding stage_or_stop
    stage_or_stop-Fine n (some source) h = stop_before-Fine n.id source
    stage_or_stop-Fine n none h =
        let (r, e) = covered.nodes n.id n h in compiled_stage-Fine n (Plan.node cfg.plan n.id) r e

    stage_step-Fine :
        (n : PipelineNode) → InGraph n → (s : RunState W) → Fine (stage_step env cfg logs n s).0
    unfolding stage_step
    stage_step-Fine n h =
        Fine-bind _ _ λ request _ _. stage_or_stop-Fine n (stop_request_source request) h

    -- A turn at a node of the graph does not panic, and goes on at a node of the graph.
    pub turn-Fine :
        (n : PipelineNode) → InGraph n → (s : RunState W) → Fine (turn env cfg logs n s).0
    unfolding turn
    turn-Fine n h s = elim (Bool-cases (env.floats.gt s.progress.total_cost cfg.max_budget)) [
      | inl p ↦ rw p tt
      | inr p ↦ rw p elim (Bool-cases (is_exit cfg.plan n.id)) [
        | inl q ↦ rw q (exit_step-Fine n h s)
        | inr q ↦ rw q (stage_step-Fine n h s)
      ]
    ]
