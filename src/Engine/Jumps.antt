-- ===== src/Engine/Jumps.antt =====
-- The node that a turn of the loop goes on with (crates/attractor-pipeline/src/engine.rs).
use pascals_discrete_attract.Base.{
  ℕ, Text, Bool, false, Option, none, some, ◌≡◌, refl, subst, codes, Map,
}
use pascals_discrete_attract.Types.{Outcome}
use pascals_discrete_attract.Types.Errors.{Result, ok, err}
use pascals_discrete_attract.Graph.{PipelineGraph, PipelineNode}
use pascals_discrete_attract.Graph
use pascals_discrete_attract.Plan.{ResolvedNode, is_exit}
use pascals_discrete_attract.Plan
use pascals_discrete_attract.GoalGate.{GoalGateResult, enforce_goal_gates, resolve_retry_target}
use pascals_discrete_attract.GoalGate.Judged.{
  Judged, passed, sent_back, refused, enforce_goal_gates-Judged,
}
use pascals_discrete_attract.Engine.Exec.{Exec, continue, ◌>>=◌}
use pascals_discrete_attract.Engine.State.{RunConfiguration, Environment, RunState}
use pascals_discrete_attract.Engine.Stage.{
  Step, again, done, stop_request_source, gate_jump, node_or_error, find_node, run_exit,
  exit_handler, jump_or_exit, exit_step, stop_before, compiled_stage, stage_or_stop, stage_step,
}
use pascals_discrete_attract.Engine.Frames.{IsOk, Gained}
use pascals_discrete_attract.Engine.Turns.{run_stage-Gains}

-- `P` holds of the node that the loop goes on with, if it does.
abbrev pub AgainIs : (PipelineNode → Type 0) → Result Step → Type 0
AgainIs P (ok (again n)) = P n
AgainIs P (ok (done e)) = Unit
AgainIs P (err e) = Unit

abbrev Never : PipelineNode → Type 0
Never n = ⊥

-- No goal gate sends the run back to an exit node.
unfoldable pub RetriesLeaveExits : RunConfiguration → Type 0
RetriesLeaveExits cfg =
    (id target : Text) (gate n : PipelineNode)
    → Graph.node cfg.plan.graph id ≡ some gate
    → resolve_retry_target gate cfg.plan.graph ≡ some target
    → Graph.node cfg.plan.graph target ≡ some n
    → is_exit cfg.plan n.id ≡ false

-- A jump back is to the retry target of a gate.
abbrev JumpsTo : PipelineGraph → Result GoalGateResult → Type 0
JumpsTo graph (err e) = Unit
JumpsTo graph (ok v) =
    (target : Text)
    → gate_jump v ≡ some target
    → (id : Text) × (gate : PipelineNode) × (Graph.node graph id ≡ some gate)
      × (resolve_retry_target gate graph ≡ some target)

Judged-JumpsTo :
    {graph : PipelineGraph} {outcomes : Map Outcome} {r : Result GoalGateResult}
    → Judged graph outcomes r
    → JumpsTo graph r
Judged-JumpsTo (passed h) = λ t e. cc
Judged-JumpsTo (sent_back f target h) = λ t e. (f.id, f.gate, f.named, cc)
Judged-JumpsTo (refused f h) = tt

continue-AgainIs :
    {S A : Type 0} (P : PipelineNode → Type 0) (r : Result A) (f : A → Exec S Step) (t : S)
    → ((a : A) → r ≡ ok a → (u : S) → AgainIs P (f a u).0)
    → AgainIs P (continue r f t).0
continue-AgainIs P (ok a) f t h = h a refl t
continue-AgainIs P (err e) f t h = tt

AgainIs-bind :
    {S A : Type 0} (P : PipelineNode → Type 0) (m : Exec S A) (f : A → Exec S Step)
    → ((a : A) (s : S) → (m s).0 ≡ ok a → (u : S) → AgainIs P (f a u).0)
    → (s : S) → AgainIs P ((m >>= f) s).0
unfolding ◌>>=◌
AgainIs-bind P m f h s = continue-AgainIs P (m s).0 f (m s).1 λ a e. h a s e

-- Where the loop goes on, a step was taken.
abbrev pub AgainGained : {W : Type 0} → ℕ → RunState W → Result Step → RunState W → Type 0
AgainGained limit s (ok (again n)) t = Gained limit s t
AgainGained limit s (ok (done e)) t = Unit
AgainGained limit s (err e) t = Unit

Never-again :
    {W : Type 0} (limit : ℕ) (s : RunState W) (r : Result Step) (t : RunState W)
    → AgainIs Never r
    → AgainGained limit s r t
Never-again limit s (ok (again n)) t h = elim h [ ]
Never-again limit s (ok (done e)) t h = tt
Never-again limit s (err e) t h = tt

ok_again :
    {W : Type 0} (limit : ℕ) (s : RunState W) (r : Result Step) (t : RunState W)
    → (IsOk r → Gained limit s t)
    → AgainGained limit s r t
ok_again limit s (ok (again n)) t h = h tt
ok_again limit s (ok (done e)) t h = tt
ok_again limit s (err e) t h = tt

module _ {W : Type 0} (env : Environment W) (cfg : RunConfiguration) (logs : Bool) where
  run_exit-AgainIs :
      (P : PipelineNode → Type 0) (n : PipelineNode) (r : ResolvedNode) (s : RunState W)
      → AgainIs P (run_exit env cfg logs n r s).0
  unfolding run_exit
  run_exit-AgainIs P n r = AgainIs-bind P _ _ λ o _ _.
      AgainIs-bind P _ _ λ u _ _. AgainIs-bind P _ _ λ v _ _. AgainIs-bind P _ _ λ w _ _ _. tt

  exit_handler-AgainIs :
      (P : PipelineNode → Type 0) (n : PipelineNode) (r : Option ResolvedNode) (s : RunState W)
      → AgainIs P (exit_handler env cfg logs n r s).0
  unfolding exit_handler
  exit_handler-AgainIs P n none s = tt
  exit_handler-AgainIs P n (some r) s = run_exit-AgainIs P n r s

  pub node_or_error-found :
      (what id : Text) (o : Option PipelineNode) (n : PipelineNode) (s : RunState W)
      → (node_or_error env cfg logs what id o s).0 ≡ ok n
      → o ≡ some n
  node_or_error-found what id (some m) n s e = cc
  node_or_error-found what id none n s e = cc

  jump_or_exit-AgainIs :
      (P : PipelineNode → Type 0) (n : PipelineNode) (jump : Option Text)
      → ((target : Text) (m : PipelineNode)
          → jump ≡ some target
          → Graph.node cfg.plan.graph target ≡ some m
          → P m)
      → (s : RunState W) → AgainIs P (jump_or_exit env cfg logs n jump s).0
  unfolding jump_or_exit find_node
  jump_or_exit-AgainIs P n none h = exit_handler-AgainIs P n (Plan.node cfg.plan n.id)
  jump_or_exit-AgainIs P n (some target) h = AgainIs-bind P _ _ λ m s e _.
      h target m refl
        (node_or_error-found (codes "Retry target") target (Graph.node cfg.plan.graph target) m s e)

  abbrev pub NotExit : PipelineNode → Type 0
  NotExit n = is_exit cfg.plan n.id ≡ false

  verdict-jump :
      RetriesLeaveExits cfg
      → (outcomes : Map Outcome) (v : GoalGateResult)
      → enforce_goal_gates cfg.plan.graph outcomes ≡ ok v
      → (target : Text) (m : PipelineNode) → gate_jump v ≡ some target
      → Graph.node cfg.plan.graph target ≡ some m
      → NotExit m
  unfolding RetriesLeaveExits
  verdict-jump leaves outcomes v e target m j found =
      let (id, gate, named, resolved) =
        subst (JumpsTo cfg.plan.graph) e
          (Judged-JumpsTo (enforce_goal_gates-Judged cfg.plan.graph outcomes)) target j in
      leaves id target gate m named resolved found

  -- From an exit node the loop goes on with no exit node.
  pub exit_step-NotExit :
      RetriesLeaveExits cfg
      → (n : PipelineNode) (s : RunState W) → AgainIs NotExit (exit_step env cfg logs n s).0
  unfolding exit_step
  exit_step-NotExit leaves n = AgainIs-bind NotExit _ _ λ outcomes _ _.
      AgainIs-bind NotExit _ _ λ u _ _.
        AgainIs-bind NotExit _ _
          λ v s e. jump_or_exit-AgainIs NotExit n (gate_jump v) (verdict-jump leaves outcomes v e)

  stop_before-AgainIs :
      (id source : Text) (s : RunState W) → AgainIs Never (stop_before env cfg logs id source s).0
  unfolding stop_before
  stop_before-AgainIs id source =
      AgainIs-bind Never _ _
        λ u _ _. AgainIs-bind Never _ _ λ previous _ _. AgainIs-bind Never _ _ λ v _ _ _. tt

  abbrev max : ℕ
  max = cfg.max_steps

  compiled_stage-gained :
      (n : PipelineNode) (r : Option ResolvedNode) (s : RunState W)
      → AgainGained max s
          (compiled_stage env cfg logs n r s).0
          (compiled_stage env cfg logs n r s).1
  unfolding compiled_stage
  compiled_stage-gained n none s = tt
  compiled_stage-gained n (some r) s = ok_again max s _ _ (run_stage-Gains env cfg logs n r s)

  stage_or_stop-gained :
      (n : PipelineNode) (source : Option Text) (s : RunState W)
      → AgainGained max s
          (stage_or_stop env cfg logs n source s).0
          (stage_or_stop env cfg logs n source s).1
  unfolding stage_or_stop
  stage_or_stop-gained n (some source) s = Never-again max s _ _ (stop_before-AgainIs n.id source s)
  stage_or_stop-gained n none s = compiled_stage-gained n (Plan.node cfg.plan n.id) s

  -- A stage that goes on has taken a step.
  pub stage_step-gained :
      (n : PipelineNode) (s : RunState W)
      → AgainGained max s (stage_step env cfg logs n s).0 (stage_step env cfg logs n s).1
  unfolding stage_step ◌>>=◌
  stage_step-gained n s =
      stage_or_stop-gained n (stop_request_source (env.stop_file s.world).0)
        (record s { world = (env.stop_file s.world).1 })
