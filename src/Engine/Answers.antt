-- ===== src/Engine/Answers.antt =====
-- A run of a compiled plan does not panic (`run_inner` of
-- crates/attractor-pipeline/src/engine.rs).
use pascals_discrete_attract.Base.{
  ℕ, zero, suc, ◌+◌, ◌*◌, ◌≤◌, Text, Bool, true, false, Option, none, some, ◌≡◌, refl, sym, ◌∙◌,
  subst, if◌then◌else◌,
}
use pascals_discrete_attract.Types.Errors.{AttractorError, Result, ok, err}
use pascals_discrete_attract.Graph.{PipelineNode}
use pascals_discrete_attract.Graph
use pascals_discrete_attract.Graph.Keyed.{Keyed}
use pascals_discrete_attract.Checkpoint.{PipelineCheckpoint}
use pascals_discrete_attract.Engine.Exec.{pure, raise, continue, ◌>>=◌}
use pascals_discrete_attract.Engine.State.{RunConfiguration, Environment, RunState, PipelineResult}
use pascals_discrete_attract.Engine.Invoke.{Run, emit}
use pascals_discrete_attract.Engine.Stage.{
  Step, again, Ending, done, finished, panicked, stopped, turn,
}
use pascals_discrete_attract.Engine.Run.{
  RunEnd, returned, crashed, out_of_fuel, resume, resume_saved, initialise, loop, finalise,
  clear_saved, execute, report, report_result, completed, conclude, started, checked, run_inner,
  preflight,
}
use pascals_discrete_attract.Engine.Covered.{Covered, InGraph, Fine, found-InGraph, turn-Fine}
use pascals_discrete_attract.Engine.Endings.{run_inner-IsReturned, IsReturned}

module _ {W : Type 0} (env : Environment W) (cfg : RunConfiguration) (logs : Bool) where
  -- No panic.
  abbrev Unbroken : Result RunEnd → Type 0
  Unbroken (ok crashed) = ⊥
  Unbroken (ok (returned result)) = Unit
  Unbroken (ok out_of_fuel) = Unit
  Unbroken (err e) = Unit

  -- The loop does not panic.
  abbrev Sound : Result (Option Ending) → Type 0
  Sound (ok (some panicked)) = ⊥
  Sound (ok (some finished)) = Unit
  Sound (ok (some (stopped id))) = Unit
  Sound (ok none) = Unit
  Sound (err e) = Unit

  -- The node to begin with is a node of the graph.
  abbrev Begins : Result PipelineNode → Type 0
  Begins (ok n) = InGraph env cfg logs n
  Begins (err e) = Unit

  abbrev BeginsSome : Result (Option PipelineNode) → Type 0
  BeginsSome (ok none) = ⊥
  BeginsSome (ok (some n)) = InGraph env cfg logs n
  BeginsSome (err e) = Unit

  bind-holds :
      {A B : Type 0} (P : Result B → Type 0) (m : Run env cfg logs A) (f : A → Run env cfg logs B)
      → ((e : AttractorError) → P (err e))
      → ((a : A) (s : RunState W) → (m s).0 ≡ ok a → P (f a (m s).1).0)
      → (s : RunState W) → P ((m >>= f) s).0
  unfolding ◌>>=◌
  bind-holds P m f failed h s = go (m s).0 refl
    where
      go : (r : Result _) → (m s).0 ≡ r → P (continue r f (m s).1).0
      go (ok a) e = h a s e
      go (err error) e = failed error

  module _ (keyed : Keyed cfg.plan.graph.nodes) (covered : Covered cfg.plan) where
    SoundRun : Run env cfg logs (Option Ending) → Type 0
    SoundRun m = (s : RunState W) → Sound (m s).0

    BeginsRun : Run env cfg logs PipelineNode → Type 0
    BeginsRun m = (s : RunState W) → Begins (m s).0

    step-SoundRun :
        (fuel : ℕ) (step : Step)
        → Fine env cfg logs (ok step)
        → ((n : PipelineNode) → InGraph env cfg logs n → SoundRun (loop env cfg logs fuel n))
        → SoundRun (elim step [
          | again next ↦ loop env cfg logs fuel next
          | done ending ↦ pure (some ending)
        ])
    unfolding SoundRun
    step-SoundRun fuel (again n) h next s = next n h s
    step-SoundRun fuel (done finished) h next s = tt
    step-SoundRun fuel (done panicked) h next s = h
    step-SoundRun fuel (done (stopped id)) h next s = tt

    loop-SoundRun :
        (fuel : ℕ) (n : PipelineNode) → InGraph env cfg logs n → SoundRun (loop env cfg logs fuel n)
    unfolding loop SoundRun
    loop-SoundRun zero n h s = tt
    loop-SoundRun (suc fuel) n h s =
        bind-holds Sound (turn env cfg logs n) _ (λ e. tt)
          (λ step t e.
            step-SoundRun fuel step
              (subst (Fine env cfg logs) e (turn-Fine env cfg logs keyed covered n h t))
              (loop-SoundRun fuel) (turn env cfg logs n t).1)
          s

    resume_node-BeginsRun :
        (lost : AttractorError) (id : Text) (o : Option PipelineNode)
        → Graph.node cfg.plan.graph id ≡ o
        → BeginsRun (elim o [ some n ↦ pure n | none ↦ raise lost ])
    unfolding BeginsRun
    resume_node-BeginsRun lost id none e s = tt
    resume_node-BeginsRun lost id (some n) e s = found-InGraph env cfg logs keyed covered id n e

    resume-Begins :
        (start : PipelineNode) (saved : Option PipelineCheckpoint)
        → InGraph env cfg logs start
        → (s : RunState W) → Begins (resume env cfg logs start saved s).0
    unfolding resume BeginsRun
    resume-Begins start none h s = h
    resume-Begins start (some cp) h s =
        bind-holds Begins _ _ (λ e. tt)
          (λ u t e.
            bind-holds Begins _ _ (λ e'. tt)
              (λ v w f.
                resume_node-BeginsRun _ cp.current_node_id
                  (Graph.node cfg.plan.graph cp.current_node_id) refl _)
              _)
          s

    if-BeginsRun :
        (b : Bool) (m k : Run env cfg logs PipelineNode)
        → BeginsRun m
        → BeginsRun k
        → BeginsRun (if b then m else k)
    if-BeginsRun true m k h l = h
    if-BeginsRun false m k h l = l

    resume_saved-BeginsRun :
        (start : PipelineNode)
        → InGraph env cfg logs start
        → BeginsRun (resume_saved env cfg logs start)
    unfolding resume_saved BeginsRun
    resume_saved-BeginsRun start h =
        if-BeginsRun logs _ _
          (bind-holds Begins _ _ (λ e. tt)
            λ fault s e.
              bind-holds Begins _ _ (λ e. tt)
                (λ disk t f.
                  bind-holds Begins _ _ (λ e. tt) (λ saved u g. resume-Begins start saved h _) _)
                _)
          λ s. h

    BeginsSomeRun : Run env cfg logs (Option PipelineNode) → Type 0
    BeginsSomeRun m = (s : RunState W) → BeginsSome (m s).0

    start-BeginsSomeRun :
        (o : Option PipelineNode)
        → Graph.node cfg.plan.graph cfg.plan.start_id ≡ o
        → BeginsSomeRun (elim o [
          | none ↦ pure none
          | some start ↦ (resume_saved env cfg logs start >>= λ node. pure (some node))
        ])
    unfolding BeginsSomeRun BeginsRun
    start-BeginsSomeRun none e s = cc (sym e ∙ covered.start.1)
    start-BeginsSomeRun (some start) e s =
        bind-holds BeginsSome (resume_saved env cfg logs start) (λ node. pure (some node)) (λ f. tt)
          (λ node t f. subst Begins f (
            resume_saved-BeginsRun start
              (found-InGraph env cfg logs keyed covered cfg.plan.start_id start e) t))
          s

    initialise-BeginsSome : (s : RunState W) → BeginsSome (initialise env cfg logs s).0
    unfolding initialise BeginsSomeRun
    initialise-BeginsSome =
        bind-holds BeginsSome _ _ (λ e. tt)
          λ u s e. start-BeginsSomeRun (Graph.node cfg.plan.graph cfg.plan.start_id) refl _

    UnbrokenRun : Run env cfg logs RunEnd → Type 0
    UnbrokenRun m = (s : RunState W) → Unbroken (m s).0

    finalise-Unbroken :
        (ending : Option Ending) (s : RunState W)
        → Sound (ok ending)
        → Unbroken (finalise env cfg logs ending s).0
    unfolding finalise ◌>>=◌
    finalise-Unbroken none s h = tt
    finalise-Unbroken (some panicked) s h = absurd h
    finalise-Unbroken (some (stopped id)) s h = tt
    finalise-Unbroken (some finished) s h =
        bind-holds Unbroken (clear_saved env cfg logs) _ (λ e. tt) (λ u t e. tt) s

    begun-UnbrokenRun :
        (fuel : ℕ) (begin : Option PipelineNode)
        → BeginsSome (ok begin)
        → UnbrokenRun (elim begin [
          | none ↦ pure crashed
          | some node ↦ (loop env cfg logs fuel node >>= λ ending. finalise env cfg logs ending)
        ])
    unfolding UnbrokenRun SoundRun
    begun-UnbrokenRun fuel none h s = absurd h
    begun-UnbrokenRun fuel (some node) h s =
        bind-holds Unbroken (loop env cfg logs fuel node) (λ ending. finalise env cfg logs ending)
          (λ e. tt)
          (λ ending t e. finalise-Unbroken ending _ (subst Sound e (loop-SoundRun fuel node h t))) s

    execute-Unbroken : (fuel : ℕ) (s : RunState W) → Unbroken (execute env cfg logs fuel s).0
    unfolding execute UnbrokenRun
    execute-Unbroken fuel =
        bind-holds Unbroken (initialise env cfg logs) _ (λ e. tt)
          λ begin s e. begun-UnbrokenRun fuel begin (subst BeginsSome e (initialise-BeginsSome s)) _

    report_result-Unbroken :
        (result : PipelineResult) (stop : Option Text) (s : RunState W)
        → Unbroken (report_result env cfg logs result stop s).0
    unfolding report_result completed emit ◌>>=◌
    report_result-Unbroken result (some id) s = tt
    report_result-Unbroken result none s = tt

    report-Unbroken :
        (r : Result RunEnd) (s : RunState W) → Unbroken r → Unbroken (report env cfg logs r s).0
    unfolding report emit ◌>>=◌
    report-Unbroken (err e) s h = tt
    report-Unbroken (ok crashed) s h = absurd h
    report-Unbroken (ok out_of_fuel) s h = tt
    report-Unbroken (ok (returned result)) s h =
        report_result-Unbroken result result.stopped_before s

    started-Unbroken :
        (fuel : ℕ) (fault : Option Text) (s : RunState W)
        → Unbroken (started env cfg logs fuel fault s).0
    unfolding started conclude emit ◌>>=◌
    started-Unbroken fuel (some error) s = tt
    started-Unbroken fuel none s = report-Unbroken _ _ (execute-Unbroken fuel _)

    checked-Unbroken :
        (fuel : ℕ) (verdict : Result (Unit {0})) (s : RunState W)
        → Unbroken (checked env cfg logs fuel verdict s).0
    unfolding checked ◌>>=◌
    checked-Unbroken fuel (err e) s = tt
    checked-Unbroken fuel (ok u) s = started-Unbroken fuel _ _

    run_inner-Unbroken : (fuel : ℕ) (s : RunState W) → Unbroken (run_inner env cfg logs fuel s).0
    unfolding run_inner ◌>>=◌
    run_inner-Unbroken fuel s = checked-Unbroken fuel (preflight env cfg logs s) s

  -- The run gave a result or an error.
  abbrev pub IsAnswer : Result RunEnd → Type 0
  IsAnswer (ok (returned result)) = Unit
  IsAnswer (ok crashed) = ⊥
  IsAnswer (ok out_of_fuel) = ⊥
  IsAnswer (err e) = Unit

  both-IsAnswer : (r : Result RunEnd) → Unbroken r → IsReturned env cfg logs r → IsAnswer r
  both-IsAnswer (ok (returned result)) h k = tt
  both-IsAnswer (ok crashed) h k = h
  both-IsAnswer (ok out_of_fuel) h k = k
  both-IsAnswer (err e) h k = tt

  -- On a plan whose nodes stand under their ids, whose start is a node of its graph and
  -- that has a compiled node for each node of its graph, a run gives a result or an error within two
  -- turns for each step of its limit and two more, wherever it is resumed: it does not panic at a
  -- node that is missing.
  pub run_inner-IsAnswer :
      Keyed cfg.plan.graph.nodes
      → Covered cfg.plan
      → (fuel : ℕ) → 2 * cfg.max_steps + 2 ≤ fuel
      → (s : RunState W) → IsAnswer (run_inner env cfg logs fuel s).0
  run_inner-IsAnswer keyed covered fuel enough s =
      both-IsAnswer _ (run_inner-Unbroken keyed covered fuel s)
        (run_inner-IsReturned env cfg logs keyed fuel enough s)
