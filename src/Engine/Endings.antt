-- ===== src/Engine/Endings.antt =====
-- The last event and the result of a run (`run_inner` of crates/attractor-pipeline/src/engine.rs).
use pascals_discrete_attract.Base.{
  ℕ, ◌+◌, ◌*◌, ◌≤◌, Text, Bool, List, [], ◌∷◌, ◌++◌, Option, none, some, ◌≡◌, refl, ap, ◌∙◌, arith,
  inl, inr, ◌⊎◌,
}
use pascals_discrete_attract.Types.Errors.{AttractorError, Result, ok, err}
use pascals_discrete_attract.Types.Display.{display}
use pascals_discrete_attract.Graph.{PipelineNode}
use pascals_discrete_attract.Engine.Exec.{pure, continue, ◌>>=◌}
use pascals_discrete_attract.Engine.Events.{PipelineEvent, pipeline_completed, pipeline_failed}
use pascals_discrete_attract.Engine.State.{RunConfiguration, Environment, RunState, PipelineResult}
use pascals_discrete_attract.Engine.Invoke.{emit, Run}
use pascals_discrete_attract.Engine.Stage.{Ending, finished, panicked, stopped}
use pascals_discrete_attract.Engine.Run.{
  RunEnd, returned, crashed, out_of_fuel, after_plan, after_registry, plan_errors, preflight,
  report, report_result, completed, conclude, started, checked, run_inner, execute, initialise,
  loop, finalise, clear_saved,
}
use pascals_discrete_attract.Engine.Jumps.{RetriesLeaveExits}
use pascals_discrete_attract.Graph
use pascals_discrete_attract.Graph.Keyed.{Keyed, lookup-Keyed}
use pascals_discrete_attract.Plan.{is_exit}
use pascals_discrete_attract.Validation.Targets.{validate_plan-leaves_exits}
use pascals_discrete_attract.Engine.Termination.{IsDecided, loop-IsDecided}

Result-cases :
    {A : Type 0} (r : Result A) → ((a : A) × (r ≡ ok a)) ⊎ ((e : AttractorError) × (r ≡ err e))
Result-cases (ok a) = inl (a, refl)
Result-cases (err e) = inr (e, refl)

module _ {W : Type 0} (env : Environment W) (cfg : RunConfiguration) (logs : Bool) where
  ToldResult : PipelineResult → Option Text → RunState W → Type 0
  ToldResult result (some id) s = Unit
  ToldResult result none s =
      (before : List PipelineEvent) × (duration : ℕ) × (s.events
        ≡ before ++ pipeline_completed cfg.plan.graph.name result.completed_nodes duration ∷ [])

  -- The last event: a failure with its error, or the completion of a run that was not stopped.
  pub Told : Result RunEnd → RunState W → Type 0
  unfolding ToldResult
  Told (err e) s =
      (before : List PipelineEvent) × (s.events
        ≡ before ++ pipeline_failed cfg.plan.graph.name (display env.floats e) ∷ [])
  Told (ok (returned result)) s = ToldResult result result.stopped_before s
  Told (ok crashed) s = Unit
  Told (ok out_of_fuel) s = Unit

  report_result-Told :
      (result : PipelineResult) (stop : Option Text) (s : RunState W)
      → result.stopped_before ≡ stop
      → Told
          (report_result env cfg logs result stop s).0
          (report_result env cfg logs result stop s).1
  unfolding report_result completed emit ◌>>=◌ Told ToldResult
  report_result-Told result (some id) s h = rw h tt
  report_result-Told result none s h = rw h (s.events, _, refl)

  report-Told :
      (r : Result RunEnd) (s : RunState W)
      → Told (report env cfg logs r s).0 (report env cfg logs r s).1
  unfolding report emit ◌>>=◌ Told
  report-Told (err e) s = (s.events, refl)
  report-Told (ok crashed) s = tt
  report-Told (ok out_of_fuel) s = tt
  report-Told (ok (returned result)) s = report_result-Told result result.stopped_before s refl

  started-Told :
      (fuel : ℕ) (fault : Option Text) (s : RunState W)
      → Told (started env cfg logs fuel fault s).0 (started env cfg logs fuel fault s).1
  unfolding started conclude emit ◌>>=◌ Told
  started-Told fuel (some error) s = (s.events, refl)
  started-Told fuel none s = report-Told _ _

  -- A run that passes its checks tells how it ended by its last event: its failure, or its
  -- completion with the nodes it completed unless it was stopped.
  pub run_inner-Told :
      (fuel : ℕ) (s : RunState W)
      → preflight env cfg logs s ≡ ok tt
      → Told (run_inner env cfg logs fuel s).0 (run_inner env cfg logs fuel s).1
  unfolding run_inner checked ◌>>=◌
  run_inner-Told fuel s h = rw h (
      started-Told fuel (env.journal_fault s.world).0
        (record s { world = (env.journal_fault s.world).1 }))

  abbrev pub IsReturned : Result RunEnd → Type 0
  IsReturned (err e) = Unit
  IsReturned (ok (returned result)) = Unit
  IsReturned (ok crashed) = Unit
  IsReturned (ok out_of_fuel) = ⊥

  continue-IsReturned :
      {A : Type 0} (r : Result A) (f : A → Run env cfg logs RunEnd) (s : RunState W)
      → ((a : A) → r ≡ ok a → IsReturned (f a s).0)
      → IsReturned (continue r f s).0
  continue-IsReturned (ok a) f s h = h a refl
  continue-IsReturned (err e) f s h = tt

  finalise-IsReturned :
      (e : Ending) (s : RunState W) → IsReturned (finalise env cfg logs (some e) s).0
  unfolding finalise ◌>>=◌
  finalise-IsReturned panicked s = tt
  finalise-IsReturned (stopped id) s = tt
  finalise-IsReturned finished s = continue-IsReturned (clear_saved env cfg logs s).0 _ _ λ u e. tt

  ended :
      (r : Result (Option Ending)) (s : RunState W)
      → IsDecided r
      → IsReturned (continue r (finalise env cfg logs) s).0
  ended (ok none) s h = elim h [ ]
  ended (ok (some e)) s h = finalise-IsReturned e s
  ended (err e) s h = tt

  -- The part of `execute` after the initialisation.
  begun : ℕ → Option PipelineNode → Run env cfg logs RunEnd
  begun fuel none = pure crashed
  begun fuel (some node) = do ending ← loop env cfg logs fuel node; finalise env cfg logs ending

  begun-IsReturned :
      RetriesLeaveExits cfg
      → (fuel : ℕ) → 2 * cfg.max_steps + 2 ≤ fuel
      → (begin : Option PipelineNode) (s : RunState W) → IsReturned (begun fuel begin s).0
  unfolding begun ◌>>=◌
  begun-IsReturned leaves fuel enough none s = tt
  begun-IsReturned leaves fuel enough (some n) s =
      ended (loop env cfg logs fuel n s).0 (loop env cfg logs fuel n s).1
        (loop-IsDecided env cfg logs leaves fuel n s (omega (arith, enough)))

  execute-IsReturned :
      RetriesLeaveExits cfg
      → (fuel : ℕ) → 2 * cfg.max_steps + 2 ≤ fuel
      → (s : RunState W) → IsReturned (execute env cfg logs fuel s).0
  unfolding execute begun ◌>>=◌
  execute-IsReturned leaves fuel enough s =
      continue-IsReturned (initialise env cfg logs s).0 _ _
        λ begin e. begun-IsReturned leaves fuel enough begin (initialise env cfg logs s).1

  report_result-IsReturned :
      (result : PipelineResult) (stop : Option Text) (s : RunState W)
      → IsReturned (report_result env cfg logs result stop s).0
  unfolding report_result completed emit ◌>>=◌
  report_result-IsReturned result (some id) s = tt
  report_result-IsReturned result none s = tt

  report-IsReturned :
      (r : Result RunEnd) (s : RunState W) → IsReturned r → IsReturned (report env cfg logs r s).0
  unfolding report emit ◌>>=◌
  report-IsReturned (err e) s h = tt
  report-IsReturned (ok crashed) s h = tt
  report-IsReturned (ok out_of_fuel) s h = elim h [ ]
  report-IsReturned (ok (returned result)) s h =
      report_result-IsReturned result result.stopped_before s

  started-IsReturned :
      RetriesLeaveExits cfg
      → (fuel : ℕ) → 2 * cfg.max_steps + 2 ≤ fuel
      → (fault : Option Text) (s : RunState W) → IsReturned (started env cfg logs fuel fault s).0
  unfolding started conclude emit ◌>>=◌
  started-IsReturned leaves fuel enough (some error) s = tt
  started-IsReturned leaves fuel enough none s =
      report-IsReturned _ _ (execute-IsReturned leaves fuel enough _)

  after_plan-clean :
      (errors : List Text) (s : RunState W) (u : Unit {0})
      → after_plan env cfg logs errors s ≡ ok u
      → errors ≡ []
  unfolding after_plan
  after_plan-clean [] s u e = refl
  after_plan-clean (m ∷ ms) s u e = cc

  after_registry-clean :
      (errors : List Text) (s : RunState W) (u : Unit {0})
      → after_registry env cfg logs errors s ≡ ok u
      → plan_errors env cfg logs ≡ []
  unfolding after_registry
  after_registry-clean [] s u e = after_plan-clean (plan_errors env cfg logs) s u e
  after_registry-clean (m ∷ ms) s u e = cc

  -- A run that passes the checks has no goal gate that would send it to an exit node.
  preflight-RetriesLeaveExits :
      Keyed cfg.plan.graph.nodes
      → (s : RunState W) (u : Unit {0}) → preflight env cfg logs s ≡ ok u
      → RetriesLeaveExits cfg
  unfolding preflight RetriesLeaveExits Graph.node
  preflight-RetriesLeaveExits keyed s u passed id target gate n named resolved found =
      ap (is_exit cfg.plan) (lookup-Keyed target n cfg.plan.graph.nodes keyed found)
      ∙ validate_plan-leaves_exits env.floats env.unicode.is_alphanumeric cfg.plan gate id target
          (after_registry-clean _ s u passed) named resolved

  -- On a plan whose nodes stand under their ids, as those of every compiled plan do,
  -- a run ends with a result, an error or a panic within two turns for each step of its limit and
  -- two more, wherever it is resumed.
  pub run_inner-IsReturned :
      Keyed cfg.plan.graph.nodes
      → (fuel : ℕ) → 2 * cfg.max_steps + 2 ≤ fuel
      → (s : RunState W) → IsReturned (run_inner env cfg logs fuel s).0
  unfolding run_inner checked ◌>>=◌
  run_inner-IsReturned keyed fuel enough s = elim (Result-cases (preflight env cfg logs s)) [
    | inl (u, e) ↦
        rw e (started-IsReturned (preflight-RetriesLeaveExits keyed s u e) fuel enough _ _)
    | inr (error, e) ↦ rw e tt
  ]
