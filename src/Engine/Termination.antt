-- ===== src/Engine/Termination.antt =====
-- The turns of the loop of `run_inner` (crates/attractor-pipeline/src/engine.rs) and its fuel.
use pascals_discrete_attract.Base.{
  ℕ, zero, suc, ◌+◌, ◌-◌, ◌*◌, ◌≤◌, ◌<◌, Bool, true, false, Option, none, some, ◌≡◌, arith, inl,
  inr, Bool-cases,
}
use pascals_discrete_attract.Types.Errors.{Result, ok, err}
use pascals_discrete_attract.Graph.{PipelineNode}
use pascals_discrete_attract.Plan.{is_exit}
use pascals_discrete_attract.Engine.Exec.{pure, continue, ◌>>=◌}
use pascals_discrete_attract.Engine.State.{RunConfiguration, Environment, RunState}
use pascals_discrete_attract.Engine.Stage.{Step, again, Ending, done, exit_step, stage_step, turn}
use pascals_discrete_attract.Engine.Run.{loop}
use pascals_discrete_attract.Engine.Frames.{Moves, Moves-refl, Follows, Follows-bind}
use pascals_discrete_attract.Engine.Turns.{exit_step-Follows, turn-Follows}
use pascals_discrete_attract.Engine.Jumps.{
  AgainIs, AgainGained, RetriesLeaveExits, NotExit, exit_step-NotExit, stage_step-gained,
}

-- The loop came to an end, or to an error.
abbrev pub IsDecided : Result (Option Ending) → Type 0
IsDecided (ok none) = ⊥
IsDecided (ok (some e)) = Unit
IsDecided (err e) = Unit

module _ {W : Type 0} (env : Environment W) (cfg : RunConfiguration) (logs : Bool) where
  abbrev max : ℕ
  max = cfg.max_steps

  abbrev weight : Bool → ℕ
  weight true = 2
  weight false = 1

  -- Two turns for each step that is left, and one more at an exit node.
  measure : PipelineNode → RunState W → ℕ
  measure n s = 2 * (max - s.progress.step_count) + weight (is_exit cfg.plan n.id)

  abbrev Shrinks : PipelineNode → RunState W → Result Step → RunState W → Type 0
  Shrinks n s (ok (again m)) t = measure m t < measure n s
  Shrinks n s (ok (done e)) t = Unit
  Shrinks n s (err e) t = Unit

  weight-bound : (b : Bool) → weight b ≤ 2
  weight-bound true = omega arith
  weight-bound false = omega arith

  exit-Shrinks :
      (n : PipelineNode) (s : RunState W) (r : Result Step) (t : RunState W)
      → is_exit cfg.plan n.id ≡ true
      → Moves max s t
      → AgainIs (NotExit env cfg logs) r
      → Shrinks n s r t
  unfolding measure
  exit-Shrinks n s (ok (again m)) t p moves h = rw (p, h) (omega (arith, moves.grows))
  exit-Shrinks n s (ok (done e)) t p moves h = tt
  exit-Shrinks n s (err e) t p moves h = tt

  stage-Shrinks :
      (n : PipelineNode) (s : RunState W) (r : Result Step) (t : RunState W)
      → is_exit cfg.plan n.id ≡ false
      → AgainGained max s r t
      → Shrinks n s r t
  unfolding measure
  stage-Shrinks n s (ok (again m)) t p g =
      rw p (omega (arith, g.0, g.1, weight-bound (is_exit cfg.plan m.id)))
  stage-Shrinks n s (ok (done e)) t p g = tt
  stage-Shrinks n s (err e) t p g = tt

  turn-Shrinks :
      RetriesLeaveExits cfg
      → (n : PipelineNode) (s : RunState W)
      → Shrinks n s (turn env cfg logs n s).0 (turn env cfg logs n s).1
  unfolding turn
  turn-Shrinks leaves n s = elim (Bool-cases (env.floats.gt s.progress.total_cost cfg.max_budget)) [
    | inl p ↦ rw p tt
    | inr p ↦ rw p elim (Bool-cases (is_exit cfg.plan n.id)) [
      | inl q ↦ rw q (
          exit-Shrinks n s (exit_step env cfg logs n s).0 (exit_step env cfg logs n s).1 q
            (exit_step-Follows env cfg logs n s) (exit_step-NotExit env cfg logs leaves n s))
      | inr q ↦ rw q (
          stage-Shrinks n s (stage_step env cfg logs n s).0 (stage_step env cfg logs n s).1 q
            (stage_step-gained env cfg logs n s))
    ]
  ]

  measure-positive : (n : PipelineNode) (s : RunState W) → 0 < measure n s
  unfolding measure
  measure-positive n s = elim (Bool-cases (is_exit cfg.plan n.id)) [
    | inl q ↦ rw q (omega arith)
    | inr q ↦ rw q (omega arith)
  ]

  continue-IsDecided :
      (fuel : ℕ) (n : PipelineNode) (s : RunState W) (r : Result Step) (t : RunState W)
      → measure n s ≤ suc fuel
      → Shrinks n s r t
      → ((m : PipelineNode) (u : RunState W)
          → measure m u ≤ fuel
          → IsDecided (loop env cfg logs fuel m u).0)
      → IsDecided
          (continue r
            (λ step. elim step [
              | again next ↦ loop env cfg logs fuel next
              | done ending ↦ pure (some ending)
            ])
            t).0
  continue-IsDecided fuel n s (ok (again m)) t le h rest = rest m t (omega (arith, le, h))
  continue-IsDecided fuel n s (ok (done e)) t le h rest = tt
  continue-IsDecided fuel n s (err e) t le h rest = tt

  measured-IsDecided :
      RetriesLeaveExits cfg
      → (fuel : ℕ) (n : PipelineNode) (s : RunState W) → measure n s ≤ fuel
      → IsDecided (loop env cfg logs fuel n s).0
  unfolding loop ◌>>=◌
  measured-IsDecided leaves zero n s le = absurd (omega (arith, le, measure-positive n s))
  measured-IsDecided leaves (suc fuel) n s le =
      continue-IsDecided fuel n s (turn env cfg logs n s).0 (turn env cfg logs n s).1 le
        (turn-Shrinks leaves n s) (measured-IsDecided leaves fuel)

  -- Where no goal gate sends the run back to an exit node, the loop ends: with an ending or an
  -- error within two turns for each step that is left and two more.
  pub loop-IsDecided :
      RetriesLeaveExits cfg
      → (fuel : ℕ) (n : PipelineNode) (s : RunState W)
      → 2 * (max - s.progress.step_count) + 2 ≤ fuel
      → IsDecided (loop env cfg logs fuel n s).0
  unfolding measure
  loop-IsDecided leaves fuel n s le =
      measured-IsDecided leaves fuel n s (omega (arith, le, weight-bound (is_exit cfg.plan n.id)))

  continued-Follows :
      (fuel : ℕ)
      → ((n : PipelineNode) → Follows max (loop env cfg logs fuel n))
      → (step : Step)
      → Follows max (elim step [
        | again next ↦ loop env cfg logs fuel next
        | done ending ↦ pure (some ending)
      ])
  continued-Follows fuel h (again n) = h n
  continued-Follows fuel h (done e) = Moves-refl max

  loop-Follows : (fuel : ℕ) (n : PipelineNode) → Follows max (loop env cfg logs fuel n)
  unfolding loop
  loop-Follows zero n = Moves-refl max
  loop-Follows (suc fuel) n =
      Follows-bind max _ _ (turn-Follows env cfg logs n)
        (continued-Follows fuel (loop-Follows fuel))

  -- However long the loop runs and however it ends: it never counts more steps than the limit where
  -- it began within it, it counts one handler attempt with every step, and it takes no event back.
  pub loop-Moves :
      (fuel : ℕ) (n : PipelineNode) (s : RunState W) → Moves max s (loop env cfg logs fuel n s).1
  loop-Moves = loop-Follows
