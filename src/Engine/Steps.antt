-- ===== src/Engine/Steps.antt =====
-- The frame of the actions of `invoke_node` that count steps (crates/attractor-pipeline/src/engine.rs).
use pascals_discrete_attract.Base.{
  ℕ, zero, suc, ◌+◌, ◌-◌, leb, Text, Bool, false, [], Option, none, some, ◌≡◌, sym, append-nil,
  arith, inl, inr, Bool-cases, is_some, lookup,
}
use pascals_discrete_attract.Types.{Outcome}
use pascals_discrete_attract.Graph.{PipelineNode}
use pascals_discrete_attract.Plan.{ResolvedNode, handler_name}
use pascals_discrete_attract.Engine.Exec.{pure, gets, ◌>>=◌}
use pascals_discrete_attract.Engine.State.{RunConfiguration, Environment, RunState}
use pascals_discrete_attract.Engine.Invoke.{
  count_attempt, begin_attempt, attempt_once, attempts, invoke_active, invoke_node,
}
use pascals_discrete_attract.Engine.Frames.{
  Moves, Moves-refl, Moves-trans, Follows, Follows-bind, Follows-if, Gains, Gains-first,
  Gains-second,
}
use pascals_discrete_attract.Engine.Quiet.{
  gets-Follows, saving-Follows, settled-Follows, activate-Follows,
}

module _ {W : Type 0} (env : Environment W) (cfg : RunConfiguration) (logs : Bool) where
  abbrev max : ℕ
  max = cfg.max_steps

  count_attempt-Moves :
      (handler : Text) (attempt : ℕ) (s : RunState W)
      → leb max s.progress.step_count ≡ false
      → Moves max s (count_attempt env cfg logs handler attempt s)
  unfolding count_attempt
  count_attempt-Moves handler attempt s h = record {
    grows = omega arith;
    within = λ k. ground (arith, h);
    lockstep = omega arith;
    emitted = [];
    appended = sym (append-nil s.events);
  }

  begin_attempt-Follows :
      (id handler : Text) (attempt : ℕ)
      → Follows max (begin_attempt env cfg logs id handler attempt)
  unfolding begin_attempt ◌>>=◌
  begin_attempt-Follows id handler attempt s = elim (Bool-cases (leb max s.progress.step_count)) [
    | inl p ↦ rw p (Moves-refl max s)
    | inr p ↦ rw p elim (Bool-cases (env.floats.gt s.progress.total_cost cfg.max_budget)) [
      | inl q ↦ rw q (Moves-refl max s)
      | inr q ↦ rw q (
          Moves-trans max s (count_attempt env cfg logs handler attempt s) _
            (count_attempt-Moves handler attempt s p)
            (saving-Follows env cfg logs max id s.prev_node_id attempt
              (count_attempt env cfg logs handler attempt s)))
    ]
  ]

  begin_attempt-Gains :
      (id handler : Text) (attempt : ℕ) → Gains max (begin_attempt env cfg logs id handler attempt)
  unfolding begin_attempt ◌>>=◌ count_attempt
  begin_attempt-Gains id handler attempt s = elim (Bool-cases (leb max s.progress.step_count)) [
    | inl p ↦ rw p λ i. elim i [ ]
    | inr p ↦ rw p elim (Bool-cases (env.floats.gt s.progress.total_cost cfg.max_budget)) [
      | inl q ↦ rw q λ i. elim i [ ]
      | inr q ↦ rw q λ i. (
        omega (
          arith,
          (saving-Follows env cfg logs max id s.prev_node_id attempt
              (count_attempt env cfg logs handler attempt s)).grows,
        ),
        ground (arith, p),
      )
    ]
  ]

  pub attempt_once-Follows :
      (node : PipelineNode) (resolved : ResolvedNode) (attempt : ℕ)
      → Follows max (attempt_once env cfg logs node resolved attempt)
  unfolding attempt_once
  attempt_once-Follows node resolved attempt =
      Follows-bind max _ _ (begin_attempt-Follows node.id (handler_name resolved.handler) attempt)
        λ u. settled-Follows env cfg logs max node resolved attempt

  pub attempt_once-Gains :
      (node : PipelineNode) (resolved : ResolvedNode) (attempt : ℕ)
      → Gains max (attempt_once env cfg logs node resolved attempt)
  unfolding attempt_once
  attempt_once-Gains node resolved attempt =
      Gains-first max _ _ (begin_attempt-Gains node.id (handler_name resolved.handler) attempt)
        λ u. settled-Follows env cfg logs max node resolved attempt

  next_attempt-Follows :
      (left attempt : ℕ) (node : PipelineNode) (resolved : ResolvedNode)
      → Follows max (attempts env cfg logs left (attempt + 1) node resolved)
      → (r : Option Outcome)
      → Follows max (elim r [
        | some o ↦ pure o
        | none ↦ attempts env cfg logs left (attempt + 1) node resolved
      ])
  next_attempt-Follows left attempt node resolved h (some o) = Moves-refl max
  next_attempt-Follows left attempt node resolved h none = h

  attempts-Follows :
      (left attempt : ℕ) (node : PipelineNode) (resolved : ResolvedNode)
      → Follows max (attempts env cfg logs left attempt node resolved)
  unfolding attempts
  attempts-Follows zero attempt node resolved = Moves-refl max
  attempts-Follows (suc left) attempt node resolved =
      Follows-bind max _ _ (attempt_once-Follows node resolved attempt) (
        next_attempt-Follows left attempt node resolved
          (attempts-Follows left (attempt + 1) node resolved))

  attempts-Gains :
      (left attempt : ℕ) (node : PipelineNode) (resolved : ResolvedNode)
      → Gains max (attempts env cfg logs left attempt node resolved)
  unfolding attempts
  attempts-Gains zero attempt node resolved = λ s i. elim i [ ]
  attempts-Gains (suc left) attempt node resolved =
      Gains-first max _ _ (attempt_once-Gains node resolved attempt) (
        next_attempt-Follows left attempt node resolved
          (attempts-Follows left (attempt + 1) node resolved))

  invoke_active-Follows :
      (node : PipelineNode) (resolved : ResolvedNode) (used : ℕ)
      → Follows max (invoke_active env cfg logs node resolved used)
  invoke_active-Follows node resolved used =
      Follows-if max (leb resolved.invocation.max_attempts used) _ _ (Moves-refl max)
        (attempts-Follows (resolved.invocation.max_attempts - used) used node resolved)

  invoke_active-Gains :
      (node : PipelineNode) (resolved : ResolvedNode) (used : ℕ)
      → Gains max (invoke_active env cfg logs node resolved used)
  invoke_active-Gains node resolved used =
      elim (Bool-cases (leb resolved.invocation.max_attempts used)) [
        | inl p ↦ rw p λ s i. elim i [ ]
        | inr p ↦ rw p (attempts-Gains (resolved.invocation.max_attempts - used) used node resolved)
      ]

  invoked-Follows :
      (node : PipelineNode) (resolved : ResolvedNode)
      → Follows max (
          gets (λ (s : RunState W). s.progress.active_node_attempts)
          >>= invoke_active env cfg logs node resolved)
  invoked-Follows node resolved =
      Follows-bind max _ _
        (gets-Follows env cfg logs max λ (s : RunState W). s.progress.active_node_attempts)
        (invoke_active-Follows node resolved)

  -- Whatever an invocation does, it counts its steps and attempts in lockstep, keeps within the
  -- limit of steps, and only appends events.
  pub invoke_node-Follows :
      (node : PipelineNode) (resolved : ResolvedNode)
      → Follows max (invoke_node env cfg logs node resolved)
  unfolding invoke_node
  invoke_node-Follows node resolved =
      Follows-if max (is_some (lookup (handler_name resolved.handler) env.capabilities)) _ _
        (Follows-bind max _ _ (activate-Follows env cfg logs max node.id)
          λ u. invoked-Follows node resolved)
        (Moves-refl max)

  -- An invocation that returns an outcome has counted a step.
  pub invoke_node-Gains :
      (node : PipelineNode) (resolved : ResolvedNode)
      → Gains max (invoke_node env cfg logs node resolved)
  unfolding invoke_node
  invoke_node-Gains node resolved =
      elim (Bool-cases (is_some (lookup (handler_name resolved.handler) env.capabilities))) [
        | inl p ↦ rw p (
            Gains-second max _ _ (activate-Follows env cfg logs max node.id) λ u.
              Gains-second max _ _
                (gets-Follows env cfg logs max λ (s : RunState W). s.progress.active_node_attempts)
                (invoke_active-Gains node resolved))
        | inr p ↦ rw p λ s i. elim i [ ]
      ]
