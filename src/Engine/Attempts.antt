-- ===== src/Engine/Attempts.antt =====
-- The steps that an invocation of a node counts (`invoke_node` of crates/attractor-pipeline/src/engine.rs).
use pascals_discrete_attract.Base.{
  ℕ, zero, suc, ◌+◌, ◌-◌, ◌≤◌, leb, ltb, lookup, is_some, Text, Bool, Option, none, some, ◌≡◌,
  arith, inl, inr, Bool-cases,
}
use pascals_discrete_attract.Types.{Outcome}
use pascals_discrete_attract.Types.Errors.{Result, ok, err}
use pascals_discrete_attract.Graph.{PipelineNode}
use pascals_discrete_attract.Plan.{ResolvedNode, handler_name}
use pascals_discrete_attract.Engine.Exec.{Exec, pure, modify, continue, ◌>>=◌, ◌>>◌}
use pascals_discrete_attract.Engine.State.{RunConfiguration, Environment, RunState}
use pascals_discrete_attract.Engine.Invoke.{
  save, count_attempt, mark_used, begin_attempt, run_handler, settle, attempt_once, attempts,
  activate, invoke_active, invoke_node,
}
use pascals_discrete_attract.Engine.Frames.{Follows}
use pascals_discrete_attract.Engine.Quiet.{saving-Follows, settled-Follows}
use pascals_discrete_attract.Engine.Steps.{invoke_node-Follows}

module _ {W : Type 0} where
  -- At most `k` steps are counted from the state `s` to the state `t`.
  abbrev Within : ℕ → RunState W → RunState W → Type 0
  Within k s t = t.progress.step_count ≤ s.progress.step_count + k

  -- What keeps the frame for every limit counts no step.
  still :
      {A : Type 0} (m : Exec (RunState W) A)
      → ((limit : ℕ) → Follows limit m)
      → (s : RunState W) → Within 0 s (m s).1
  still m h s = omega (arith, (h s.progress.step_count s).within (omega arith))

  continue-Within :
      {A B : Type 0} (j k : ℕ) (r : Result A) (f : A → Exec (RunState W) B) (s t : RunState W)
      → Within j s t
      → ((a : A) (u : RunState W) → Within k u (f a u).1)
      → Within (j + k) s (continue r f t).1
  continue-Within j k (ok a) f s t h g = omega (arith, h, g a t)
  continue-Within j k (err e) f s t h g = omega (arith, h)

  bind-Within :
      {A B : Type 0} (j k : ℕ) (m : Exec (RunState W) A) (f : A → Exec (RunState W) B)
      → ((s : RunState W) → Within j s (m s).1)
      → ((a : A) (u : RunState W) → Within k u (f a u).1)
      → (s : RunState W) → Within (j + k) s ((m >>= f) s).1
  unfolding ◌>>=◌
  bind-Within j k m f h g s = continue-Within j k (m s).0 f s (m s).1 (h s) g

module _ {W : Type 0} (env : Environment W) (cfg : RunConfiguration) (logs : Bool) where
  begin_attempt-Within :
      (id handler : Text) (attempt : ℕ) (s : RunState W)
      → Within 1 s (begin_attempt env cfg logs id handler attempt s).1
  unfolding begin_attempt ◌>>=◌ count_attempt
  begin_attempt-Within id handler attempt s =
      elim (Bool-cases (leb cfg.max_steps s.progress.step_count)) [
        | inl p ↦ rw p (omega arith)
        | inr p ↦ rw p elim (Bool-cases (env.floats.gt s.progress.total_cost cfg.max_budget)) [
          | inl q ↦ rw q (omega arith)
          | inr q ↦ rw q (
              omega (
                arith,
                still
                    (save env cfg logs id s.prev_node_id >> modify (mark_used env cfg logs attempt))
                    (λ limit. saving-Follows env cfg logs limit id s.prev_node_id attempt)
                    (count_attempt env cfg logs handler attempt s),
              ))
        ]
      ]

  attempt_once-Within :
      (n : PipelineNode) (r : ResolvedNode) (attempt : ℕ) (s : RunState W)
      → Within (1 + 0) s (attempt_once env cfg logs n r attempt s).1
  unfolding attempt_once
  attempt_once-Within n r attempt =
      bind-Within 1 0 _ _ (begin_attempt-Within n.id (handler_name r.handler) attempt) λ u.
        still
          (run_handler env cfg logs n r >>= λ result.
            settle env cfg logs n attempt (ltb (attempt + 1) r.invocation.max_attempts) result)
          (λ limit. settled-Follows env cfg logs limit n r attempt)

  next_attempt-Within :
      (left attempt : ℕ) (n : PipelineNode) (r : ResolvedNode)
      → ((s : RunState W) → Within left s (attempts env cfg logs left (attempt + 1) n r s).1)
      → (o : Option Outcome) (s : RunState W)
      → Within left s
          ((elim o as (λ o. Exec (RunState W) Outcome) [
            | some outcome ↦ pure outcome
            | none ↦ attempts env cfg logs left (attempt + 1) n r
          ])
            s).1
  next_attempt-Within left attempt n r h (some o) s = omega arith
  next_attempt-Within left attempt n r h none s = h s

  attempts-Within :
      (left attempt : ℕ) (n : PipelineNode) (r : ResolvedNode) (s : RunState W)
      → Within left s (attempts env cfg logs left attempt n r s).1
  unfolding attempts
  attempts-Within zero attempt n r s = omega arith
  attempts-Within (suc left) attempt n r s =
      let counted : Within (1 + 0 + left) s (attempts env cfg logs (suc left) attempt n r s).1 =
        bind-Within (1 + 0) left _ _ (attempt_once-Within n r attempt)
          (next_attempt-Within left attempt n r (attempts-Within left (attempt + 1) n r)) s in
      omega (arith, counted)

  invoke_active-Within :
      (n : PipelineNode) (r : ResolvedNode) (used : ℕ) (s : RunState W)
      → Within (r.invocation.max_attempts - used) s (invoke_active env cfg logs n r used s).1
  invoke_active-Within n r used s = elim (Bool-cases (leb r.invocation.max_attempts used)) [
    | inl p ↦ rw p (omega arith)
    | inr p ↦ rw p (attempts-Within (r.invocation.max_attempts - used) used n r s)
  ]

  -- The attempts of the node that a state has used already: those of another node do not count.
  unfoldable pub used_attempts : Text → RunState W → ℕ
  used_attempts id s = (activate env cfg logs id s).progress.active_node_attempts

  activate-steps :
      (id : Text) (s : RunState W)
      → (activate env cfg logs id s).progress.step_count ≡ s.progress.step_count
  unfolding activate
  activate-steps id s = ground arith

  invoke_node-steps :
      (n : PipelineNode) (r : ResolvedNode) (s : RunState W)
      → Within
          (r.invocation.max_attempts - used_attempts n.id s)
          s
          (invoke_node env cfg logs n r s).1
  unfolding invoke_node ◌>>=◌ used_attempts
  invoke_node-steps n r s =
      elim (Bool-cases (is_some (lookup (handler_name r.handler) env.capabilities))) [
        | inl p ↦ rw p (
            omega (
              arith,
              activate-steps n.id s,
              invoke_active-Within n r (activate env cfg logs n.id s).progress.active_node_attempts
                  (activate env cfg logs n.id s),
            ))
        | inr p ↦ rw p (omega arith)
      ]

  -- An invocation adds to the count of handler attempts at most the attempts that the policy of the
  -- node has and the node has not used yet, whether it returns an outcome or an error.
  pub invoke_node-attempts :
      (n : PipelineNode) (r : ResolvedNode) (s : RunState W)
      → (invoke_node env cfg logs n r s).1.progress.total_handler_attempts
        ≤ s.progress.total_handler_attempts + (r.invocation.max_attempts - used_attempts n.id s)
  invoke_node-attempts n r s =
      omega (arith, invoke_node-steps n r s, (invoke_node-Follows env cfg logs n r s).lockstep)
