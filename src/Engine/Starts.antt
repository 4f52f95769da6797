-- ===== src/Engine/Starts.antt =====
-- The handler executions of an invocation (`invoke_node` of crates/attractor-pipeline/src/engine.rs),
-- counted by the world the handlers run in.
use pascals_discrete_attract.Base.{
  ℕ, zero, suc, ◌+◌, ◌-◌, ◌≤◌, leb, lookup, is_some, Text, Bool, ◌&&◌, List, [], ◌∷◌, Option, none,
  some, ◌==◌, ◌≡◌, arith, inl, inr, Bool-cases,
}
use pascals_discrete_attract.Types.{Outcome}
use pascals_discrete_attract.Types.Errors.{Result, ok, err, is_retryable}
use pascals_discrete_attract.Types.Store
use pascals_discrete_attract.Graph.{PipelineNode}
use pascals_discrete_attract.Plan.{ResolvedNode, handler_name}
use pascals_discrete_attract.Engine.Exec.{Exec, pure, modify, ◌>>=◌, ◌>>◌}
use pascals_discrete_attract.Engine.Events.{
  PipelineEvent, CommitRef, checkpoint_saved, stage_started,
}
use pascals_discrete_attract.Engine.State.{RunConfiguration, Environment, RunState}
use pascals_discrete_attract.Engine.Invoke.{
  emit, write_checkpoint, save, count_attempt, mark_used, absorb, perform_within, perform,
  commits_since, report_commits, emit_run_commits, run_handler, add_cost, charge_retry, settle,
  begin_attempt, attempt_once, attempts, activate, invoke_node, is_retry, cost_of,
}
use pascals_discrete_attract.Engine.Owed.{Owes, Owing, Prepaid, Owing-bind, Owing-if, Owing-Prepaid}
use pascals_discrete_attract.Engine.Attempts.{used_attempts, invoke_node-attempts}

-- `starts` counts the executions of handlers: one execution adds one, with a deadline or without,
-- and git and the files add none.
pub record Counts {W : Type 0} (env : Environment W) (starts : W → ℕ) : Type 0 where
  pub one :
      (n : PipelineNode) (r : ResolvedNode) (c : Store.Context) (w : W)
      → starts (env.execute n r c w).world ≡ starts w + 1
  pub one_within :
      (t : ℕ) (n : PipelineNode) (r : ResolvedNode) (c : Store.Context) (w : W)
      → starts (env.execute_within t n r c w).world ≡ starts w + 1
  pub no_head : (w : W) → starts (env.head w).1 ≡ starts w
  pub no_commits : (a b : Text) (w : W) → starts (env.commits_between a b w).1 ≡ starts w
  pub no_save : (w : W) → starts (env.save_fault w).1 ≡ starts w

module _ {W : Type 0} (env : Environment W) (starts : W → ℕ) (counts : Counts env starts)
    (cfg : RunConfiguration) (logs : Bool) where
  -- Neither executes a handler nor counts an attempt.
  abbrev Still : {A : Type 0} → Exec (RunState W) A → Type 0
  Still m = Owing starts 0 m

  emit-Still : (e : PipelineEvent) → Still (emit env cfg logs e)
  unfolding emit
  emit-Still e s = omega arith

  then-Still :
      {A B : Type 0} (m : Exec (RunState W) A) (f : A → Exec (RunState W) B)
      → Still m
      → ((a : A) → Still (f a))
      → Still (m >>= f)
  then-Still m f = Owing-bind starts 0 0 m f

  save-Still : (id : Text) (previous : Option Text) → Still (save env cfg logs id previous)
  unfolding save write_checkpoint
  save-Still id previous =
      Owing-if starts 0 logs _ _
        (then-Still _ _ (λ s. omega arith)
          λ cp.
            then-Still _ _ (λ s. omega (arith, counts.no_save s.world))
              λ fault. then-Still _ _ (λ s. omega arith) λ u. emit-Still (checkpoint_saved id))
        λ s. omega arith

  perform-Owing : (n : PipelineNode) (r : ResolvedNode) → Owing starts 1 (perform env cfg logs n r)
  unfolding perform perform_within absorb
  perform-Owing n r = within r.invocation.timeout
    where
      within : (timeout : Option ℕ) → Owing starts 1 (perform_within env cfg logs timeout n r)
      within none s = omega (arith, counts.one n r s.context s.world)
      within (some t) s = omega (arith, counts.one_within t n r s.context s.world)

  report_commits-Still :
      (id : Text) (task : Option Text) (commits : Option (List CommitRef))
      → Still (report_commits env cfg logs id task commits)
  unfolding report_commits
  report_commits-Still id task none = λ s. omega arith
  report_commits-Still id task (some []) = λ s. omega arith
  report_commits-Still id task (some (c ∷ cs)) = emit-Still _

  commits_since-Still :
      (id : Text) (task : Option Text) (before : Text) (after : Option Text)
      → Still (commits_since env cfg logs id task before after)
  unfolding commits_since
  commits_since-Still id task before none = λ s. omega arith
  commits_since-Still id task before (some after) =
      Owing-if starts 0 (after == before) _ _ (λ s. omega arith)
        (then-Still _ _ (λ s. omega (arith, counts.no_commits before after s.world))
          λ commits. report_commits-Still id task commits)

  emit_run_commits-Still :
      (id : Text) (before task : Option Text) → Still (emit_run_commits env cfg logs id before task)
  unfolding emit_run_commits
  emit_run_commits-Still id none task = λ s. omega arith
  emit_run_commits-Still id (some before) task =
      then-Still _ _ (λ s. omega (arith, counts.no_head s.world))
        λ after. commits_since-Still id task before after

  run_handler-Owing :
      (n : PipelineNode) (r : ResolvedNode) → Owing starts 1 (run_handler env cfg logs n r)
  unfolding run_handler
  run_handler-Owing n r =
      Owing-bind starts 0 1 _ _ (λ s. omega (arith, counts.no_head s.world))
        λ before.
          Owing-bind starts 0 1 _ _ (λ s. omega arith)
            λ task_before.
              Owing-bind starts 0 1 _ _ (emit-Still (stage_started n.id (handler_name r.handler)))
                λ u. Owing-bind starts 1 0 _ _ (perform-Owing n r) λ result.
                  then-Still _ _ (λ s. omega arith)
                    λ task.
                      then-Still _ _ (emit_run_commits-Still n.id before task) λ v s. omega arith

  charge_retry-Still : (id : Text) (cost : Option ℕ) → Still (charge_retry env cfg logs id cost)
  unfolding charge_retry add_cost
  charge_retry-Still id none s = omega arith
  charge_retry-Still id (some cost) s =
      then-Still (modify (add_cost env cfg logs cost)) (λ u. save env cfg logs id s.prev_node_id)
        (λ t. omega arith) (λ u. save-Still id s.prev_node_id) s

  settle-Still :
      (n : PipelineNode) (attempt : ℕ) (more : Bool) (r : Result Outcome)
      → Still (settle env cfg logs n attempt more r)
  unfolding settle emit
  settle-Still n attempt more (ok outcome) =
      Owing-if starts 0 (is_retry outcome.status && more) _ _
        (then-Still _ _ (charge_retry-Still n.id (cost_of n.id outcome))
          λ u. then-Still _ _ (λ t. omega arith) λ v s. omega arith)
        (then-Still _ _ (λ s. omega arith)
          λ duration. then-Still _ _ (λ t. omega arith) λ u s. omega arith)
  settle-Still n attempt more (err error) =
      Owing-if starts 0 (is_retryable error && more) _ _
        (then-Still _ _ (λ t. omega arith)
          λ u. then-Still _ _ (λ t. omega arith) λ v s. omega arith)
        (then-Still _ _ (λ t. omega arith) λ u s. omega arith)

  -- The checkpoint before an attempt counts nothing.
  saved-Still :
      (id : Text) (previous : Option Text) (attempt : ℕ)
      → Still (save env cfg logs id previous >> modify (mark_used env cfg logs attempt))
  unfolding mark_used
  saved-Still id previous attempt = then-Still _ _ (save-Still id previous) λ u s. omega arith

  counted-Prepaid :
      (r : Result (Unit {0})) (handler : Text) (attempt : ℕ) (s t : RunState W)
      → Owes starts 0 (count_attempt env cfg logs handler attempt s) t
      → Prepaid starts r s t
  unfolding count_attempt
  counted-Prepaid (ok u) handler attempt s t h = omega (arith, h)
  counted-Prepaid (err e) handler attempt s t h = omega (arith, h)

  begin_attempt-Prepaid :
      (id handler : Text) (attempt : ℕ) (s : RunState W)
      → Prepaid starts
          (begin_attempt env cfg logs id handler attempt s).0
          s
          (begin_attempt env cfg logs id handler attempt s).1
  unfolding begin_attempt ◌>>=◌
  begin_attempt-Prepaid id handler attempt s =
      elim (Bool-cases (leb cfg.max_steps s.progress.step_count)) [
        | inl p ↦ rw p (omega arith)
        | inr p ↦ rw p elim (Bool-cases (env.floats.gt s.progress.total_cost cfg.max_budget)) [
          | inl q ↦ rw q (omega arith)
          | inr q ↦ rw q (
              counted-Prepaid _ handler attempt s _ (
                saved-Still id s.prev_node_id attempt
                  (count_attempt env cfg logs handler attempt s)))
        ]
      ]

  attempt_once-Still :
      (n : PipelineNode) (r : ResolvedNode) (attempt : ℕ)
      → Still (attempt_once env cfg logs n r attempt)
  unfolding attempt_once
  attempt_once-Still n r attempt =
      Owing-Prepaid starts _ _ (begin_attempt-Prepaid n.id (handler_name r.handler) attempt) λ u.
        Owing-bind starts 1 0 _ _ (run_handler-Owing n r) λ result. settle-Still n attempt _ result

  next_attempt-Still :
      (left attempt : ℕ) (n : PipelineNode) (r : ResolvedNode)
      → Still (attempts env cfg logs left (attempt + 1) n r)
      → (o : Option Outcome)
      → Still (elim o [
        | some outcome ↦ pure outcome
        | none ↦ attempts env cfg logs left (attempt + 1) n r
      ])
  next_attempt-Still left attempt n r h (some o) = λ s. omega arith
  next_attempt-Still left attempt n r h none = h

  attempts-Still :
      (left attempt : ℕ) (n : PipelineNode) (r : ResolvedNode)
      → Still (attempts env cfg logs left attempt n r)
  unfolding attempts
  attempts-Still zero attempt n r = λ s. omega arith
  attempts-Still (suc left) attempt n r =
      then-Still _ _ (attempt_once-Still n r attempt)
        (next_attempt-Still left attempt n r (attempts-Still left (attempt + 1) n r))

  invoke_node-Still : (n : PipelineNode) (r : ResolvedNode) → Still (invoke_node env cfg logs n r)
  unfolding invoke_node activate
  invoke_node-Still n r =
      Owing-if starts 0 (is_some (lookup (handler_name r.handler) env.capabilities)) _ _
        (then-Still _ _ (λ s. ground arith)
          λ u.
            then-Still _ _ (λ s. omega arith)
              λ used.
                Owing-if starts 0 (leb r.invocation.max_attempts used) _ _ (λ s. omega arith)
                  (attempts-Still (r.invocation.max_attempts - used) used n r))
        (λ s. omega arith)

  -- Where the world counts the executions of handlers, an invocation executes handlers at most as
  -- often as it adds to the count of handler attempts, and at most as often as the policy of the
  -- node has attempts that the node has not used yet, whether it returns an outcome or an error.
  pub invoke_node-starts :
      (n : PipelineNode) (r : ResolvedNode) (s : RunState W)
      → let t = (invoke_node env cfg logs n r s).1 in
        (starts t.world + s.progress.total_handler_attempts
          ≤ starts s.world + t.progress.total_handler_attempts)
        × (starts t.world
            ≤ starts s.world + (r.invocation.max_attempts - used_attempts env cfg logs n.id s))
  invoke_node-starts n r s = (
    omega (arith, invoke_node-Still n r s),
    omega (arith, invoke_node-Still n r s, invoke_node-attempts env cfg logs n r s),
  )
