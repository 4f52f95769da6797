-- ===== src/Examples/Running.antt =====
-- Runs of the small pipeline.
use pascals_discrete_attract.Base.{
  ℕ, ◌+◌, ◌-◌, ◌≤◌, ◌*◌, ◌^◌, ltb, Text, Bool-cases, inl, inr, true, [], ◌∷◌, none, some, ◌≡◌, refl,
  ◌==◌, lookup, sort_by, sort_with, codes, arith, if◌then◌else◌,
}
use pascals_discrete_attract.Types.{Outcome, success_outcome}
use pascals_discrete_attract.Types.Values.{Json}
use pascals_discrete_attract.Types.Errors.{ok, Ensures}
use pascals_discrete_attract.Types.Store
use pascals_discrete_attract.Graph.{PipelineNode}
use pascals_discrete_attract.Graph
use pascals_discrete_attract.Graph.Attributes.{get_string_attr}
use pascals_discrete_attract.Plan
use pascals_discrete_attract.Plan.{ResolvedNode, is_exit, handler_name, fingerprint}
use pascals_discrete_attract.Plan.Registry.{registry_diagnostics}
use pascals_discrete_attract.Graph.Edges.{slice}
use pascals_discrete_attract.Validation.{validate_plan, target_entry}
use pascals_discrete_attract.Validation.Diagnostics.{error_messages}
use pascals_discrete_attract.Engine.Keys.{retry_delay, apply_handler_updates}
use pascals_discrete_attract.Engine.State.{Environment, RunState, no_progress}
use pascals_discrete_attract.Engine.Run.{run_inner, loop, preflight}
use pascals_discrete_attract.Engine.Frames.{Moves}
use pascals_discrete_attract.Graph.Keyed.{Keyed}
use pascals_discrete_attract.Engine.Invoke.{invoke_node}
use pascals_discrete_attract.Engine.Attempts.{used_attempts}
use pascals_discrete_attract.Engine.Starts.{Counts, invoke_node-starts}
use pascals_discrete_attract.Engine.Termination.{loop-Moves}
use pascals_discrete_attract.Engine.Delays.{retry_delay_lem}
use pascals_discrete_attract.Engine.Reserved.{IsUnreserved, apply_handler_updates-IsUnreserved}
use pascals_discrete_attract.Engine.Covered.{Covered}
use pascals_discrete_attract.Engine.Answers.{IsAnswer, run_inner-IsAnswer}
use pascals_discrete_attract.Engine.Endings.{Told, IsReturned, run_inner-Told, run_inner-IsReturned}
use pascals_discrete_attract.Examples.Fixtures.{
  environment, configuration, fresh, build, resolved_build, resolved_exit,
}

retry_delay_lem_example : retry_delay 70 ≡ (if ltb 70 6 then 500 * 2 ^ 70 else 30000)
retry_delay_lem_example = retry_delay_lem 70

abbrev updates : Outcome
updates = record (success_outcome []) { context_updates = (codes "max_steps", Json.null) ∷ [] }

apply_handler_updates-IsUnreserved_example :
    Ensures IsUnreserved (apply_handler_updates Store.new (codes "build") updates)
apply_handler_updates-IsUnreserved_example =
    apply_handler_updates-IsUnreserved Store.new (codes "build") updates tt

loop-Moves_example : Moves 3 fresh (loop environment configuration true 8 build fresh).1
loop-Moves_example = loop-Moves environment configuration true 8 build fresh

passes : preflight environment configuration true fresh ≡ ok tt
unfolding preflight registry_diagnostics sort_by lookup ◌==◌ handler_name Store.snapshot
    error_messages validate_plan Graph.node sort_with target_entry get_string_attr is_exit
    Graph.outgoing_edges slice
passes = refl

run_inner-Told_example :
    Told environment configuration true
      (run_inner environment configuration true 8 fresh).0
      (run_inner environment configuration true 8 fresh).1
run_inner-Told_example = run_inner-Told environment configuration true 8 fresh passes

keyed : Keyed configuration.plan.graph.nodes
unfolding Keyed
keyed = (refl, (refl, tt))

run_inner-IsReturned_example :
    IsReturned environment configuration true (run_inner environment configuration true 8 fresh).0
run_inner-IsReturned_example =
    run_inner-IsReturned environment configuration true keyed 8 (omega arith) fresh

covered_nodes :
    (id : Text) (n : PipelineNode)
    → Graph.node configuration.plan.graph id ≡ some n
    → (r : ResolvedNode) × (Plan.node configuration.plan id ≡ some r)
unfolding Graph.node Plan.node lookup
covered_nodes id n e = elim (Bool-cases (codes "build" == id)) [
  | inl p ↦ rw p (resolved_build, refl)
  | inr p ↦ elim (Bool-cases (codes "exit" == id)) [
    | inl q ↦ rw (p, q) (resolved_exit, refl)
    | inr q ↦ cc (rw (p, q) at e)
  ]
]

covered : Covered configuration.plan
unfolding Graph.node lookup ◌==◌
covered = record { start = (build, refl); nodes = covered_nodes }

run_inner-IsAnswer_example :
    IsAnswer environment configuration true (run_inner environment configuration true 8 fresh).0
run_inner-IsAnswer_example =
    run_inner-IsAnswer environment configuration true keyed covered 8 (omega arith) fresh

-- The world counts the executions of handlers.
abbrev counting : Environment ℕ
counting = record {
  floats = environment.floats;
  unicode = environment.unicode;
  blake3 = environment.blake3;
  show_value = environment.show_value;
  encode = environment.encode;
  decode = environment.decode;
  capabilities = environment.capabilities;
  resumes_interrupted_attempt = environment.resumes_interrupted_attempt;
  execute = λ n r c w. record {
    result = ok (success_outcome (codes "done"));
    context = c;
    emitted = [];
    world = w + 1;
  };
  execute_within = λ t n r c w. record { result = none; context = c; emitted = []; world = w + 1 };
  now = λ w. codes "now";
  elapsed_ms = λ w. 5;
  head = λ w. (none, w);
  commits_between = λ a b w. (none, w);
  stop_file = λ w. (none, w);
  save_fault = λ w. (none, w);
  checkpoint_path = codes "checkpoint.json";
  load_fault = λ w. (none, w);
  clear_fault = λ w. (none, w);
  journal_fault = λ w. (none, w);
}

counting-Counts : Counts counting (λ w. w)
counting-Counts = record {
  one = λ n r c w. refl;
  one_within = λ t n r c w. refl;
  no_head = λ w. refl;
  no_commits = λ a b w. refl;
  no_save = λ w. refl;
}

abbrev fresh_count : RunState ℕ
fresh_count = record {
  context = fresh.context;
  completed_nodes = [];
  node_outcomes = [];
  quality_loop_counters = [];
  quality_last_footprint = [];
  prev_node_id = none;
  run_id = none;
  progress = no_progress;
  events = [];
  disk = fresh.disk;
  world = 0;
}

invoke_node-starts_example :
    let t = (invoke_node counting configuration true build resolved_build fresh_count).1 in
    (t.world + fresh_count.progress.total_handler_attempts
      ≤ fresh_count.world + t.progress.total_handler_attempts)
    × (t.world
        ≤ fresh_count.world
          + (resolved_build.invocation.max_attempts
              - used_attempts counting configuration true (codes "build") fresh_count))
invoke_node-starts_example =
    invoke_node-starts counting (λ w. w) counting-Counts configuration true build resolved_build
      fresh_count
