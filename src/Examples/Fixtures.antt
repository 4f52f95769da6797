-- ===== src/Examples/Fixtures.antt =====
-- A small pipeline: `build`, a goal gate that retries itself, and an exit node.
use pascals_discrete_attract.Base.{
  ◌+◌, Text, Map, true, false, [], ◌∷◌, none, some, ℤ, codes, Unicode, is_ascii_alphanumeric, ltb,
}
use pascals_discrete_attract.Types.{Outcome, success_outcome, fail_outcome}
use pascals_discrete_attract.Types.Values.{FloatOps}
use pascals_discrete_attract.Types.Errors.{ok}
use pascals_discrete_attract.Types.Store
use pascals_discrete_attract.Graph.{PipelineGraph, PipelineNode}
use pascals_discrete_attract.Graph.Dot.{string, EdgeDef, DotGraph}
use pascals_discrete_attract.Graph.Edges.{PipelineEdge}
use pascals_discrete_attract.Plan.{ExecutionPlan, ResolvedNode, ResolvedNodeKind, HandlerIdentity}
use pascals_discrete_attract.Checkpoint.{PipelineCheckpoint, new_checkpoint}
use pascals_discrete_attract.Engine.State.{RunConfiguration, Environment, RunState, no_progress}

abbrev pub ascii : Unicode
ascii = record {
  is_alphanumeric = is_ascii_alphanumeric;
  is_word = is_ascii_alphanumeric;
  to_lowercase = λ t. t;
}

abbrev pub plain_node : Text → PipelineNode
plain_node id = record {
  id = id;
  label = id;
  shape = codes "box";
  node_type = none;
  prompt = none;
  goal_gate = false;
  retry_target = none;
  fallback_retry_target = none;
  classes = [];
  timeout = none;
  llm_model = none;
  llm_provider = none;
  raw_attrs = [];
}

abbrev pub build : PipelineNode
build = record (plain_node (codes "build")) {
  goal_gate = true;
  retry_target = some (codes "build");
}

abbrev pub exit_point : PipelineNode
exit_point = plain_node (codes "exit")

abbrev pub to_exit : EdgeDef
to_exit = record {
  from = codes "build";
  to = codes "exit";
  attrs = (codes "label", string (codes "ship")) ∷ [];
}

abbrev pub back : EdgeDef
back = record {
  from = codes "build";
  to = codes "build";
  attrs = (codes "condition", string (codes "outcome=fail")) ∷ [];
}

abbrev pub file : DotGraph
file = record {
  name = codes "release";
  attrs = [];
  nodes = [];
  edges = to_exit ∷ back ∷ [];
  subgraphs = [];
  node_defaults = [];
  edge_defaults = [];
}

abbrev pub edge_to_exit : PipelineEdge
edge_to_exit = record {
  from = codes "build";
  to = codes "exit";
  label = some (codes "ship");
  condition = none;
  weight = ℤ.pos 0;
  loop_restart = false;
  reset_quality_loop_state = false;
  raw_attrs = [];
}

abbrev pub graph_of : PipelineNode → PipelineGraph
graph_of gate = record {
  name = codes "release";
  goal = [];
  attrs = [];
  nodes = (codes "build", gate) ∷ (codes "exit", exit_point) ∷ [];
  authored_node_attrs = [];
  edges = edge_to_exit ∷ [];
  adjacency = (codes "build", (0, 1)) ∷ [];
}

abbrev pub graph : PipelineGraph
graph = graph_of build

abbrev pub resolved_build : ResolvedNode
resolved_build = record {
  node_id = codes "build";
  kind = ResolvedNodeKind.tool;
  handler = HandlerIdentity.tool;
  provider = none;
  invocation = record { max_attempts = 2; timeout = none };
}

abbrev pub resolved_exit : ResolvedNode
resolved_exit = record {
  node_id = codes "exit";
  kind = ResolvedNodeKind.exit;
  handler = HandlerIdentity.exit;
  provider = none;
  invocation = record { max_attempts = 1; timeout = none };
}

abbrev pub plan_of : PipelineGraph → ExecutionPlan
plan_of g = record {
  graph = g;
  nodes = (codes "build", resolved_build) ∷ (codes "exit", resolved_exit) ∷ [];
  handler_capabilities = (codes "tool", false) ∷ (codes "exit", false) ∷ [];
  start_id = codes "build";
  exit_ids = codes "exit" ∷ [];
}

abbrev pub configuration_of : PipelineGraph → RunConfiguration
configuration_of g = record {
  plan = plan_of g;
  max_steps = 3;
  max_budget = 200;
  quality_max_fix_iterations = λ id. 2;
  graph_context_defaults = [];
}

abbrev pub configuration : RunConfiguration
configuration = configuration_of graph

-- Whole numbers stand for their floats.
abbrev pub whole : FloatOps
whole = record { add = λ a b. a + b; gt = λ a b. ltb b a; two_decimals = λ a. [] }

abbrev pub first_checkpoint : PipelineCheckpoint
first_checkpoint = new_checkpoint (codes "now") (codes "build") [] [] []

-- Every handler succeeds; nothing outside fails; the file of a checkpoint is its node.
abbrev pub environment : Environment (Unit {0})
environment = record {
  floats = whole;
  unicode = ascii;
  blake3 = λ t. t;
  show_value = λ v. [];
  encode = λ cp. ok cp.current_node_id;
  decode = λ text. ok (new_checkpoint (codes "now") text [] [] []);
  capabilities = (codes "tool", false) ∷ (codes "exit", false) ∷ [];
  resumes_interrupted_attempt = λ h. false;
  execute = λ n r c w. record {
    result = ok (success_outcome (codes "done"));
    context = c;
    emitted = [];
    world = w;
  };
  execute_within = λ t n r c w. record {
    result = some (ok (success_outcome (codes "done")));
    context = c;
    emitted = [];
    world = w;
  };
  now = λ w. codes "now";
  elapsed_ms = λ w. 5;
  head = λ w. (none, w);
  commits_between = λ a b w. (none, w);
  stop_file = λ w. (none, w);
  save_fault = λ w. (none, w);
  checkpoint_path = codes "checkpoint.json";
  load_fault = λ w. (none, w);
  clear_fault = λ w. (none, w);
  journal_fault = λ w. (none, w);
}

abbrev pub fresh : RunState (Unit {0})
fresh = record {
  context = Store.new;
  completed_nodes = [];
  node_outcomes = [];
  quality_loop_counters = [];
  quality_last_footprint = [];
  prev_node_id = none;
  run_id = none;
  progress = no_progress;
  events = [];
  disk = record { checkpoint = none; tmp = none };
  world = tt;
}

abbrev pub failed_build : Map Outcome
failed_build = (codes "build", fail_outcome (codes "tests")) ∷ []
