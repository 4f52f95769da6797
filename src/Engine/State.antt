-- ===== src/Engine/State.antt =====
-- The state of a run of the engine, and what the run takes from outside.
use pascals_discrete_attract.Base.{ℕ, Text, Map, Bool, List, Option, none, Unicode}
use pascals_discrete_attract.Types.{Outcome}
use pascals_discrete_attract.Types.Values.{Json, F64, f64_zero, FloatOps}
use pascals_discrete_attract.Types.Errors.{Result}
use pascals_discrete_attract.Types.Store.{Context}
use pascals_discrete_attract.Graph.{PipelineNode}
use pascals_discrete_attract.Plan.{ExecutionPlan, ResolvedNode}
use pascals_discrete_attract.Checkpoint.{PipelineCheckpoint, Disk, SaveFault, LoadFault, ClearFault}
use pascals_discrete_attract.Engine.Events.{PipelineEvent, CommitRef}

-- `ExecutionProgress`.
pub record Progress : Type 0 where
  pub step_count : ℕ
  pub total_cost : F64
  pub total_handler_attempts : ℕ
  pub active_node_id : Option Text
  pub active_node_attempts : ℕ

abbrev pub no_progress : Progress
no_progress = record {
  step_count = 0;
  total_cost = f64_zero;
  total_handler_attempts = 0;
  active_node_id = none;
  active_node_attempts = 0;
}

-- `RunConfiguration`: the plan and the immutable controls of a run.
pub record RunConfiguration : Type 0 where
  pub plan : ExecutionPlan
  pub max_steps : ℕ
  pub max_budget : F64
  pub quality_max_fix_iterations : Text → ℕ
  pub graph_context_defaults : Map Json

-- What one call of a handler leaves: its result, or none where the deadline came first.
pub record Attempt (W A : Type 0) : Type 0 where
  pub result : A
  pub context : Context
  pub emitted : List PipelineEvent
  pub world : W

-- Everything a run does not compute itself: the registered handlers, the clock, git, the control
-- and checkpoint files and the faults of the file system. `W` is the state of that world.
pub record Environment (W : Type 0) : Type 0 where
  pub floats : FloatOps
  pub unicode : Unicode
  pub blake3 : Text → Text
  pub show_value : Json → Text
  pub encode : PipelineCheckpoint → Result Text
  pub decode : Text → Result PipelineCheckpoint
  pub capabilities : Map Bool
  pub resumes_interrupted_attempt : Text → Bool
  pub execute : PipelineNode → ResolvedNode → Context → W → Attempt W (Result Outcome)
  pub execute_within :
      ℕ → PipelineNode → ResolvedNode → Context → W → Attempt W (Option (Result Outcome))
  pub now : W → Text
  pub elapsed_ms : W → ℕ
  pub head : W → Option Text × W
  pub commits_between : Text → Text → W → Option (List CommitRef) × W
  -- `control/stop` of the attached run folder: absent, unreadable, or its parsed content.
  pub stop_file : W → Option (Option Json) × W
  pub save_fault : W → Option SaveFault × W
  -- The path of the checkpoint, for error messages.
  pub checkpoint_path : Text
  pub load_fault : W → Option LoadFault × W
  pub clear_fault : W → Option ClearFault × W
  -- Where the Run Journal does not take its first event: its path and the error.
  pub journal_fault : W → Option Text × W

-- The variables of `run_inner`, the events emitted so far, the run folder's files and the world.
pub record RunState (W : Type 0) : Type 0 where
  pub context : Context
  pub completed_nodes : List Text
  pub node_outcomes : Map Outcome
  pub quality_loop_counters : Map ℕ
  pub quality_last_footprint : Map Text
  pub prev_node_id : Option Text
  pub run_id : Option Text
  pub progress : Progress
  pub events : List PipelineEvent
  pub disk : Disk
  pub world : W

pub record PipelineResult : Type 0 where
  pub completed_nodes : List Text
  pub node_outcomes : Map Outcome
  pub final_context : Map Json
  pub total_cost : F64
  pub stopped_before : Option Text
