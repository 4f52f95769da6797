-- ===== src/Journal/Event.antt =====
-- crates/attractor-journal/src/event.rs: the events of a journal. Times are in milliseconds.
use pascals_discrete_attract.Base.{ℕ, Text, Map, Bool, true, false, List, Option, codes}
use pascals_discrete_attract.Types.Values.{Json, F64}
use pascals_discrete_attract.Engine.Events.{CommitRef}

pub data AttemptEndReason : Type 0 where
  completed failed stopped budget_exhausted max_steps error : AttemptEndReason

pub data AnswerSource : Type 0 where
  terminal monitor cli : AnswerSource

pub record TaskSummary : Type 0 where
  pub id : Text
  pub title : Text
  pub status : Text

-- The fields of `LlmInvoked`.
pub record Invocation : Type 0 where
  pub invocation_id : Text
  pub node_id : Text
  pub provider : Text
  pub model_requested : Option Text
  pub model_actual : Option Text
  pub input_tokens : Option ℕ
  pub output_tokens : Option ℕ
  pub cost_usd : Option F64
  pub duration_ms : ℕ
  pub transcript : Text
  pub status : Text

-- The fields of `RunStarted`.
pub record RunStart : Type 0 where
  pub pipeline_name : Text
  pub pipeline_path : Text
  pub workdir : Text
  pub epic_id : Option Text
  pub max_budget_usd : Option F64
  pub max_steps : Option ℕ
  pub shared_workdir : Bool

-- The fields stand in the order of the source.
pub data EventData : Type 0 where
  run_started : RunStart → EventData
  attempt_started : ℕ → ℕ → Text → List Text → Option Text → Option Text → EventData
  attempt_ended : ℕ → AttemptEndReason → Option Text → EventData
  heartbeat : ℕ → EventData
  pipeline_started : Text → ℕ → EventData
  pipeline_completed : Text → List Text → ℕ → EventData
  pipeline_failed : Text → Text → EventData
  stage_started : Text → Text → EventData
  stage_completed : Text → Text → ℕ → EventData
  stage_failed : Text → Text → EventData
  stage_retrying : Text → ℕ → EventData
  edge_selected : Text → Text → Option Text → EventData
  goal_gate_checked : Text → Bool → EventData
  checkpoint_saved : Text → EventData
  context_updated : Text → List Text → EventData
  epic_snapshot : Text → Text → List TaskSummary → EventData
  task_claimed : Text → Text → Text → Text → EventData
  task_selection_blocked : Text → List Text → Map (List Text) → EventData
  task_closed : Text → Text → Bool → List Text → EventData
  llm_invoked : Invocation → EventData
  commits_created : Text → Option Text → List CommitRef → EventData
  human_input_requested : Text → Text → Text → List Text → Option Text → EventData
  human_input_answered : Text → Text → AnswerSource → EventData
  stop_requested : Text → EventData
  unknown : Text → Json → EventData

pub record JournalEvent : Type 0 where
  pub v : ℕ
  pub seq : ℕ
  pub ts : ℕ
  pub run_id : Text
  pub attempt : ℕ
  pub data_ : EventData

unfoldable pub is_unknown : EventData → Bool
is_unknown (unknown name value) = true
is_unknown _ = false

unfoldable pub needs_fsync : EventData → Bool
needs_fsync (attempt_ended attempt reason message) = true
needs_fsync (human_input_requested id node text choices default) = true
needs_fsync _ = false

unfoldable pub type_name : EventData → Text
type_name (run_started start) = codes "RunStarted"
type_name (attempt_started attempt pid version argv head resumed) = codes "AttemptStarted"
type_name (attempt_ended attempt reason message) = codes "AttemptEnded"
type_name (heartbeat pid) = codes "Heartbeat"
type_name (pipeline_started name count) = codes "PipelineStarted"
type_name (pipeline_completed name nodes ms) = codes "PipelineCompleted"
type_name (pipeline_failed name message) = codes "PipelineFailed"
type_name (stage_started node handler) = codes "StageStarted"
type_name (stage_completed node status ms) = codes "StageCompleted"
type_name (stage_failed node message) = codes "StageFailed"
type_name (stage_retrying node attempt) = codes "StageRetrying"
type_name (edge_selected from to label) = codes "EdgeSelected"
type_name (goal_gate_checked node satisfied) = codes "GoalGateChecked"
type_name (checkpoint_saved node) = codes "CheckpointSaved"
type_name (context_updated node keys) = codes "ContextUpdated"
type_name (epic_snapshot epic title tasks) = codes "EpicSnapshot"
type_name (task_claimed task title epic node) = codes "TaskClaimed"
type_name (task_selection_blocked epic pending blocked) = codes "TaskSelectionBlocked"
type_name (task_closed task reason verified commits) = codes "TaskClosed"
type_name (llm_invoked invocation) = codes "LlmInvoked"
type_name (commits_created node task commits) = codes "CommitsCreated"
type_name (human_input_requested id node text choices default) = codes "HumanInputRequested"
type_name (human_input_answered id choice source) = codes "HumanInputAnswered"
type_name (stop_requested source) = codes "StopRequested"
type_name (unknown name value) = name
