-- ===== src/Engine/Events.antt =====
-- crates/attractor-pipeline/src/events.rs: the events of a run, as the engine emits them.
use pascals_discrete_attract.Base.{ℕ, Text, Bool, List, Option}

-- `CommitRef` of the journal.
pub record CommitRef : Type 0 where
  pub sha : Text
  pub subject : Text
  pub author : Text
  pub ts : Text

-- What a handler emits through its event sink is `from_handler`, with the name of the event.
pub data PipelineEvent : Type 0 where
  pipeline_started : Text → ℕ → PipelineEvent
  pipeline_completed : Text → List Text → ℕ → PipelineEvent
  pipeline_failed : Text → Text → PipelineEvent
  stage_started : Text → Text → PipelineEvent
  stage_completed : Text → Text → ℕ → PipelineEvent
  stage_failed : Text → Text → PipelineEvent
  stage_retrying : Text → ℕ → PipelineEvent
  edge_selected : Text → Text → Option Text → PipelineEvent
  goal_gate_checked : Text → Bool → PipelineEvent
  checkpoint_saved : Text → PipelineEvent
  stop_requested : Text → PipelineEvent
  context_updated : Text → List Text → PipelineEvent
  commits_created : Text → Option Text → List CommitRef → PipelineEvent
  from_handler : Text → PipelineEvent
