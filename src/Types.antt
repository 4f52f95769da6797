-- ===== src/Types.antt =====
-- crates/attractor-types: the outcome of a stage, JSON values, the error type, the shared context.
pub mod Errors
pub mod Display
pub mod Values
pub mod Store
use pascals_discrete_attract.Base.{Text, Map, List, [], Option, none, some}
use Values.{Json}

-- `StageStatus`.
pub data StageStatus : Type 0 where
  success partial_success retry fail skipped : StageStatus

-- `Outcome`.
pub record Outcome : Type 0 where
  pub status : StageStatus
  pub preferred_label : Option Text
  pub suggested_next_ids : List Text
  pub context_updates : Map Json
  pub notes : Text
  pub failure_reason : Option Text

-- `Outcome::success`.
unfoldable pub success_outcome : Text → Outcome
success_outcome notes = record {
  status = success;
  preferred_label = none;
  suggested_next_ids = [];
  context_updates = [];
  notes = notes;
  failure_reason = none;
}

-- `Outcome::fail`.
unfoldable pub fail_outcome : Text → Outcome
fail_outcome reason = record {
  status = fail;
  preferred_label = none;
  suggested_next_ids = [];
  context_updates = [];
  notes = [];
  failure_reason = some reason;
}

-- `Outcome::with_label`.
unfoldable pub with_label : StageStatus → Text → Outcome
with_label status label = record {
  status = status;
  preferred_label = some label;
  suggested_next_ids = [];
  context_updates = [];
  notes = [];
  failure_reason = none;
}
