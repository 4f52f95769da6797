-- ===== src/Checkpoint.antt =====
-- crates/attractor-pipeline/src/checkpoint.rs: the snapshot of a run and its file. The JSON text of
-- a checkpoint is made and read by serde, the parameters `encode` and `decode`.
pub mod Atomic
pub mod Resume
use pascals_discrete_attract.Base.{
  ℕ, Text, Map, Bool, true, false, List, [], ◌∷◌, ◌++◌, Option, none, some, codes, decimal, ltb,
  not, take, ◌==◌, if◌then◌else◌,
}
use pascals_discrete_attract.Types.{Outcome}
use pascals_discrete_attract.Types.Values.{Json, F64, f64_zero}
use pascals_discrete_attract.Types.Errors.{
  AttractorError, checkpoint_incompatible, io, json, Result, ok, err,
}

pub record PipelineCheckpoint : Type 0 where
  pub current_node_id : Text
  pub completed_nodes : List Text
  pub node_outcomes : Map Outcome
  pub context_snapshot : Map Json
  pub timestamp : Text
  pub run_id : Option Text
  pub session_id : Option Text
  pub step_count : ℕ
  pub total_cost : F64
  pub schema_version : ℕ
  pub quality_loop_counters : Map ℕ
  pub quality_last_footprint : Map Text
  pub previous_node_id : Option Text
  pub total_handler_attempts : ℕ
  pub active_node_id : Option Text
  pub active_node_attempts : ℕ
  pub execution_fingerprint : Option Text

abbrev pub checkpoint_schema_version : ℕ
checkpoint_schema_version = 3

-- `PipelineCheckpoint::new`, at the time `now`.
unfoldable pub new_checkpoint :
    Text → Text → List Text → Map Outcome → Map Json → PipelineCheckpoint
new_checkpoint now current completed outcomes context = record {
  current_node_id = current;
  completed_nodes = completed;
  node_outcomes = outcomes;
  context_snapshot = context;
  timestamp = now;
  run_id = none;
  session_id = none;
  step_count = 0;
  total_cost = f64_zero;
  schema_version = checkpoint_schema_version;
  quality_loop_counters = [];
  quality_last_footprint = [];
  previous_node_id = none;
  total_handler_attempts = 0;
  active_node_id = none;
  active_node_attempts = 0;
  execution_fingerprint = none;
}

-- `PipelineCheckpoint::with_quality_counters`.
unfoldable pub with_quality_counters :
    Text
    → Text
    → List Text
    → Map Outcome
    → Map Json
    → ℕ
    → F64
    → Map ℕ
    → Map Text
    → Option Text
    → Option Text
    → PipelineCheckpoint
unfolding new_checkpoint
with_quality_counters now current completed outcomes context steps cost counters footprints previous
      fingerprint =
    record (new_checkpoint now current completed outcomes context) {
      step_count = steps;
      total_cost = cost;
      quality_loop_counters = counters;
      quality_last_footprint = footprints;
      previous_node_id = previous;
      execution_fingerprint = fingerprint;
    }

newer_schema : ℕ → Text
newer_schema version =
    codes "schema version "
    ++ (decimal version
        ++ (codes " was written by a newer PAS than this build (understands up to "
            ++ (decimal checkpoint_schema_version
                ++ codes "); run with that PAS or pass --fresh to discard it")))

other_plan : Text → Text → Text
other_plan recorded current =
    codes "execution fingerprint "
    ++ (recorded
        ++ (codes " does not match the current pipeline ("
            ++ (current
                ++ codes
                    "); the DOT changed in a way that alters execution semantics. Re-run with --fresh or restore the original DOT")))

abbrev check_fingerprint : Option Text → Text → Text → Result (Unit {0})
check_fingerprint none current path = ok tt
check_fingerprint (some recorded) current path =
    if recorded == current
    then ok tt
    else err (checkpoint_incompatible path (other_plan recorded current))

unfoldable pub validate_checkpoint : PipelineCheckpoint → Text → Text → Result (Unit {0})
unfolding newer_schema other_plan
validate_checkpoint cp current path =
    if ltb checkpoint_schema_version cp.schema_version
    then err (checkpoint_incompatible path (newer_schema cp.schema_version))
    else check_fingerprint cp.execution_fingerprint current path

-- The two files of the run folder: `checkpoint.json` and `checkpoint.json.tmp`.
pub record Disk : Type 0 where
  pub checkpoint : Option Text
  pub tmp : Option Text

-- Where a file operation fails, with its error. A write may stop after some bytes.
pub data SaveFault : Type 0 where
  no_folder no_tmp no_sync no_rename : Text → SaveFault
  short_write : ℕ → Text → SaveFault

pub data LoadFault : Type 0 where
  no_probe no_read : Text → LoadFault

pub data ClearFault : Type 0 where
  no_probe no_remove : Text → ClearFault

-- The file operations after the text is made, in their order.
unfoldable pub write_text : Option SaveFault → Text → Disk → Result (Unit {0}) × Disk
write_text (some (no_folder e)) text d = (err (io e), d)
write_text (some (no_tmp e)) text d = (err (io e), d)
write_text (some (short_write n e)) text d = (err (io e), record d { tmp = some (take n text) })
write_text (some (no_sync e)) text d = (err (io e), record d { tmp = some text })
write_text (some (no_rename e)) text d = (err (io e), record d { tmp = some text })
write_text none text d = (ok tt, record { checkpoint = some text; tmp = none })

-- The folder is made before the text.
abbrev folder_fault : Option SaveFault → Option Text
folder_fault (some (no_folder e)) = some e
folder_fault _ = none

-- `save_checkpoint`.
unfoldable pub save_checkpoint :
    (PipelineCheckpoint → Result Text)
    → Option SaveFault
    → PipelineCheckpoint
    → Disk
    → Result (Unit {0}) × Disk
unfolding write_text
save_checkpoint encode fault cp d = elim (folder_fault fault) [
  | some e ↦ (err (io e), d)
  | none ↦ elim (encode cp) [ err e ↦ (err e, d) | ok text ↦ write_text fault text d ]
]

abbrev pub decoded : (Text → Result PipelineCheckpoint) → Text → Result (Option PipelineCheckpoint)
decoded decode text = elim (decode text) [ ok cp ↦ ok (some cp) | err e ↦ err e ]

-- `load_checkpoint`.
unfoldable pub load_checkpoint :
    (Text → Result PipelineCheckpoint)
    → Option LoadFault
    → Disk
    → Result (Option PipelineCheckpoint)
load_checkpoint decode (some (LoadFault.no_probe e)) d = err (io e)
load_checkpoint decode (some (no_read e)) d = elim d.checkpoint [
  | none ↦ ok none
  | some text ↦ err (io e)
]
load_checkpoint decode none d = elim d.checkpoint [
  | none ↦ ok none
  | some text ↦ decoded decode text
]

-- `clear_checkpoint`.
unfoldable pub clear_checkpoint : Option ClearFault → Disk → Result (Unit {0}) × Disk
clear_checkpoint (some (ClearFault.no_probe e)) d = (err (io e), d)
clear_checkpoint (some (no_remove e)) d = elim d.checkpoint [
  | none ↦ (ok tt, d)
  | some text ↦ (err (io e), d)
]
clear_checkpoint none d = (ok tt, record d { checkpoint = none })
