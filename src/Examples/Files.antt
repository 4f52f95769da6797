-- ===== src/Examples/Files.antt =====
-- Checkpoint files of the small pipeline.
use pascals_discrete_attract.Base.{◌≤◌, none, some, ◌≡◌, refl, ◌⊎◌, ◌↔◌, codes}
use pascals_discrete_attract.Types.Errors.{AttractorError, ok, err}
use pascals_discrete_attract.Checkpoint.{
  Disk, no_sync, new_checkpoint, save_checkpoint, load_checkpoint, validate_checkpoint,
  checkpoint_schema_version,
}
use pascals_discrete_attract.Checkpoint.Atomic.{save-load}
use pascals_discrete_attract.Checkpoint.Resume.{validate_checkpoint_iff}
use pascals_discrete_attract.Graph.{PipelineNode}
use pascals_discrete_attract.Engine.Run.{resume}
use pascals_discrete_attract.Engine.Invoke.{snapshot_of}
use pascals_discrete_attract.Engine.Resume.{carried, resume-snapshot_of}
use pascals_discrete_attract.Examples.Fixtures.{
  environment, configuration, fresh, build, exit_point, first_checkpoint,
}
use pascals_discrete_attract.Graph
use pascals_discrete_attract.Base.{lookup, ◌==◌, true}

abbrev disk : Disk
disk = record { checkpoint = some (codes "old"); tmp = none }

save-load_example :
    (((save_checkpoint environment.encode (some (no_sync (codes "full"))) first_checkpoint disk).0
        ≡ ok tt)
      × (load_checkpoint environment.decode none
            (save_checkpoint environment.encode
              (some (no_sync (codes "full")))
              first_checkpoint
              disk).1
          ≡ ok (some first_checkpoint)))
    ⊎ ((e : AttractorError) × ((save_checkpoint environment.encode
            (some (no_sync (codes "full")))
            first_checkpoint
            disk).0
          ≡ err e)
        × ((save_checkpoint environment.encode
              (some (no_sync (codes "full")))
              first_checkpoint
              disk).1.checkpoint
            ≡ disk.checkpoint))
unfolding new_checkpoint
save-load_example =
    save-load environment.encode environment.decode (some (no_sync (codes "full"))) first_checkpoint
      first_checkpoint (codes "build") disk refl refl

validate_checkpoint_iff_example :
    (validate_checkpoint first_checkpoint (codes "plan") (codes "checkpoint.json") ≡ ok tt) ↔ (
      (first_checkpoint.schema_version ≤ checkpoint_schema_version)
      × ((first_checkpoint.execution_fingerprint ≡ none)
          ⊎ (first_checkpoint.execution_fingerprint ≡ some (codes "plan"))))
validate_checkpoint_iff_example =
    validate_checkpoint_iff first_checkpoint (codes "plan") (codes "checkpoint.json")

exit_named : Graph.node configuration.plan.graph (codes "exit") ≡ some exit_point
unfolding Graph.node lookup ◌==◌
exit_named = refl

resume-snapshot_of_example :
    resume environment configuration true build
      (some
        (snapshot_of environment configuration true (codes "exit") (some (codes "build")) fresh))
      fresh
    ≡ (ok exit_point, carried environment configuration true (some (codes "build")) fresh fresh)
resume-snapshot_of_example =
    resume-snapshot_of environment configuration true (codes "exit") (some (codes "build")) build
      exit_point fresh fresh exit_named
