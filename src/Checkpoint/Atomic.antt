-- ===== src/Checkpoint/Atomic.antt =====
-- What a save leaves in the run folder (crates/attractor-pipeline/src/checkpoint.rs).
use pascals_discrete_attract.Base.{Text, Option, none, some, ◌≡◌, refl, ◌⊎◌, inl, inr}
use pascals_discrete_attract.Types.Errors.{AttractorError, io, Result, ok, err}
use pascals_discrete_attract.Checkpoint.{
  PipelineCheckpoint, Disk, SaveFault, no_folder, no_tmp, no_sync, no_rename, short_write,
  save_checkpoint, load_checkpoint, decoded,
}

-- For every fault, or none, at any of the file operations: a save that succeeds leaves a file that
-- loads as what the text decodes to, and a save that fails leaves the checkpoint file as it was.
pub save-load :
    (encode : PipelineCheckpoint → Result Text) (decode : Text → Result PipelineCheckpoint)
    (fault : Option SaveFault) (cp saved : PipelineCheckpoint) (text : Text) (d : Disk)
    → encode cp ≡ ok text
    → decode text ≡ ok saved
    → (((save_checkpoint encode fault cp d).0 ≡ ok tt)
        × (load_checkpoint decode none (save_checkpoint encode fault cp d).1 ≡ ok (some saved)))
      ⊎ ((e : AttractorError) × ((save_checkpoint encode fault cp d).0 ≡ err e)
          × ((save_checkpoint encode fault cp d).1.checkpoint ≡ d.checkpoint))
unfolding save_checkpoint load_checkpoint
save-load encode decode none cp saved text d he hd =
    rw (he, save_checkpoint) (inl (refl, rw (hd, decoded)))
save-load encode decode (some (no_folder e)) cp saved text d he hd = inr (io e, refl, refl)
save-load encode decode (some (no_tmp e)) cp saved text d he hd =
    rw (he, save_checkpoint) (inr (io e, refl, refl))
save-load encode decode (some (short_write n e)) cp saved text d he hd =
    rw (he, save_checkpoint) (inr (io e, refl, refl))
save-load encode decode (some (no_sync e)) cp saved text d he hd =
    rw (he, save_checkpoint) (inr (io e, refl, refl))
save-load encode decode (some (no_rename e)) cp saved text d he hd =
    rw (he, save_checkpoint) (inr (io e, refl, refl))
