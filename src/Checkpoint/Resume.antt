-- ===== src/Checkpoint/Resume.antt =====
-- Which checkpoints a run may resume from.
use pascals_discrete_attract.Base.{
  ◌≤◌, Text, Option, none, some, ◌≡◌, refl, ◌⊎◌, ◌↔◌, inl, arith, ==_iff,
}
use pascals_discrete_attract.Types.Errors.{ok}
use pascals_discrete_attract.Checkpoint.{
  PipelineCheckpoint, checkpoint_schema_version, validate_checkpoint, check_fingerprint,
}

fingerprint_agrees :
    (recorded : Option Text) (current path : Text)
    → (check_fingerprint recorded current path ≡ ok tt)
      ↔ ((recorded ≡ none) ⊎ (recorded ≡ some current))
fingerprint_agrees none current path = (λ h. inl refl, λ h. refl)
fingerprint_agrees (some recorded) current path =
    (λ h. ground (arith, ==_iff recorded current), λ h. ground (arith, ==_iff recorded current))

-- A checkpoint is accepted exactly when its schema version is at most the one of this build, and it
-- records no fingerprint or the fingerprint of the current plan.
pub validate_checkpoint_iff :
    (cp : PipelineCheckpoint) (current path : Text)
    → (validate_checkpoint cp current path ≡ ok tt) ↔ (
        (cp.schema_version ≤ checkpoint_schema_version)
        × ((cp.execution_fingerprint ≡ none) ⊎ (cp.execution_fingerprint ≡ some current)))
unfolding validate_checkpoint
validate_checkpoint_iff cp current path = (
  λ h. ground (arith, (fingerprint_agrees cp.execution_fingerprint current path).0),
  λ h. ground (arith, (fingerprint_agrees cp.execution_fingerprint current path).1),
)
