-- ===== src/Engine/Resume.antt =====
-- Resuming from a checkpoint that the engine made (crates/attractor-pipeline/src/engine.rs).
use pascals_discrete_attract.Base.{Text, Bool, Option, some, ◌≡◌, refl, ==_self}
use pascals_discrete_attract.Types.Errors.{ok}
use pascals_discrete_attract.Types.Store
use pascals_discrete_attract.Graph.{PipelineNode}
use pascals_discrete_attract.Graph
use pascals_discrete_attract.Plan.{fingerprint}
use pascals_discrete_attract.Checkpoint.{validate_checkpoint, with_quality_counters, new_checkpoint}
use pascals_discrete_attract.Engine.Exec.{◌>>=◌}
use pascals_discrete_attract.Engine.State.{RunConfiguration, Environment, RunState}
use pascals_discrete_attract.Engine.Invoke.{snapshot_of}
use pascals_discrete_attract.Engine.Run.{restore, resume, unreserved, or_own}

module _ {W : Type 0} (env : Environment W) (cfg : RunConfiguration) (logs : Bool) where
  -- `s` as it is taken over into the run `t`.
  pub carried : Option Text → RunState W → RunState W → RunState W
  carried previous s t = record t {
    context = Store.apply_updates (unreserved (Store.snapshot s.context)) t.context;
    completed_nodes = s.completed_nodes;
    node_outcomes = s.node_outcomes;
    quality_loop_counters = s.quality_loop_counters;
    quality_last_footprint = s.quality_last_footprint;
    prev_node_id = previous;
    run_id = or_own t.run_id s.run_id;
    progress = s.progress;
  }

  -- Resuming from the checkpoint of a run of the same plan goes on at the checkpoint's node, with
  -- everything the run had counted and recorded, and its context without the reserved keys.
  pub resume-snapshot_of :
      (current : Text) (previous : Option Text) (start n : PipelineNode) (s t : RunState W)
      → Graph.node cfg.plan.graph current ≡ some n
      → resume env cfg logs start (some (snapshot_of env cfg logs current previous s)) t
        ≡ (ok n, carried previous s t)
  unfolding resume restore snapshot_of with_quality_counters new_checkpoint validate_checkpoint
      ◌>>=◌ carried
  resume-snapshot_of current previous start n s t h =
      rw (==_self (fingerprint env.blake3 cfg.plan), h) refl
