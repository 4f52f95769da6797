-- ===== src/Engine/Keys.antt =====
-- The helpers at the top of crates/attractor-pipeline/src/engine.rs, the reserved context keys of
-- run_configuration.rs and the back-off of retry.rs.
use pascals_discrete_attract.Base.{
  ℕ, ◌-◌, ◌*◌, ◌^◌, min, Text, Bool, ◌||◌, List, [], ◌∷◌, ◌++◌, Option, none, some, codes, ◌==◌,
  ltb, starts_with, is_empty, trim, keep, keys, sort_by, join, any, if◌then◌else◌,
}
use pascals_discrete_attract.Types.{
  Outcome, StageStatus, success, partial_success, retry, fail, skipped,
}
use pascals_discrete_attract.Types.Values.{Json, as_str}
use pascals_discrete_attract.Types.Errors.{validation_error, Result, ok, err}
use pascals_discrete_attract.Types.Store.{Context, apply_updates}

unfoldable pub status_to_string : StageStatus → Text
status_to_string success = codes "success"
status_to_string partial_success = codes "partial_success"
status_to_string retry = codes "retry"
status_to_string fail = codes "fail"
status_to_string skipped = codes "skipped"

abbrev pub exact_reserved_keys : List Text
exact_reserved_keys =
    codes "dry_run"
    ∷ codes "workdir"
    ∷ codes "max_steps"
    ∷ codes "max_budget_usd"
    ∷ codes "quality_disabled"
    ∷ codes "quality_max_fix_iterations"
    ∷ codes "outcome"
    ∷ codes "preferred_label"
    ∷ []

unfoldable pub is_reserved_key : Text → Bool
is_reserved_key key =
    any (λ k. key == k) exact_reserved_keys
    || starts_with (codes "codergen.claude.") key
    || starts_with (codes "codergen.pi.") key
    || (key == codes "codergen.skills")
    || starts_with (codes "__pas.") key
    || starts_with (codes "__pas::") key

abbrev pub task_id_key : Text
task_id_key = codes "task.id"

abbrev nonempty : Text → Option Text
nonempty s = if is_empty s then none else some s

abbrev trimmed : Option Text → Option Text
trimmed none = none
trimmed (some s) = nonempty (trim s)

unfoldable pub task_id_value : Option Json → Option Text
task_id_value none = none
task_id_value (some v) = trimmed (as_str v)

unfoldable pub reserved_updates : Outcome → List Text
reserved_updates outcome = sort_by (λ k. k) (keep is_reserved_key (keys outcome.context_updates))

abbrev pub apply_unreserved : Context → Text → Outcome → List Text → Result Context
apply_unreserved context node_id outcome [] = ok (apply_updates outcome.context_updates context)
apply_unreserved context node_id outcome (k ∷ ks) = err (
    validation_error (
      codes "handler '"
      ++ (node_id
          ++ (codes "' attempted to write reserved context key(s): "
              ++ join (codes ", ") (k ∷ ks)))))

unfoldable pub apply_handler_updates : Context → Text → Outcome → Result Context
unfolding reserved_updates
apply_handler_updates context node_id outcome =
    apply_unreserved context node_id outcome (reserved_updates outcome)

-- `1_u64.checked_shl(shift)` is absent from 64 on; the product saturates at the largest `u64`.
unfoldable pub retry_delay : ℕ → ℕ
retry_delay attempt =
    let shift = min attempt (2 ^ 32 - 1) in
    let multiplier = if ltb shift 64 then 2 ^ shift else 2 ^ 64 - 1 in
    min (min (500 * multiplier) (2 ^ 64 - 1)) 30000
