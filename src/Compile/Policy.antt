-- ===== src/Compile/Policy.antt =====
-- `resolve_invocation_policy`: the retry budget and the deadline of a node
-- (crates/attractor-pipeline/src/execution_plan.rs). A `usize` has 64 bits.
use pascals_discrete_attract.Base.{
  ℕ, ◌+◌, ◌-◌, ◌^◌, Text, [], ◌∷◌, Option, none, some, ℤ, codes, lookup, ltb, format, if◌then◌else◌,
}
use pascals_discrete_attract.Graph.{PipelineNode}
use pascals_discrete_attract.Graph.Dot.{AttributeValue}
use pascals_discrete_attract.Graph.Attributes.{parse_duration_str}
use pascals_discrete_attract.Plan.{NodeInvocationPolicy, int_name}
use pascals_discrete_attract.Compile.Diagnostics.{
  SemanticDiagnostic, invalid_attribute_value, Checked, accepted, rejected, Formats, invalid_type,
  ◌>>=◌,
}

unfoldable pub invalid_retry_budget : PipelineNode → ℤ → Text → SemanticDiagnostic
invalid_retry_budget n value reason = record {
  kind = invalid_attribute_value;
  node_id = some n.id;
  message = format (
      codes "Node '"
      ∷ n.id
      ∷ codes "' execution attribute 'max_retries' "
      ∷ reason
      ∷ codes ", found "
      ∷ int_name value
      ∷ []);
  fix = codes "Use a non-negative integer retry count small enough for this platform";
}

unfoldable pub invalid_timeout : PipelineNode → Text → SemanticDiagnostic
invalid_timeout n value = record {
  kind = invalid_attribute_value;
  node_id = some n.id;
  message = format (
      codes "Node '"
      ∷ n.id
      ∷ codes "' execution attribute 'timeout' must be a valid duration, found '"
      ∷ value
      ∷ codes "'"
      ∷ []);
  fix = codes "Use a duration such as timeout=120s or timeout=5m";
}

module _ (formats : Formats) where
  -- The match on `max_retries`: an `i64` that is not negative fits a `usize` of 64 bits.
  unfoldable pub max_retries : PipelineNode → Option AttributeValue → Checked ℕ
  unfolding invalid_retry_budget
  max_retries n none = accepted 0
  max_retries n (some (AttributeValue.integer (ℤ.pos value))) =
      if ltb value (2 ^ 64)
      then accepted value
      else rejected (invalid_retry_budget n (ℤ.pos value) (codes "does not fit this platform") ∷ [])
  max_retries n (some (AttributeValue.integer (ℤ.negsuc m))) =
      rejected (invalid_retry_budget n (ℤ.negsuc m) (codes "must be non-negative") ∷ [])
  max_retries n (some value) =
      rejected (invalid_type formats (some n.id) (codes "max_retries") value ∷ [])

  -- `checked_add(1)`.
  unfoldable pub max_attempts : PipelineNode → ℕ → Checked ℕ
  max_attempts n retries =
      if ltb (retries + 1) (2 ^ 64)
      then accepted (retries + 1)
      else rejected (invalid_retry_budget n (ℤ.pos (2 ^ 63 - 1)) (codes "is too large") ∷ [])

  unfoldable pub parsed_timeout : PipelineNode → Text → Option ℕ → Checked (Option ℕ)
  parsed_timeout n value none = rejected (invalid_timeout n value ∷ [])
  parsed_timeout n value (some ms) = accepted (some ms)

  unfoldable pub timeout_of : PipelineNode → Option AttributeValue → Checked (Option ℕ)
  unfolding parsed_timeout invalid_timeout
  timeout_of n none = accepted none
  timeout_of n (some (AttributeValue.duration ms)) = accepted (some ms)
  timeout_of n (some (AttributeValue.string value)) =
      parsed_timeout n value (parse_duration_str value)
  timeout_of n (some value) =
      rejected (invalid_type formats (some n.id) (codes "timeout") value ∷ [])

  unfoldable pub resolve_invocation_policy : PipelineNode → Checked NodeInvocationPolicy
  unfolding max_retries max_attempts timeout_of
  resolve_invocation_policy n = do
    retries ← max_retries n (lookup (codes "max_retries") n.raw_attrs)
    attempts ← max_attempts n retries
    timeout ← timeout_of n (lookup (codes "timeout") n.raw_attrs)
    accepted (record { max_attempts = attempts; timeout = timeout })
