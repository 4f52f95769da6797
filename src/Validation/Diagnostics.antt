-- ===== src/Validation/Diagnostics.antt =====
-- The diagnostics of crates/attractor-pipeline/src/validation.rs.
use pascals_discrete_attract.Base.{
  Text, Bool, true, false, List, map, Option, none, some, codes, keep,
}
use pascals_discrete_attract.Compile.Diagnostics.{SemanticDiagnosticKind, SemanticDiagnostic}

pub data Severity : Type 0 where
  error warning info : Severity

pub record Diagnostic : Type 0 where
  pub rule : Text
  pub severity : Severity
  pub message : Text
  pub node_id : Option Text
  pub edge : Option (Text × Text)
  pub fix : Option Text

abbrev pub is_error : Diagnostic → Bool
is_error d = elim d.severity [ error ↦ true | _ ↦ false ]

-- The messages of the diagnostics of severity `Error`.
unfoldable pub error_messages : List Diagnostic → List Text
error_messages ds = map (λ (d : Diagnostic). d.message) (keep is_error ds)

-- The rule under which a diagnostic of the compiler is shown.
unfoldable pub semantic_rule : SemanticDiagnosticKind → Text
semantic_rule SemanticDiagnosticKind.invalid_attribute_type = codes "attribute_type"
semantic_rule SemanticDiagnosticKind.invalid_attribute_value = codes "attribute_value"
semantic_rule SemanticDiagnosticKind.missing_provider = codes "provider_required"
semantic_rule SemanticDiagnosticKind.missing_attribute = codes "attribute_required"
semantic_rule SemanticDiagnosticKind.unknown_provider = codes "provider_valid"
semantic_rule SemanticDiagnosticKind.missing_start = codes "start_node"
semantic_rule SemanticDiagnosticKind.multiple_starts = codes "start_node"
semantic_rule SemanticDiagnosticKind.missing_exit = codes "terminal_node"
semantic_rule SemanticDiagnosticKind.multiple_exits = codes "terminal_node"
semantic_rule SemanticDiagnosticKind.conflicting_role_signals = codes "semantic_conflict"
semantic_rule SemanticDiagnosticKind.conflicting_attribute_aliases =
    codes "attribute_alias_conflict"
semantic_rule SemanticDiagnosticKind.unknown_shape = codes "semantic_unknown"
semantic_rule SemanticDiagnosticKind.unknown_handler = codes "semantic_unknown"
semantic_rule SemanticDiagnosticKind.handler_capability_mismatch = codes "handler_registry"
semantic_rule SemanticDiagnosticKind.unsupported_execution_topology =
    codes "unsupported_execution_topology"
semantic_rule SemanticDiagnosticKind.unsupported_execution_capability =
    codes "unsupported_execution_capability"
semantic_rule SemanticDiagnosticKind.transform_error = codes "transform"

unfoldable pub semantic_diagnostic : SemanticDiagnostic → Diagnostic
unfolding semantic_rule
semantic_diagnostic d = record {
  rule = semantic_rule d.kind;
  severity = error;
  message = d.message;
  node_id = d.node_id;
  edge = none;
  fix = some d.fix;
}
