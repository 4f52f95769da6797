-- ===== src/Compile/Diagnostics.antt =====
-- The diagnostics of the compiler (crates/attractor-pipeline/src/execution_plan.rs).
use pascals_discrete_attract.Base.{
  ℕ, compare, Ordering, Text, List, [], ◌∷◌, ◌++◌, map, Option, none, some, codes, cmp, then_cmp,
  join, format,
}
use pascals_discrete_attract.Types.Values.{F64, FloatOps}
use pascals_discrete_attract.Graph.Dot.{AttributeValue}
use pascals_discrete_attract.Plan.{int_name, bool_name}

pub data SemanticDiagnosticKind : Type 0 where
  invalid_attribute_type invalid_attribute_value conflicting_role_signals : SemanticDiagnosticKind
  conflicting_attribute_aliases unknown_shape unknown_handler : SemanticDiagnosticKind
  handler_capability_mismatch missing_provider missing_attribute : SemanticDiagnosticKind
  unknown_provider unsupported_execution_topology : SemanticDiagnosticKind
  unsupported_execution_capability multiple_starts missing_start : SemanticDiagnosticKind
  multiple_exits missing_exit transform_error : SemanticDiagnosticKind

pub record SemanticDiagnostic : Type 0 where
  pub kind : SemanticDiagnosticKind
  pub node_id : Option Text
  pub message : Text
  pub fix : Text

-- The order of declaration, which the derived `Ord` follows.
unfoldable pub kind_rank : SemanticDiagnosticKind → ℕ
kind_rank invalid_attribute_type = 0
kind_rank invalid_attribute_value = 1
kind_rank conflicting_role_signals = 2
kind_rank conflicting_attribute_aliases = 3
kind_rank unknown_shape = 4
kind_rank unknown_handler = 5
kind_rank handler_capability_mismatch = 6
kind_rank missing_provider = 7
kind_rank missing_attribute = 8
kind_rank unknown_provider = 9
kind_rank unsupported_execution_topology = 10
kind_rank unsupported_execution_capability = 11
kind_rank multiple_starts = 12
kind_rank missing_start = 13
kind_rank multiple_exits = 14
kind_rank missing_exit = 15
kind_rank transform_error = 16

-- The order of `Option<String>`: `None` comes first.
unfoldable pub cmp_option : Option Text → Option Text → Ordering
cmp_option none none = Ordering.eq
cmp_option none (some t) = Ordering.lt
cmp_option (some s) none = Ordering.gt
cmp_option (some s) (some t) = cmp s t

-- The comparison that the diagnostics are sorted by: node, kind, message.
unfoldable pub diagnostic_order : SemanticDiagnostic → SemanticDiagnostic → Ordering
unfolding cmp_option kind_rank
diagnostic_order left right =
    then_cmp
      (then_cmp (cmp_option left.node_id right.node_id)
        (compare (kind_rank left.kind) (kind_rank right.kind)))
      (cmp left.message right.message)

-- The text of a `SemanticError`.
unfoldable pub display_semantic : List SemanticDiagnostic → Text
display_semantic diagnostics =
    codes "pipeline semantic compilation failed: "
    ++ join (codes "; ") (map (λ d. d.message) diagnostics)

-- The results of the compiler: a value, or the diagnostics that refuse it.
pub data Checked {ℓ} (A : Type ℓ) : Type ℓ where
  accepted : A → Checked A
  rejected : List SemanticDiagnostic → Checked A

infixl 5 ◌>>=◌
-- `?`: a rejection returns at once.
abbrev pub ◌>>=◌ {ℓ κ} : {A : Type ℓ} {B : Type κ} → Checked A → (A → Checked B) → Checked B
(rejected ds) >>= next = rejected ds
(accepted value) >>= next = next value

-- How a float and a duration are printed, by `to_string` and `{:?}`, and `{:.2}` of the errors.
pub record Formats : Type 0 where
  pub float_text : F64 → Text
  pub duration_text : ℕ → Text
  pub floats : FloatOps

-- `attribute_type_and_value`.
unfoldable pub attribute_type_and_value : Formats → AttributeValue → Text × Text
attribute_type_and_value formats (AttributeValue.string s) = (codes "string", s)
attribute_type_and_value formats (AttributeValue.integer i) = (codes "integer", int_name i)
attribute_type_and_value formats (AttributeValue.float f) = (codes "float", formats.float_text f)
attribute_type_and_value formats (AttributeValue.boolean b) = (codes "boolean", bool_name b)
attribute_type_and_value formats (AttributeValue.duration d) =
    (codes "duration", formats.duration_text d)

abbrev subject_of : Option Text → Text
subject_of none = codes "Graph"
subject_of (some id) = format (codes "Node '" ∷ id ∷ codes "'" ∷ [])

-- `invalid_attribute_type`.
unfoldable pub invalid_type : Formats → Option Text → Text → AttributeValue → SemanticDiagnostic
unfolding attribute_type_and_value
invalid_type formats id key value =
    let (value_type, authored) = attribute_type_and_value formats value in
    record {
      kind = invalid_attribute_type;
      node_id = id;
      message = format (
          subject_of id
          ∷ codes " semantic attribute '"
          ∷ key
          ∷ codes "' must be a string, found "
          ∷ value_type
          ∷ codes " value "
          ∷ authored
          ∷ []);
      fix = format (
          codes "Quote the '"
          ∷ key
          ∷ codes "' value, for example "
          ∷ key
          ∷ codes "=\""
          ∷ authored
          ∷ codes "\""
          ∷ []);
    }

-- `unsupported_node_capability`.
unfoldable pub unsupported_node_capability : Text → Text → Text → SemanticDiagnostic
unsupported_node_capability id capability fix = record {
  kind = unsupported_execution_capability;
  node_id = some id;
  message = format (
      codes "Node '"
      ∷ id
      ∷ codes "' uses unsupported execution capability '"
      ∷ capability
      ∷ codes "'"
      ∷ []);
  fix = fix;
}
