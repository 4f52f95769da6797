-- ===== src/Compile/PiNodes.antt =====
-- `validate_pi_node` and what it calls: the model and the tools of a pi node
-- (crates/attractor-pipeline/src/execution_plan.rs).
use mathlib.Core.List.{reverse}
use pascals_discrete_attract.Base.{
  ℕ, Text, Bool, true, false, ◌||◌, List, [], ◌∷◌, ◌++◌, map, Option, none, some, codes, ◌==◌, eqb,
  any, is_empty, is_whitespace, trim, split, join, format, lookup, if◌then◌else◌,
}
use pascals_discrete_attract.Graph.{PipelineNode}
use pascals_discrete_attract.Graph.Dot.{AttributeValue}
use pascals_discrete_attract.Compile.Diagnostics.{
  SemanticDiagnostic, missing_attribute, invalid_attribute_value,
}

-- `split_once(c)`.
unfoldable pub split_once : ℕ → Text → Option (Text × Text)
split_once c [] = none
split_once c (d ∷ s) = elim (eqb d c) [
  | true ↦ some ([], s)
  | false ↦ elim (split_once c s) [ none ↦ none | some (before, after) ↦ some (d ∷ before, after) ]
]

swap_reversed : Option (Text × Text) → Option (Text × Text)
swap_reversed none = none
swap_reversed (some (before, after)) = some (reverse after, reverse before)

-- `rsplit_once(c)`, on the reversed text.
unfoldable pub rsplit_once : ℕ → Text → Option (Text × Text)
unfolding split_once swap_reversed
rsplit_once c s = swap_reversed (split_once c (reverse s))

pi_thinking_levels : List Text
pi_thinking_levels =
    codes "off"
    ∷ codes "minimal"
    ∷ codes "low"
    ∷ codes "medium"
    ∷ codes "high"
    ∷ codes "xhigh"
    ∷ codes "max"
    ∷ []

model_shape : Text
model_shape =
    codes
      "Use llm_model=\"provider/model-id\", for example \"openai/gpt-5.5\" or \"openai/gpt-5.5:high\""

bad_level : Text → Text
unfolding pi_thinking_levels
bad_level level = format (
    codes "The thinking suffix '"
    ∷ level
    ∷ codes "' is not valid; use one of: "
    ∷ join (codes ", ") pi_thinking_levels
    ∷ [])

-- An id and the thinking level after it.
with_level : Text → Option (Text × Text) → Text × Option Text
with_level rest none = (rest, none)
with_level rest (some (id, level)) = (id, some level)

level_error : Option Text → Option Text
unfolding bad_level pi_thinking_levels
level_error none = none
level_error (some level) =
    if any (λ known. known == level) pi_thinking_levels then none else some (bad_level level)

model_error : Option (Text × Text) → Option Text
unfolding model_shape level_error with_level rsplit_once
model_error none = some model_shape
model_error (some (provider, rest)) =
    let (id, thinking) = with_level rest (rsplit_once b':' rest) in
    if is_empty (trim provider) || is_empty (trim id)
    then some model_shape
    else level_error thinking

-- `check_pi_model`: the fix to suggest, none where the model is right.
unfoldable pub check_pi_model : Text → Option Text
unfolding model_error split_once
check_pi_model value = model_error (split_once b'/' value)

bad_name : Text → Bool
bad_name name = any (λ c. eqb c b'(' || eqb c b')' || is_whitespace c) name

first_bad : List Text → Option Text
unfolding bad_name
first_bad [] = none
first_bad (name ∷ names) = let rest = first_bad names in if bad_name name then some name else rest

-- `check_pi_tools`: the first entry that is no tool name.
unfoldable pub check_pi_tools : Text → Option Text
unfolding first_bad
check_pi_tools value = first_bad (map trim (split b',' value))

missing_model : Text → SemanticDiagnostic
missing_model id = record {
  kind = missing_attribute;
  node_id = some id;
  message =
      format (codes "Node '" ∷ id ∷ codes "' uses llm_provider \"pi\" but has no llm_model" ∷ []);
  fix = codes "Add llm_model=\"openai/gpt-5.5\" (provider/model-id)";
}

invalid_model : Text → Text → Text → SemanticDiagnostic
invalid_model id model fix = record {
  kind = invalid_attribute_value;
  node_id = some id;
  message =
      format
        (codes "Node '" ∷ id ∷ codes "' has invalid llm_model '" ∷ model ∷ codes "' for pi" ∷ []);
  fix = fix;
}

invalid_tool : Text → Text → SemanticDiagnostic
invalid_tool id name = record {
  kind = invalid_attribute_value;
  node_id = some id;
  message = format (
      codes "Node '"
      ∷ id
      ∷ codes "' has allowed_tools entry '"
      ∷ name
      ∷ codes "' that is not a pi tool name"
      ∷ []);
  fix =
      codes
        "Use a comma-separated list of tool names such as read, bash, edit, write, grep, find, ls; Claude patterns like Bash(git:*) are not supported by pi";
}

model_check : Text → Text → Option Text → List SemanticDiagnostic
unfolding invalid_model
model_check id model none = []
model_check id model (some fix) = invalid_model id model fix ∷ []

trimmed_model_errors : Text → Text → List SemanticDiagnostic
unfolding missing_model model_check check_pi_model
trimmed_model_errors id [] = missing_model id ∷ []
trimmed_model_errors id (c ∷ model) = model_check id (c ∷ model) (check_pi_model (c ∷ model))

unfoldable pub pi_model_errors : Text → Option Text → List SemanticDiagnostic
unfolding missing_model trimmed_model_errors
pi_model_errors id none = missing_model id ∷ []
pi_model_errors id (some model) = trimmed_model_errors id (trim model)

tool_check : Text → Option Text → List SemanticDiagnostic
unfolding invalid_tool
tool_check id none = []
tool_check id (some name) = invalid_tool id name ∷ []

unfoldable pub pi_tool_errors : Text → Option AttributeValue → List SemanticDiagnostic
unfolding tool_check check_pi_tools
pi_tool_errors id (some (AttributeValue.string tools)) = tool_check id (check_pi_tools tools)
pi_tool_errors id _ = []

unfoldable pub validate_pi_node : Text → PipelineNode → List SemanticDiagnostic
unfolding pi_model_errors pi_tool_errors
validate_pi_node id n =
    pi_model_errors id n.llm_model ++ pi_tool_errors id (lookup (codes "allowed_tools") n.raw_attrs)
