-- ===== src/Compile/Transforms.antt =====
-- crates/attractor-pipeline/src/transforms.rs: the stylesheet and the variables of prompts.
use pascals_discrete_attract.Base.{
  Text, Map, true, false, List, [], ◌∷◌, ◌++◌, Option, none, some, codes, starts_with, drop, length,
  zero, suc, ℕ, format, map_option,
}
use pascals_discrete_attract.Types.Errors.{AttractorError}
use pascals_discrete_attract.Graph.{PipelineNode, PipelineGraph}
use pascals_discrete_attract.Graph.Dot.{AttributeValue, Attrs}
use pascals_discrete_attract.Graph.Attributes.{get_string_attr}
use pascals_discrete_attract.Plan.{int_name, bool_name}
use pascals_discrete_attract.Stylesheet.{apply_stylesheet}
use pascals_discrete_attract.Stylesheet.Parser.{Rule, parse_stylesheet}
use pascals_discrete_attract.Stylesheet.Scan.{Parsed, parsed, failed, panicked, starved}
use pascals_discrete_attract.Compile.Diagnostics.{Formats}
use pascals_discrete_attract.Compile.Aliases.{update_nodes}

-- The transforms give a graph or an error, or the parser of the stylesheet panics.
pub data Transformed : Type 0 where
  transformed : PipelineGraph → Transformed
  refused : AttractorError → Transformed
  broken : Transformed

-- `str::replace` with a pattern that is not empty. The copy skips the characters of a match.
replace_from : ℕ → Text → Text → Text → Text
replace_from skipped pattern value [] = []
replace_from (suc skipped) pattern value (c ∷ s) = replace_from skipped pattern value s
replace_from zero pattern value (c ∷ s) = elim (starts_with pattern (c ∷ s)) [
  | true ↦ value ++ replace_from (length (drop 1 pattern)) pattern value s
  | false ↦ c ∷ replace_from zero pattern value s
]

unfoldable pub replace : Text → Text → Text → Text
unfolding replace_from starts_with
replace pattern value s = replace_from zero pattern value s

-- `expand_variables`: one replacement after another, in the order in which the map iterates.
unfoldable pub expand_variables : Text → Map Text → Text
unfolding replace
expand_variables template [] = template
expand_variables template ((key, value) ∷ vars) =
    expand_variables (replace (format (codes "${" ∷ key ∷ codes "}" ∷ [])) value template) vars

variable_value : Formats → AttributeValue → Option Text
variable_value formats (AttributeValue.string s) = some s
variable_value formats (AttributeValue.integer i) = some (int_name i)
variable_value formats (AttributeValue.boolean b) = some (bool_name b)
variable_value formats (AttributeValue.float f) = some (formats.float_text f)
variable_value formats (AttributeValue.duration d) = none

add_variable : Text → Option Text → Map Text → Map Text
add_variable key none vars = vars
add_variable key (some value) vars = (key, value) ∷ vars

unfoldable pub variables : Formats → Attrs → Map Text
unfolding variable_value add_variable
variables formats [] = []
variables formats ((key, value) ∷ attrs) =
    add_variable key (variable_value formats value) (variables formats attrs)

-- An expansion that changes nothing is not stored, which leaves the same prompt.
unfoldable pub expand_prompt : Map Text → PipelineNode → PipelineNode
unfolding expand_variables
expand_prompt vars n = record n {
  prompt = map_option (λ prompt. expand_variables prompt vars) n.prompt;
}

unfoldable pub expand_prompt_variables : Formats → PipelineGraph → PipelineGraph
unfolding variables expand_prompt
expand_prompt_variables formats g = update_nodes (expand_prompt (variables formats g.attrs)) g

unfoldable pub styled : PipelineGraph → Parsed (List Rule) → Transformed
styled g (parsed rules p) = transformed (apply_stylesheet rules g)
styled g (failed e) = refused e
styled g panicked = broken
styled g starved = broken

unfoldable pub apply_model_stylesheet : PipelineGraph → Option Text → Transformed
unfolding styled parse_stylesheet apply_stylesheet
apply_model_stylesheet g none = transformed g
apply_model_stylesheet g (some css) = styled g (parse_stylesheet css)

unfoldable pub expanded : Formats → Transformed → Transformed
unfolding expand_prompt_variables
expanded formats (transformed g) = transformed (expand_prompt_variables formats g)
expanded formats (refused e) = refused e
expanded formats broken = broken

unfoldable pub apply_transforms : Formats → PipelineGraph → Transformed
unfolding expanded apply_model_stylesheet
apply_transforms formats g =
    expanded formats (apply_model_stylesheet g (get_string_attr g.attrs (codes "model_stylesheet")))
