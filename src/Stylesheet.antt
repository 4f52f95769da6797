-- ===== src/Stylesheet.antt =====
-- crates/attractor-pipeline/src/stylesheet.rs: the rules of a model stylesheet and their application.
pub mod Scan
pub mod Parser
pub mod Fuel
pub mod Layers
pub mod Precedence
use pascals_discrete_attract.Base.{
  ℕ, compare, Text, Map, Bool, true, false, not, ◌&&◌, List, [], ◌∷◌, Option, none, some, codes,
  ◌==◌, lookup, insert, keep, any, sort_with, map_values, if◌then◌else◌,
}
use pascals_discrete_attract.Graph.{PipelineNode, PipelineGraph}
use pascals_discrete_attract.Graph.Dot.{AttributeValue}
use Parser.{Selector, universal, by_id, by_class, Declaration, Rule}

unfoldable pub specificity : Selector → ℕ
specificity universal = 0
specificity (by_class class) = 1
specificity (by_id id) = 2

unfoldable pub matches : Selector → PipelineNode → Bool
matches universal n = true
matches (by_id id) n = n.id == id
matches (by_class class) n = any (λ c. c == class) n.classes

-- Whether the file itself gives the node this attribute.
unfoldable pub is_authored : Text → Option (List Text) → Bool
is_authored key none = false
is_authored key (some attrs) = any (λ a. a == key) attrs

-- The arm of the match that a declaration takes, under the attributes that the file gives the node.
pub data Arm : Type 0 where
  set_model set_provider set_effort skip : Arm

unfoldable pub arm_of : Option (List Text) → Text → Arm
arm_of authored property =
    if (property == codes "llm_model") && not (is_authored (codes "llm_model") authored)
    then set_model
    else if (property == codes "llm_provider") && not (is_authored (codes "llm_provider") authored)
    then set_provider
    else if property == codes "reasoning_effort"
    then set_effort
    else skip

unfoldable pub apply_arm : Arm → Text → PipelineNode → PipelineNode
apply_arm set_model value n = record n { llm_model = some value }
apply_arm set_provider value n = record n { llm_provider = some value }
apply_arm set_effort value n = record n {
  raw_attrs = insert (codes "reasoning_effort") (AttributeValue.string value) n.raw_attrs;
}
apply_arm skip value n = n

unfoldable pub apply_declaration : Option (List Text) → Declaration → PipelineNode → PipelineNode
unfolding arm_of apply_arm
apply_declaration authored d n = apply_arm (arm_of authored d.property) d.value n

unfoldable pub apply_declarations :
    Option (List Text) → List Declaration → PipelineNode → PipelineNode
unfolding apply_declaration
apply_declarations authored [] n = n
apply_declarations authored (d ∷ ds) n =
    apply_declarations authored ds (apply_declaration authored d n)

unfoldable pub apply_rules : Option (List Text) → List Rule → PipelineNode → PipelineNode
unfolding apply_declarations
apply_rules authored [] n = n
apply_rules authored (r ∷ rs) n =
    apply_rules authored rs (apply_declarations authored r.declarations n)

-- The rules that match, in ascending specificity; those of one specificity keep their order.
unfoldable pub matching_rules : List Rule → PipelineNode → List Rule
matching_rules rules n =
    sort_with (λ (a b : Rule). compare (specificity a.selector) (specificity b.selector))
      (keep (λ (r : Rule). matches r.selector n) rules)

unfoldable pub style_node : Map (List Text) → List Rule → PipelineNode → PipelineNode
unfolding matching_rules apply_rules
style_node authored_attrs rules n =
    apply_rules (lookup n.id authored_attrs) (matching_rules rules n) n

unfoldable pub apply_stylesheet : List Rule → PipelineGraph → PipelineGraph
unfolding style_node
apply_stylesheet rules g = record g {
  nodes = map_values (style_node g.authored_node_attrs rules) g.nodes;
}
